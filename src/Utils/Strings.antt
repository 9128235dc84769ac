-- ===== src/Utils/Strings.antt =====
-- utils/list.go: lists of strings and the membership test.
use gru.Prelude.{
  String, ◌≡◌, refl, Bool, true, false, ◌&&◌, ◌||◌, List, [], ◌∷◌, ◌++◌, arith, str_eq,
  if◌then◌else◌, mem_str,
}

-- make(List, len(s)) has an empty string for each item of `s`.
abbrev blanks : List String → List String
blanks [] = []
blanks (x ∷ xs) = "" ∷ blanks xs

unfoldable pub new_list : List String → List String
new_list s = blanks s ++ s

-- The loop returns at the first item that is equal.
unfoldable pub contains : List String → String → Bool
contains [] x = false
contains (v ∷ l) x = let rest = contains l x in if str_eq v x then true else rest

pub record StringValue : Type 0 where
  pub str : String

abbrev pub new_string : String → StringValue
new_string s = record { str = s }

-- fmt.Stringer
abbrev pub to_string : StringValue → String
to_string s = s.str

unfoldable pub is_in_list : StringValue → List String → Bool
unfolding contains
is_in_list s l = contains l s.str

contains-eq-mem_str : (l : List String) (x : String) → contains l x ≡ mem_str x l
unfolding contains
contains-eq-mem_str [] x = refl
contains-eq-mem_str (v ∷ l) x = ground (arith, contains-eq-mem_str l x)

abbrev pub has_items : List String → Bool
has_items [] = false
has_items (x ∷ xs) = true

mem_str-append :
    (x : String) (xs ys : List String) → mem_str x (xs ++ ys) ≡ (mem_str x xs || mem_str x ys)
mem_str-append x [] ys = refl
mem_str-append x (v ∷ xs) ys = ground (arith, mem_str-append x xs ys)

mem_str-blanks :
    (x : String) (l : List String) → mem_str x (blanks l) ≡ (has_items l && str_eq "" x)
mem_str-blanks x [] = refl
mem_str-blanks x (v ∷ l) = ground (arith, mem_str-blanks x l)

-- A new list holds the items that it is made from, and the empty string as well unless there are
-- none.
pub contains-new_list :
    (s : List String) (x : String)
    → contains (new_list s) x ≡ (mem_str x s || (has_items s && str_eq "" x))
unfolding new_list
contains-new_list s x = ground (
  arith,
  contains-eq-mem_str (blanks s ++ s) x,
  mem_str-append x (blanks s) s,
  mem_str-blanks x s,
)
