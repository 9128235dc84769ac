-- ===== src/Resource/Registry/Contract.antt =====
-- What Lua finds after the registration.
use gru.Prelude.{
  String, Bool, true, mem_str, Bool-cases, ◌&&◌, Option, Option-cases, none, some, List, [], ◌∷◌,
  ◌≡◌, ◌≢◌, refl, sym, ap, subst, ◌∙◌, Map, lookup, insert, lookup-insert, inl, inr, arith, str_eq,
  eq_iff, if◌then◌else◌,
}
use gru.Resource.Registry.{
  ProviderItem, FunctionItem, Field, function, type_table, Global, falsehood, table, other, wrapper,
  namespace_of, set_field, register_functions, register_providers, lua_register_builtin,
}

-- The fields that the items set, in the order in which they are set.
pub record Entry (R F : Type 0) : Type 0 where
  pub namespace : String
  pub key : String
  pub field : Field R F

module _ {R F : Type 0} where
  -- namespace.key, as Lua finds it.
  pub field_in : String → Option (Global R F) → Option (Field R F)
  field_in key none = none
  field_in key (some falsehood) = none
  field_in key (some (table fields)) = lookup key fields
  field_in key (some other) = none

  pub field_at : String → String → Map (Global R F) → Option (Field R F)
  field_at namespace key globals = field_in key (lookup namespace globals)

  namespace_of-field :
      (key : String) (o : Option (Global R F)) (fields : Map (Field R F))
      → namespace_of o ≡ some fields
      → lookup key fields ≡ field_in key o
  unfolding namespace_of field_in lookup
  namespace_of-field key none fields e = let same : [] ≡ fields = cc e in sym (ap (lookup key) same)
  namespace_of-field key (some falsehood) fields e =
      let same : [] ≡ fields = cc e in sym (ap (lookup key) same)
  namespace_of-field key (some (table old)) fields e =
      let same : old ≡ fields = cc e in sym (ap (lookup key) same)
  namespace_of-field key (some other) fields e = absurd (cc e)

  placed-field :
      (n k : String) (f : Field R F) (globals : Map (Global R F)) (fields : Map (Field R F))
      (m j : String)
      → lookup j fields ≡ field_at n j globals
      → field_at m j (insert n (table (insert k f fields)) globals)
        ≡ (if str_eq n m && str_eq k j then some f else field_at m j globals)
  unfolding field_at field_in
  placed-field n k f globals fields m j old = elim (Bool-cases (str_eq n m)) [
    | inl same ↦ rw (lookup-insert n m (table (insert k f fields)) globals) (
        rw same (
          lookup-insert k j f fields
          ∙ ap (λ o. if str_eq k j then some f else o)
              (old ∙ ap (λ x. field_at x j globals) ((eq_iff n m).0 same))))
    | inr differ ↦ rw (lookup-insert n m (table (insert k f fields)) globals) (rw differ refl)
  ]

  set_field-field_at :
      (n k : String) (f : Field R F) (globals after : Map (Global R F))
      → set_field n k f globals ≡ some after
      → (m j : String)
      → field_at m j after ≡ (if str_eq n m && str_eq k j then some f else field_at m j globals)
  unfolding set_field field_at
  set_field-field_at n k f globals after e m j =
      elim (Option-cases (namespace_of (lookup n globals))) [
        | inl h ↦ absurd (ground (arith, h, e))
        | inr (fields, h) ↦
            let placed : insert n (table (insert k f fields)) globals ≡ after =
              ground (arith, h, e) in
            subst
              (λ g.
                field_at m j g
                ≡ (if str_eq n m && str_eq k j then some f else field_at m j globals))
              placed
              (placed-field n k f globals fields m j
                (namespace_of-field j (lookup n globals) fields h))
      ]

  -- No global of these names is a value that takes no fields.
  unfoldable pub TakesFields : List String → Map (Global R F) → Type 0
  TakesFields names globals = (n : String) → mem_str n names ≡ true → lookup n globals ≢ some other

  -- The namespaces of the entries are among the names.
  unfoldable pub are_within : List String → List (Entry R F) → Bool
  are_within names [] = true
  are_within names (e ∷ es) = mem_str e.namespace names && are_within names es

  namespace_of-some :
      (o : Option (Global R F)) → o ≢ some other → (fields : _) × (namespace_of o ≡ some fields)
  unfolding namespace_of
  namespace_of-some none h = ([], refl)
  namespace_of-some (some falsehood) h = ([], refl)
  namespace_of-some (some (table fields)) h = (fields, refl)
  namespace_of-some (some other) h = absurd (h refl)

  -- A field can be set, and the namespaces take fields still.
  set_field-total :
      (names : List String) (n k : String) (f : Field R F) (globals : Map (Global R F))
      → mem_str n names ≡ true
      → TakesFields names globals
      → (after : Map (Global R F)) × (set_field n k f globals ≡ some after)
        × TakesFields names after
  unfolding set_field TakesFields
  set_field-total names n k f globals listed free =
      let (fields, at) = namespace_of-some (lookup n globals) (free n listed) in
      (
        insert n (table (insert k f fields)) globals,
        rw (at, set_field) refl,
        λ m among h.
            let found = lookup-insert n m (table (insert k f fields)) globals in
            elim (Bool-cases (str_eq n m)) [
              | inl same ↦
                  let clash : some (table (insert k f fields)) ≡ some other =
                    ground (arith, found, same, h) in
                  absurd (cc clash)
              | inr differ ↦ free m among (ground (arith, found, differ, h))
            ],
      )

  set_all : List (Entry R F) → Map (Global R F) → Option (Map (Global R F))
  set_all [] globals = some globals
  set_all (e ∷ es) globals = elim (set_field e.namespace e.key e.field globals) [
    | none ↦ none
    | some globals₁ ↦ set_all es globals₁
  ]

  unfoldable pub entries : List (FunctionItem F) → List (ProviderItem R) → List (Entry R F)
  entries [] [] = []
  entries [] (p ∷ ps) =
      record { namespace = p.namespace; key = p.type_name; field = type_table (wrapper p.provider) }
      ∷ entries [] ps
  entries (f ∷ fs) ps =
      record { namespace = f.namespace; key = f.name; field = function f.function } ∷ entries fs ps

  -- The last entry under a namespace and a key.
  unfoldable pub last_entry : List (Entry R F) → String → String → Option (Field R F)
  last_entry [] m j = none
  last_entry (e ∷ es) m j = elim (last_entry es m j) [
    | some f ↦ some f
    | none ↦ if str_eq e.namespace m && str_eq e.key j then some e.field else none
  ]

  unfoldable pub or_before : Option (Field R F) → Option (Field R F) → Option (Field R F)
  or_before none old = old
  or_before (some f) old = some f

  -- Every item has been registered: what Lua finds is the last that was registered under a name,
  -- and what was there before under the other names.
  unfoldable pub IsRegistered :
      List (Entry R F) → Map (Global R F) → Option (Map (Global R F)) → Type 0
  IsRegistered es globals r =
      (after : Map (Global R F)) × (r ≡ some after)
      × ((m j : String) → field_at m j after ≡ or_before (last_entry es m j) (field_at m j globals))

  set_all-IsRegistered :
      (names : List String) (es : List (Entry R F)) (globals : Map (Global R F))
      → are_within names es ≡ true
      → TakesFields names globals
      → IsRegistered es globals (set_all es globals)
  unfolding set_all last_entry or_before IsRegistered are_within
  set_all-IsRegistered names [] globals within free = (globals, refl, λ m j. refl)
  set_all-IsRegistered names (e ∷ es) globals within free =
      let (first, sets, free₁) =
        set_field-total names e.namespace e.key e.field globals (ground (arith, within)) free in
      let (after, ends, finds) =
        set_all-IsRegistered names es first (ground (arith, within)) free₁ in
      (
        after,
        rw (sets, set_all) ends,
        λ m j.
            let head = set_field-field_at e.namespace e.key e.field globals first sets m j in
            elim (Option-cases (last_entry es m j)) [
              | inl h ↦ ground (arith, h, head, finds m j)
              | inr (p, h) ↦ ground (arith, h, finds m j)
            ],
      )

  providers-set_all :
      (ps : List (ProviderItem R)) (globals : Map (Global R F))
      → register_providers ps globals ≡ set_all (entries [] ps) globals
  unfolding register_providers set_all entries
  providers-set_all [] globals = refl
  providers-set_all (p ∷ ps) globals =
      elim (Option-cases
        (set_field p.namespace p.type_name (type_table (wrapper p.provider)) globals)) [
          | inl h ↦ rw (h, register_providers, set_all) refl
          | inr (g, h) ↦ rw (h, register_providers, set_all) (providers-set_all ps g)
        ]

  registered-set_all :
      (fs : List (FunctionItem F)) (ps : List (ProviderItem R)) (globals : Map (Global R F))
      → lua_register_builtin fs ps globals ≡ set_all (entries fs ps) globals
  unfolding lua_register_builtin register_functions set_all entries
  registered-set_all [] ps globals = providers-set_all ps globals
  registered-set_all (f ∷ fs) ps globals =
      elim (Option-cases (set_field f.namespace f.name (function f.function) globals)) [
        | inl h ↦ rw (h, lua_register_builtin, register_functions, set_all) refl
        | inr (g, h) ↦
            rw (h, lua_register_builtin, register_functions, set_all) (registered-set_all fs ps g)
      ]

  -- Where no global with the name of a namespace is a value that takes no fields, all functions and all providers are registered:
  -- what Lua finds under a namespace and a name is then the last item with that name, the providers
  -- after the functions and each in the order of its registry, and what was there before under the
  -- other names.
  pub lua_register_builtin-IsRegistered :
      (names : List String) (fs : List (FunctionItem F)) (ps : List (ProviderItem R))
      (globals : Map (Global R F))
      → are_within names (entries fs ps) ≡ true
      → TakesFields names globals
      → IsRegistered (entries fs ps) globals (lua_register_builtin fs ps globals)
  lua_register_builtin-IsRegistered names fs ps globals within free =
      subst (IsRegistered (entries fs ps) globals) (sym (registered-set_all fs ps globals))
        (set_all-IsRegistered names (entries fs ps) globals within free)
