-- ===== src/Samples/Trees.antt =====
-- A file system of named nodes, where one directory has an entry.
use Prim.Native.String.{◌++◌ as str_append}
use gru.Prelude.{
  ℕ, ◌<◌, String, ◌≡◌, refl, sym, ap, subst, ◌∙◌, Bool, true, false, Option, none, some, List, [],
  ◌∷◌, Map, lookup, insert, remove, lookup-insert, lookup-remove, eq_refl, arith, str_eq, inl,
  if◌then◌else◌, All, ◌≢◌,
}
use gru.Errors.{Error, other}
use gru.Utils.File.{
  FileInfo, Answer, answer, refused, Stat, missing, stated, no_such, opened, Entry, Fs,
}
use gru.Utils.File.Copy.{copy_from, copy_stated, copy_onto, copy_open, open_now}
use gru.Utils.File.Copy.Contract.{CopyCalls, copy_from-IsCopiedFrom, IsCopiedFrom}
use gru.Resource.{Resource}
use gru.Resource.Directory as Directories
use gru.Resource.File.{BaseFile, defaults, is_mode_synced}
use gru.Resource.File.Contract.{is_mode_synced-ne}
use gru.Catalog.Execute.{plan}
use gru.Utils.Strings.{is_in_list, contains, new_list}
use gru.Resource.Directory.{Directory, evaluate, dir_state}
use gru.Resource.Directory.Contract.{DirCalls, managed, directory-IsAtRest}
use gru.Resource.Settle.{IsAtRest}

-- A file with its content and mode, a directory with its mode, a link.
data Node : Type 0 where
  file : String → ℕ → Node
  dir : ℕ → Node
  link : String → Node

abbrev Tree : Type 0
Tree = Map Node

abbrev gone : Error
gone = other "no such file"

abbrev stat_node : Option Node → Stat
stat_node none = missing
stat_node (some (file content mode)) =
    stated (record { mode = mode; is_regular = true; is_dir = false; uid = 0; gid = 0 })
stat_node (some (dir mode)) =
    stated (record { mode = mode; is_regular = false; is_dir = true; uid = 0; gid = 0 })
stat_node (some (link target)) = missing

abbrev content_of : Option Node → Answer String
content_of (some (file content mode)) = answer content
content_of _ = refused gone

abbrev target_of : Option Node → Answer String
target_of (some (link target)) = answer target
target_of _ = refused gone

-- The call on the node that is there, if it is a file.
abbrev on_file : Option Node → (String → ℕ → Tree) → Tree → Option Error × Tree
on_file (some (file content mode)) f w = (none, f content mode)
on_file _ f w = (some gone, w)

abbrev entries : Bool → List Entry
entries true = record { name = "b"; is_dir = true } ∷ []
entries false = []

abbrev join : String → String → String
join path name = str_append path (str_append "/" name)

abbrev tree : Fs Tree
tree = record {
  stat = λ path w. stat_node (lookup path w);
  not_exist = gone;
  read_file = λ path w. content_of (lookup path w);
  write_file = λ path content mode w. (none, insert path (file content mode) w);
  remove_file = λ path w. (none, remove path w);
  chmod_file =
      λ path mode w. on_file (lookup path w) (λ content old. insert path (file content mode) w) w;
  chown_file = λ path uid gid w. (none, w);
  read_link = λ path w. target_of (lookup path w);
  link_file = λ source path w.
      on_file (lookup source w) (λ content mode. insert path (file content mode) w) w;
  symlink_file = λ source path w. (none, insert path (link source) w);
  make_dir = λ path mode w. (none, insert path (dir mode) w);
  make_dirs = λ path mode w. (none, insert path (dir mode) w);
  remove_all = λ path w. (none, remove path w);
  open_file = λ path w. elim (lookup path w) [ none ↦ no_such | some n ↦ opened ];
  create_file = λ path w. (none, insert path (file "" 420) w);
  copy_file =
      λ path src w. on_file (lookup src w) (λ content mode. insert path (file content 420) w) w;
  read_dir = λ path w. answer (entries (str_eq path "/a"));
  join = join;
  user_name = λ uid. answer "root";
  group_name = λ gid. answer "wheel";
  user_id = λ user. answer "0";
  group_id = λ group. answer "0";
  atoi = λ s. answer 0;
  md5 = λ s. s;
  sha1 = λ s. s;
  sha256 = λ s. s;
  abs = λ path w. answer path;
}

lookup-insert_same : (k : String) (n : Node) (w : Tree) → lookup k (insert k n w) ≡ some n
lookup-insert_same k n w = ground (arith, lookup-insert k k n w, eq_refl k)

lookup-remove_same : (k : String) (w : Tree) → lookup k (remove k w) ≡ none
lookup-remove_same k w = ground (arith, lookup-remove k k w, eq_refl k)

-- The world that a call leaves behind.
left_behind :
    (P : Tree → Type 0) (p : Option Error × Tree) (w₁ : Tree) → P p.1 → p ≡ (none, w₁) → P w₁
left_behind P p w₁ h e = subst P (ap (λ p. p.1) e) h

on_file-none :
    (o : Option Node) (f : String → ℕ → Tree) (w w₁ : Tree)
    → on_file o f w ≡ (none, w₁)
    → (c : String) × (m : ℕ) × (o ≡ some (file c m)) × (f c m ≡ w₁)
on_file-none (some (file c m)) f w w₁ e = (c, m, refl, ap (λ p. p.1) e)
on_file-none (some (dir m)) f w w₁ e = cc e
on_file-none (some (link t)) f w w₁ e = cc e
on_file-none none f w w₁ e = cc e

tree-DirCalls : DirCalls tree
tree-DirCalls =
    let IsDir : String → Tree → Type 0 =
      λ path w. (i : FileInfo) × (tree.stat path w ≡ stated i) × (i.is_dir ≡ true) in
    let made : (path : String) (mode : ℕ) (w : Tree) → IsDir path (insert path (dir mode) w) =
      λ path mode w. (_, ap stat_node (lookup-insert_same path (dir mode) w), refl) in
    record {
      made = λ path mode w w₁ e.
          left_behind (IsDir path) (tree.make_dir path mode w) w₁ (made path mode w) e;
      all_made = λ path mode w w₁ e.
          left_behind (IsDir path) (tree.make_dirs path mode w) w₁ (made path mode w) e;
      removed = λ path w w₁ e.
          left_behind (λ x. tree.stat path x ≡ missing) (tree.remove_file path w) w₁
            (ap stat_node (lookup-remove_same path w)) e;
      all_removed = λ path w w₁ e.
          left_behind (λ x. tree.stat path x ≡ missing) (tree.remove_all path w) w₁
            (ap stat_node (lookup-remove_same path w)) e;
    }

tree-CopyCalls : CopyCalls tree
tree-CopyCalls = record {
  truncated = λ path w w₁ e.
      left_behind (λ x. tree.read_file path x ≡ answer "") (tree.create_file path w) w₁
        (ap content_of (lookup-insert_same path (file "" 420) w)) e;
  copied = λ path src w w₁ e.
      let (c, m, at, same) = on_file-none (lookup src w) _ w w₁ e in
      subst (λ (v : Tree). tree.read_file path v ≡ tree.read_file src w) same
        (ap content_of (lookup-insert_same path (file c 420) w) ∙ sym (ap content_of at));
  changed = λ path mode w w₁ e.
      let (c, m, at, same) = on_file-none (lookup path w) _ w w₁ e in
      subst
        (λ (v : Tree).
          (tree.read_file path v ≡ tree.read_file path w)
          × ((i : FileInfo) × (tree.stat path v ≡ stated i) × (i.mode ≡ mode)))
        same
        (
          ap content_of (lookup-insert_same path (file c mode) w) ∙ sym (ap content_of at),
          (_, ap stat_node (lookup-insert_same path (file c mode) w), refl),
        );
}

-- Only "/a" has a directory in it.
abbrev depth : String → ℕ
depth path = if str_eq path "/a" then 1 else 0

abbrev Deeper : String → List Entry → Type 0
Deeper src = All (λ (x : Entry). x.is_dir ≡ true → depth (join src x.name) < depth src)

abbrev listed : Answer (List Entry) → List Entry
listed (answer es) = es
listed (refused e) = []

abbrev tmp : String → BaseFile Tree
tmp path = record {
  base = defaults "directory" path;
  path = path;
  mode = 493;
  owner = "root";
  group = "wheel";
}

abbrev folder : Directory Tree
folder = record { file = tmp "/tmp/bar"; parents = true }

-- A resource with the two states.
abbrev two_states : Resource Tree
two_states = record {
  id = "directory[/tmp/bar]";
  initialize = λ w. some (none, w);
  close = λ w. some (none, w);
  validate = λ w. some (none, w);
  dependencies = [];
  present_states = "present" ∷ [];
  absent_states = "absent" ∷ [];
  is_concurrent = true;
  evaluate = λ w. some (record { current = "absent"; want = "present" }, none, w);
  create = λ w. some (none, w);
  delete = λ w. some (none, w);
  properties = [];
  subscribed_to = [];
}

directory-IsAtRest_example : IsAtRest (managed tree folder) two_states (("/tmp/bar", dir 493) ∷ [])
unfolding evaluate dir_state plan is_in_list contains new_list Directories.create insert lookup
directory-IsAtRest_example =
    directory-IsAtRest tree tree-DirCalls folder two_states refl refl (inl refl)
      (record { current = "absent"; want = "present" }) [] (("/tmp/bar", dir 493) ∷ []) refl refl

abbrev disk : Tree
disk = ("/tmp/qux", file "hello" 384) ∷ []

copy_from-IsCopiedFrom_example :
    IsCopiedFrom tree "/tmp/baz" "/tmp/qux" false disk
      (("/tmp/qux", file "hello" 384) ∷ ("/tmp/baz", file "hello" 384) ∷ [])
unfolding copy_from copy_stated copy_onto copy_open open_now insert lookup
copy_from-IsCopiedFrom_example =
    copy_from-IsCopiedFrom tree tree-CopyCalls "/tmp/baz" "/tmp/qux" false disk
      (("/tmp/qux", file "hello" 384) ∷ ("/tmp/baz", file "hello" 384) ∷ []) refl

-- The mode 04755.
abbrev setuid : BaseFile Tree
setuid = record {
  base = defaults "file" "/tmp/qux";
  path = "/tmp/qux";
  mode = 2541;
  owner = "root";
  group = "wheel";
}

is_mode_synced-ne_example : is_mode_synced tree setuid disk ≢ answer true
is_mode_synced-ne_example = is_mode_synced-ne tree setuid disk (omega arith)
