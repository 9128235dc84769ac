-- ===== src/Resource/Registry.antt =====
-- resource/provider.go and resource/lua.go: the registries of providers and of functions, and their
-- registration in Lua.  A Lua state is the map of its globals; a call of `SetField` on what is no
-- table raises an error, which is none.
use gru.Prelude.{String, Bool, Option, none, some, List, [], ◌∷◌, ◌++◌, Map, lookup, insert}
use gru.Errors.{Error, Result, ok, err}
pub mod Contract

-- A provider makes the resource of a name, or returns an error beside it.
abbrev pub Provider : Type 0 → Type 0
Provider R = String → R × Option Error

pub record ProviderItem (R : Type 0) : Type 0 where
  pub type_name : String
  pub provider : Provider R
  pub namespace : String

pub record FunctionItem (F : Type 0) : Type 0 where
  pub name : String
  pub namespace : String
  pub function : F

-- providerRegistry and functionRegistry are lists to which items are appended.
unfoldable pub register {ℓ} : {A : Type ℓ} → List A → List A → List A
register registry items = registry ++ items

-- What stands in a field of a namespace: a function, or the table of a type with its `new`.
pub data Field (R F : Type 0) : Type 0 where
  function : F → Field R F
  type_table : (String → Result R) → Field R F

-- A global: false (as is a missing one, which is nil), a table, or some other value.
pub data Global (R F : Type 0) : Type 0 where
  falsehood : Global R F
  table : Map (Field R F) → Global R F
  other : Global R F

-- The function that is called from Lua: an error of the provider is raised there.
unfoldable pub raised : {R : Type 0} → R × Option Error → Result R
raised (r, some e) = err e
raised (r, none) = ok r

unfoldable pub wrapper : {R : Type 0} → Provider R → String → Result R
unfolding raised
wrapper p name = raised (p name)

module _ {R F : Type 0} where
  -- The namespace of an item: a new table where the global is nil or false.
  unfoldable pub namespace_of : Option (Global R F) → Option (Map (Field R F))
  namespace_of none = some []
  namespace_of (some falsehood) = some []
  namespace_of (some (table fields)) = some fields
  namespace_of (some other) = none

  -- GetGlobal, SetGlobal where there is no table yet, and SetField.
  unfoldable pub set_field :
      String → String → Field R F → Map (Global R F) → Option (Map (Global R F))
  unfolding namespace_of
  set_field namespace key f globals = elim (namespace_of (lookup namespace globals)) [
    | none ↦ none
    | some fields ↦ some (insert namespace (table (insert key f fields)) globals)
  ]

  unfoldable pub register_functions :
      List (FunctionItem F) → Map (Global R F) → Option (Map (Global R F))
  unfolding set_field
  register_functions [] globals = some globals
  register_functions (item ∷ items) globals =
      elim (set_field item.namespace item.name (function item.function) globals) [
        | none ↦ none
        | some globals₁ ↦ register_functions items globals₁
      ]

  unfoldable pub register_providers :
      List (ProviderItem R) → Map (Global R F) → Option (Map (Global R F))
  unfolding set_field wrapper
  register_providers [] globals = some globals
  register_providers (item ∷ items) globals =
      elim (set_field item.namespace item.type_name (type_table (wrapper item.provider)) globals) [
        | none ↦ none
        | some globals₁ ↦ register_providers items globals₁
      ]

  unfoldable pub lua_register_builtin :
      List (FunctionItem F) → List (ProviderItem R) → Map (Global R F) → Option (Map (Global R F))
  unfolding register_functions register_providers
  lua_register_builtin functions providers globals = elim (register_functions functions globals) [
    | none ↦ none
    | some globals₁ ↦ register_providers providers globals₁
  ]
