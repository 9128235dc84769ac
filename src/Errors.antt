-- ===== src/Errors.antt =====
-- The error values of the program, and Go's `(value, error)` results with nil dereferences.
use gru.Prelude.{ℕ, String, Bool, true, false, Option, none, some}

pub data Error : Type 0 where
  -- resource/resource.go
  invalid_type invalid_name resource_absent : Error
  invalid_state : String → Error
  -- resource/collection.go
  duplicate : String → Error
  wants subscribes : String → String → Error
  -- graph/graph.go
  circular_dependency : Error
  -- catalog/catalog.go
  failed_dependency : String → Error
  cannot_evaluate cannot_set : Error → Error
  -- resource/package.go
  no_package_provider : Error
  -- resource/file.go
  source_and_content not_regular not_directory no_source : Error
  source_missing : String → Error
  not_link : Error → Error
  -- utils/file.go
  not_regular_file not_a_directory already_exists : String → Error
  -- resource/service_linux.go
  no_systemd invalid_unit_state : Error
  -- resource/sysrc_freebsd.go
  no_match : String → Error
  other_variable : String → String → Error
  -- resource/vsphere.go, resource/vsphere_datastore.go and resource/vsphere_host.go
  no_username no_password no_endpoint no_hosts no_nfs_server no_nfs_path : Error
  old_version : String → String → Error
  -- resource/vsphere_vm.go
  invalid_mks invalid_guest no_pool no_datastore no_hardware invalid_power_state : Error
  -- classifier/classifier.go
  classifier_not_found : Error
  -- minion/etcd.go
  no_site_repo : Error
  not_git_repo : String → Error
  -- gructl/command/error.go
  no_minion invalid_uuid no_minion_found no_classifier no_task no_module_name : Error
  missing_site_repo : Error
  -- An error of etcd with its code, and an error of some other origin.
  etcd : ℕ → Error
  other : String → Error

-- What a call comes to: a value, an error, or a dereference of nil.
pub data Result {ℓ} (A : Type ℓ) : Type ℓ where
  ok : A → Result A
  err : Error → Result A
  panic : Result A

infixl 5 ◌>>=◌
abbrev pub ◌>>=◌ {ℓ κ} : {A : Type ℓ} {B : Type κ} → Result A → (A → Result B) → Result B
ok a >>= f = f a
err e >>= f = err e
panic >>= f = panic

-- err == resource.ErrResourceAbsent
abbrev pub is_absent : Error → Bool
is_absent resource_absent = true
is_absent _ = false

-- A pointer that is dereferenced.
abbrev pub deref {ℓ} : {A : Type ℓ} → Option A → Result A
deref none = panic
deref (some a) = ok a

abbrev pub or_error {ℓ} : {A : Type ℓ} → Option A → Error → Result A
or_error none e = err e
or_error (some a) e = ok a
