-- ===== src/Resource/Builtin/Contract.antt =====
-- Lua finds every provider under its own name.
use gru.Prelude.{String, Option, some, ◌≡◌, refl, true, List, [], ◌∷◌, Map, All}
use gru.Resource.Registry.{type_table, Global, wrapper, register, lua_register_builtin}
use gru.Resource.Registry.Contract.{
  field_at, TakesFields, are_within, entries, last_entry, or_before, IsRegistered,
  lua_register_builtin-IsRegistered,
}
use gru.Resource.Builtin.{
  Made, Platform, linux, freebsd, Origin, Item, provider_registry, function_registry, file_items,
  package_items, service_items, shell_items, sysrc_items, vsphere_items,
}

-- The names of the tables that the program adds to Lua.
abbrev pub namespaces : List String
namespaces = "stdlib" ∷ "resource" ∷ "vsphere" ∷ []

module _ {W F : Type 0} (origin : Origin W) (logf : F) where
  -- namespace.type.new is the provider.
  pub IsFound : Map (Global (Option (Made W)) F) → Item origin → Type 0
  IsFound after item =
      field_at item.namespace item.type_name after ≡ some (type_table (wrapper item.provider))

  registry-IsFound :
      (p : Platform) (globals after : Map (Global (Option (Made W)) F))
      → ((m j : String)
          → field_at m j after
            ≡ or_before
                (last_entry (entries (function_registry logf) (provider_registry origin p)) m j)
                (field_at m j globals))
      → All (IsFound after) (provider_registry origin p)
  unfolding IsFound or_before last_entry entries function_registry provider_registry register
      file_items package_items service_items shell_items sysrc_items vsphere_items
  registry-IsFound linux globals after finds = (
    finds "resource" "file",
    (
      finds "resource" "directory",
      (
        finds "resource" "link",
        (
          finds "resource" "package",
          (
            finds "resource" "yum",
            (
              finds "resource" "pacman",
              (
                finds "resource" "pkgng",
                (
                  finds "resource" "service",
                  (
                    finds "resource" "shell",
                    (
                      finds "vsphere" "datacenter",
                      (
                        finds "vsphere" "cluster",
                        (
                          finds "vsphere" "cluster_host",
                          (
                            finds "vsphere" "host",
                            (finds "vsphere" "vm", (finds "vsphere" "datastore_nfs", tt)),
                          ),
                        ),
                      ),
                    ),
                  ),
                ),
              ),
            ),
          ),
        ),
      ),
    ),
  )
  registry-IsFound freebsd globals after finds = (
    finds "resource" "file",
    (
      finds "resource" "directory",
      (
        finds "resource" "link",
        (
          finds "resource" "package",
          (
            finds "resource" "yum",
            (
              finds "resource" "pacman",
              (
                finds "resource" "pkgng",
                (
                  finds "resource" "service",
                  (
                    finds "resource" "shell",
                    (
                      finds "resource" "sysrc",
                      (
                        finds "vsphere" "datacenter",
                        (
                          finds "vsphere" "cluster",
                          (
                            finds "vsphere" "cluster_host",
                            (
                              finds "vsphere" "host",
                              (finds "vsphere" "vm", (finds "vsphere" "datastore_nfs", tt)),
                            ),
                          ),
                        ),
                      ),
                    ),
                  ),
                ),
              ),
            ),
          ),
        ),
      ),
    ),
  )

  builtin-within :
      (p : Platform)
      → are_within namespaces (entries (function_registry logf) (provider_registry origin p)) ≡ true
  unfolding are_within entries function_registry provider_registry register file_items package_items
      service_items shell_items sysrc_items vsphere_items
  builtin-within linux = refl
  builtin-within freebsd = refl

  -- On each platform, where none of the globals stdlib, resource and vsphere is a value that takes no
  -- fields, whatever the other globals are: the registration succeeds, and
  -- of every provider that the init functions register, Lua finds the provider itself under its
  -- namespace and its type; none hides another.
  pub builtin-IsFound :
      (p : Platform) (globals : Map (Global (Option (Made W)) F))
      → TakesFields namespaces globals
      → (after : Map (Global (Option (Made W)) F)) × (lua_register_builtin
            (function_registry logf)
            (provider_registry origin p)
            globals
          ≡ some after)
        × All (IsFound after) (provider_registry origin p)
  unfolding IsRegistered
  builtin-IsFound p globals free =
      let (after, ends, finds) =
        lua_register_builtin-IsRegistered namespaces (function_registry logf)
          (provider_registry origin p) globals (builtin-within p) free in
      (after, ends, registry-IsFound p globals after finds)
