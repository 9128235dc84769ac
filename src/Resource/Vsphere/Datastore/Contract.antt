-- ===== src/Resource/Vsphere/Datastore/Contract.antt =====
-- The hosts where a datastore is to be mounted.
use gru.Prelude.{
  String, Bool, true, false, not, ◌&&◌, List, [], ◌∷◌, ◌++◌, ◌≡◌, refl, str_eq, mem_str, select,
  All, arith, append_assoc, Bool-cases, inl, inr,
}
use mathlib.Core.List.{append-nil}
use gru.Utils.File.{answer}
use gru.Utils.Strings.{new_list, contains, contains-new_list, has_items}
use gru.Resource.Vsphere.{Vcenter, found}
use gru.Resource.Vsphere.Datastore.{
  DatastoreNfs, find, names_of, blank_names, compare_hosts, compared, attached, found_hosts,
  is_hosts_property_synced,
}

module _ {W : Type 0} (vcenter : Vcenter W) where
  -- The hosts whose name is not among those given.
  unfoldable pub missing_hosts : List String → List String → List String
  missing_hosts names hosts = select (λ h. not (mem_str (vcenter.base_name h) names)) hosts

  -- path.Base never is empty.
  unfoldable pub HasBase : String → Type 0
  HasBase h = str_eq "" (vcenter.base_name h) ≡ false

  mem_str-blank_names :
      (x : String) (objs names : List String)
      → str_eq "" x ≡ false
      → mem_str x (blank_names vcenter objs ++ names) ≡ mem_str x names
  mem_str-blank_names x [] names some_name = refl
  mem_str-blank_names x (obj ∷ objs) names some_name =
      ground (arith, some_name, mem_str-blank_names x objs names some_name)

  contains-names :
      (objs names : List String) (h : String)
      → HasBase h
      → contains (new_list (blank_names vcenter objs ++ names)) (vcenter.base_name h)
        ≡ mem_str (vcenter.base_name h) names
  unfolding HasBase
  contains-names objs names h some_name =
      let list = blank_names vcenter objs ++ names in
      ground (
        arith,
        some_name,
        contains-new_list list (vcenter.base_name h),
        mem_str-blank_names (vcenter.base_name h) objs names some_name,
      )

  and_false : (b : Bool) → (b && false) ≡ false
  and_false true = refl
  and_false false = refl

  compare_hosts-missing :
      (objs names hosts should : List String) (synced : Bool)
      → All HasBase hosts
      → compare_hosts vcenter (new_list (blank_names vcenter objs ++ names)) hosts should synced ≡ (
        should ++ missing_hosts names hosts,
        synced && not (has_items (missing_hosts names hosts)),
      )
  unfolding compare_hosts missing_hosts
  compare_hosts-missing objs names [] should true based = rw (append-nil should) refl
  compare_hosts-missing objs names [] should false based = rw (append-nil should) refl
  compare_hosts-missing objs names (h ∷ hosts) should synced based =
      elim (Bool-cases (mem_str (vcenter.base_name h) names)) [
        | inl there ↦
            rw (contains-names objs names h based.0, there)
              (compare_hosts-missing objs names hosts should synced based.1)
        | inr gone ↦
            rw
              (
                contains-names objs names h based.0,
                gone,
                compare_hosts-missing objs names hosts (should ++ (h ∷ [])) false based.1,
                append_assoc should (h ∷ []) (missing_hosts names hosts),
                and_false synced,
              )
              refl
      ]

  -- Where the datastore and its hosts are found and named, the property is in sync exactly if no
  -- host of the resource is missing among them, by the last part of its path, and the resource
  -- keeps the missing ones in their order, after those that it kept before.
  pub is_hosts_property_synced-missing :
      (ds : DatastoreNfs W) (datastore : String) (objs names : List String) (w : W)
      → find vcenter ds w ≡ found datastore
      → vcenter.attached_hosts datastore w ≡ answer objs
      → names_of vcenter objs w ≡ answer names
      → All HasBase ds.hosts
      → is_hosts_property_synced vcenter ds w ≡ (
        answer (not (has_items (missing_hosts names ds.hosts))),
        record ds {
          should_mount_on_hosts = ds.should_mount_on_hosts ++ missing_hosts names ds.hosts;
        },
      )
  unfolding is_hosts_property_synced found_hosts attached compared
  is_hosts_property_synced-missing ds datastore objs names w at hosts named based =
      rw
        (
          at,
          found_hosts,
          hosts,
          attached,
          named,
          compared,
          compare_hosts-missing objs names ds.hosts ds.should_mount_on_hosts true based,
        )
        refl
