-- ===== src/Samples/Locals.antt =====
-- The registration of the providers in Lua, and a wrong use of `gructl serve`.
use gru.Prelude.{
  false, pos, zero, str_eq, ℕ, true, Map, All, Option, some, none, [], ◌∷◌, ◌≡◌, lookup, mem_str,
  String, ◌⊎◌, inl, inr, ap, arith, eq_iff,
}
use gru.Utils.File.{answer}
use gru.Resource.Service.Systemd.{no_text}
use gru.Resource.Builtin.{Made, linux, Origin, provider_registry, function_registry}
use gru.Resource.Builtin.Contract.{IsFound, builtin-IsFound, namespaces}
use gru.Resource.Registry.{Global, table, lua_register_builtin}
use gru.Resource.Registry.Contract.{TakesFields}
use gru.Errors.{ok}
use gru.Graph.Sets.{list_set}
use gru.Client.Interface.{etcd_minion_client}
use gru.Command.{Cli, Flags}
use gru.Command.Main.{Local, serve, execute}
use gru.Command.Main.Catalogs.{lacks_repo}
use gru.Command.Main.Used.{IsUsage}
use gru.Command.Main.Usage.{is_misused, execute-IsUsage}
use gru.Samples.Minions.{World, host, empty}

abbrev origin : Origin ℕ
origin = record {
  world = 0;
  user = answer "root";
  group = answer "wheel";
  release_exists = λ path. true;
  systemd = record {
    is_running = λ w. true;
    connect = λ w. (none, w);
    get_unit_property = λ unit name w. answer no_text;
    start_unit = λ unit mode w. (answer "done", w);
    stop_unit = λ unit mode w. (answer "done", w);
    enable_unit_files = λ units w. (none, w);
    disable_unit_files = λ units w. (none, w);
    reload = λ w. (none, w);
    disconnect = λ w. w;
  };
}

-- Some of what the base library of Lua defines.
abbrev base_globals : Map (Global (Option (Made ℕ)) ℕ)
base_globals = ("print", Global.other) ∷ ("_VERSION", Global.other) ∷ ("string", table []) ∷ []

namespace-cases :
    (n : String)
    → mem_str n namespaces ≡ true
    → (n ≡ "stdlib") ⊎ ((n ≡ "resource") ⊎ (n ≡ "vsphere"))
namespace-cases n among =
    ground (arith, among, eq_iff "stdlib" n, eq_iff "resource" n, eq_iff "vsphere" n)

base-TakesFields : TakesFields {R = Option (Made ℕ)} {F = ℕ} namespaces base_globals
unfolding TakesFields lookup
base-TakesFields n among h = elim (namespace-cases n among) [
  | inl e ↦ cc (ap (λ k. lookup k base_globals) e, h)
  | inr (inl e) ↦ cc (ap (λ k. lookup k base_globals) e, h)
  | inr (inr e) ↦ cc (ap (λ k. lookup k base_globals) e, h)
]

builtin-IsFound_example :
    (after : Map (Global (Option (Made ℕ)) ℕ)) × (lua_register_builtin
        (function_registry 0)
        (provider_registry origin linux)
        base_globals
      ≡ some after)
    × All (IsFound origin 0 after) (provider_registry origin linux)
builtin-IsFound_example = builtin-IsFound origin 0 linux base_globals base-TakesFields

abbrev cli : Cli World
cli = record {
  parse_uuid = λ s. some s;
  new_uuid = λ w. ("7", w);
  split_n = λ s sep n. s ∷ [];
  compile = λ s. ok (str_eq s);
}

abbrev flags : Flags
flags = record {
  args = [];
  with_classifier = "";
  environment = "production";
  minion = "";
  details = false;
}

-- A host with a name, and no site repo.
abbrev machine : Local World
machine = record {
  sets = list_set;
  host = host;
  num_cpu = 4;
  hostname = λ w. ("web", none);
  site = record {
    etcd_new = none;
    getwd = λ w. ("/root", none);
    look_path = λ program. (program, none);
    generate_uuid = λ name. name;
  };
  registry = [];
  flags = record { args = []; concurrency = pos zero; dry_run = false; siterepo = ""; name = "" };
}

execute-IsUsage_example :
    IsUsage true
      (execute serve cli (etcd_minion_client host (λ probe us w. (us, w))) flags machine empty)
      empty
unfolding is_misused lacks_repo
execute-IsUsage_example =
    execute-IsUsage cli (etcd_minion_client host (λ probe us w. (us, w))) flags machine serve empty
