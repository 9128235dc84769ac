-- ===== src/Resource/Sysrc.antt =====
-- resource/sysrc_freebsd.go: variables of rc.conf, by the program `sysrc`.
use Prim.Native.String.{◌++◌ as str_append}
use gru.Prelude.{
  String, Bool, true, false, not, Option, none, some, List, [], ◌∷◌, str_eq, if◌then◌else◌,
}
use gru.Errors.{Error, no_match, other_variable}
use gru.Resource.{State}
use gru.Resource.Base.{Base}
use gru.Utils.File.{Answer, answer, refused}
use gru.Utils.Git.{Exec, dropped}
pub mod Contract

pub record Sysrc (W : Type 0) : Type 0 where
  pub base : Base W
  pub value : String

unfoldable pub new_sysrc : {W : Type 0} → String → Sysrc W
new_sysrc name = record {
  base = record {
    type = "sysrc";
    name = name;
    state = "present";
    require = [];
    present_states_list = "present" ∷ [];
    absent_states_list = "absent" ∷ [];
    concurrent = false;
    property_list = [];
    subscribe = [];
  };
  value = "";
}

-- `find_match` is FindStringSubmatch of the expression "(.*): (.*)": its two groups.
module _ {W : Type 0} (exec : Exec W) (find_match : String → Option (String × String)) where
  unfoldable pub parse_sysrc_output : String → Answer (String × String)
  parse_sysrc_output out = elim (find_match out) [
    | none ↦ refused (no_match out)
    | some kv ↦ answer kv
  ]

  -- What follows the parse.
  unfoldable pub parsed : Sysrc W → Answer (String × String) → State × Option Error
  parsed s (refused e) = (record { current = "present"; want = s.base.state }, some e)
  parsed s (answer (k, v)) =
      if not (str_eq s.base.name k)
      then (
        record { current = "present"; want = s.base.state },
        some (other_variable s.base.name k),
      )
      else (
        record {
          current = if not (str_eq s.value v) then "absent" else "present";
          want = s.base.state;
        },
        none,
      )

  -- What follows the query.
  unfoldable pub asked : Sysrc W → String × Option Error × W → State × Option Error × W
  unfolding parsed parse_sysrc_output
  asked s (out, some e, w) = (record { current = "absent"; want = s.base.state }, none, w)
  asked s (out, none, w) = let (st, e) = parsed s (parse_sysrc_output out) in (st, e, w)

  unfoldable pub evaluate : Sysrc W → W → State × Option Error × W
  unfolding asked
  evaluate s w = asked s (exec "sysrc" (s.base.name ∷ []) w)

  -- fmt.Sprintf("%s=%s", s.Name, s.Value)
  unfoldable pub setting : Sysrc W → String
  setting s = str_append s.base.name (str_append "=" s.value)

  unfoldable pub create : Sysrc W → W → Option Error × W
  unfolding setting dropped
  create s w = dropped (exec "sysrc" (setting s ∷ []) w)

  unfoldable pub delete : Sysrc W → W → Option Error × W
  unfolding dropped
  delete s w = dropped (exec "sysrc" ("-x" ∷ s.base.name ∷ []) w)

  unfoldable pub update : Sysrc W → W → Option Error × W
  unfolding setting dropped
  update s w = dropped (exec "sysrc" (setting s ∷ []) w)
