-- ===== src/Protocol/Target.antt =====
-- internal/bridgeprotocol/types.go: identifiers and targets.
pub mod Laws
mod Tests
use Prim.Native.String.{count}
use toolhub.Common.{
  ℕ, Char, code, String, Bool, true, false, not, ◌&&◌, ◌||◌, Option, none, some, ◌==◌, leb, eqb,
  starts_with, if◌then◌else◌,
}
use toolhub.Common.Text.{trim_space, to_lower, all_chars, contains}
use toolhub.Common.Path.{is_abs, clean}
use toolhub.Protocol.External.{External}

abbrev pub runtime_claude : String
runtime_claude = "claude"

abbrev pub runtime_codex : String
runtime_codex = "codex"

abbrev pub runtime_hermes : String
runtime_hermes = "hermes"

abbrev pub runtime_shared_relay : String
runtime_shared_relay = "shared-relay"

abbrev pub node_kind_local : String
node_kind_local = "local"

abbrev pub node_kind_salt : String
node_kind_salt = "salt"

abbrev is_lower : ℕ → Bool
is_lower c = leb b'a' c && leb c b'z'

abbrev is_digit : ℕ → Bool
is_digit c = leb b'0' c && leb c b'9'

-- ^[a-z0-9][a-z0-9._-]{0,127}$
unfoldable pub slug_pattern : String → Bool
unfolding all_chars
slug_pattern String.[] = false
slug_pattern (String.◌∷◌ c s) =
    (is_lower (code c) || is_digit (code c))
    && all_chars (λ n. is_lower n || is_digit n || eqb n b'.' || eqb n b'_' || eqb n b'-') s
    && leb (count s) 127

-- IsSHA256: ^[a-f0-9]{64}$
unfoldable pub is_sha256 : String → Bool
unfolding all_chars
is_sha256 s = all_chars (λ n. (leb b'a' n && leb n b'f') || is_digit n) s && eqb (count s) 64

-- ^[a-z_][a-z0-9_-]{0,31}$
unfoldable pub managed_username_pattern : String → Bool
unfolding all_chars
managed_username_pattern String.[] = false
managed_username_pattern (String.◌∷◌ c s) =
    (is_lower (code c) || eqb (code c) b'_')
    && all_chars (λ n. is_lower n || is_digit n || eqb n b'_' || eqb n b'-') s
    && leb (count s) 31

pub record Target : Type 0 where
  pub id : String
  pub node_id : String
  pub node_kind : String
  pub salt_minion_id : String
  pub runtime : String
  pub managed_username : String
  pub managed_home : String

-- The errors of Target.Validate, in the order of its checks.
pub data TargetError : Type 0 where
  ids_not_uuid bad_node_kind no_minion_id bad_username bad_home hermes_read_only : TargetError
  relay_not_local unsupported_runtime : TargetError

abbrev nul_text : String
nul_text = String.◌∷◌ Prim.Native.Char.nul String.[]

unfoldable pub bad_managed_home : String → Bool
bad_managed_home home =
    not (home == "")
    && (not (is_abs home) || not (clean home == home) || home == "/" || contains home nul_text)

-- The `switch` on the runtime.
unfoldable pub validate_runtime : Bool → Target → Option TargetError
validate_runtime write t =
    if t.runtime == runtime_claude || t.runtime == runtime_codex
    then none
    else if t.runtime == runtime_hermes
    then (if write then some hermes_read_only else none)
    else if t.runtime == runtime_shared_relay
    then (if not (t.node_kind == node_kind_local) then some relay_not_local else none)
    else some unsupported_runtime

module _ (ext : External) where
  open ext use {validate_uuid, unicode_lower}

  unfoldable pub validate_target : Bool → Target → Option TargetError
  validate_target write t =
      if not (validate_uuid t.id) || not (validate_uuid t.node_id)
      then some ids_not_uuid
      else if not (t.node_kind == node_kind_local) && not (t.node_kind == node_kind_salt)
      then some bad_node_kind
      else if t.node_kind == node_kind_salt && trim_space t.salt_minion_id == ""
      then some no_minion_id
      else if not (managed_username_pattern t.managed_username)
      then some bad_username
      else if bad_managed_home t.managed_home
      then some bad_home
      else validate_runtime write t

  unfoldable pub is_protected_skill_entry : String → Bool
  is_protected_skill_entry value =
      let name = trim_space (to_lower unicode_lower value) in
      name == ""
      || name == "."
      || name == ".."
      || name == ".system"
      || starts_with name "."
      || starts_with name "toolhub-"

  unfoldable pub valid_id : String → Bool
  valid_id value = validate_uuid (trim_space value)
