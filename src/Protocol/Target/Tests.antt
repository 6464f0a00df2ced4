-- ===== src/Protocol/Target/Tests.antt =====
-- Witnesses and tests of targets, with a test for the empty text in the place of uuid.Validate.
use toolhub.Common.{String, true, false, not, none, some, ◌==◌, ◌≡◌, ◌≢◌, ◌⊎◌, ◌↔◌, refl}
use toolhub.Common.Text.{all_chars}
use toolhub.Protocol.External.{External}
use toolhub.Protocol.Target.{
  Target, validate_target, validate_runtime, managed_username_pattern, bad_managed_home,
  hermes_read_only, bad_username, runtime_claude, runtime_codex, runtime_hermes,
  runtime_shared_relay, node_kind_local, node_kind_salt,
}
use toolhub.Protocol.Target.Laws.{validate_target-write, validate_target-runtime}

abbrev any_uuid : External
any_uuid = record {
  validate_uuid = λ s. not (s == "");
  unicode_lower = λ c. c;
  canonical_hash = λ b. none;
}

abbrev target : String → Target
target runtime = record {
  id = "t1";
  node_id = "n1";
  node_kind = node_kind_local;
  salt_minion_id = "";
  runtime = runtime;
  managed_username = "toolhub";
  managed_home = "";
}

relay_accepted : validate_target any_uuid true (target runtime_shared_relay) ≡ none
unfolding validate_target validate_runtime managed_username_pattern bad_managed_home all_chars
relay_accepted = refl

hermes_refused : validate_target any_uuid true (target runtime_hermes) ≡ some hermes_read_only
unfolding validate_target validate_runtime managed_username_pattern bad_managed_home all_chars
hermes_refused = refl

upper_case_refused :
    validate_target any_uuid false (record (target runtime_codex) { managed_username = "Root" })
    ≡ some bad_username
unfolding validate_target validate_runtime managed_username_pattern bad_managed_home all_chars
upper_case_refused = refl

validate_target-write_example : (validate_target any_uuid true (target runtime_codex) ≡ none) ↔ (
    (validate_target any_uuid false (target runtime_codex) ≡ none)
    × (runtime_codex ≢ runtime_hermes))
validate_target-write_example = validate_target-write any_uuid (target runtime_codex)

validate_target-runtime_example :
    ((node_kind_local ≡ node_kind_local) ⊎ (node_kind_local ≡ node_kind_salt))
    × ((runtime_shared_relay ≡ runtime_claude)
        ⊎ (runtime_shared_relay ≡ runtime_codex)
        ⊎ (runtime_shared_relay ≡ runtime_hermes)
        ⊎ (runtime_shared_relay ≡ runtime_shared_relay))
    × ((runtime_shared_relay ≢ runtime_shared_relay) ⊎ (node_kind_local ≡ node_kind_local))
validate_target-runtime_example =
    validate_target-runtime any_uuid true (target runtime_shared_relay) relay_accepted
