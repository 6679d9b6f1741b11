-- ===== src/Check.antt =====
-- cli/check_output.go: the summary and the outcome of `mcptrust check`. `to_lower` is
-- strings.ToLower; an error is its text.
use mcptrust.Base.{
  ℕ, suc, ◌+◌, Bool, true, false, not, ◌&&◌, ◌||◌, Option, none, some, List, [], ◌∷◌, ◌++◌,
  if◌then◌else◌, is_empty, leb, ◌==◌, Bytes, codes, bytes_eq, map, Result, ok, err,
}
use mcptrust.Models.{policy_severity_error, PolicyResult}
use mcptrust.Differ.{
  Severity, safe, moderate, critical, severity_level, severity_string, DriftType, DriftItem,
  DriftResult,
}
pub mod Outcomes

pub data FailOnLevel : Type 0 where
  fail_on_critical fail_on_moderate fail_on_info : FailOnLevel
  other_level : Bytes → FailOnLevel

unfoldable pub parse_fail_on_level : (Bytes → Bytes) → Bytes → Result Bytes FailOnLevel
parse_fail_on_level to_lower s =
    let lower = to_lower s in
    if bytes_eq lower (codes "critical")
    then ok fail_on_critical
    else if bytes_eq lower (codes "moderate")
    then ok fail_on_moderate
    else if bytes_eq lower (codes "info")
    then ok fail_on_info
    else err (codes "invalid fail-on level: " ++ s ++ codes " (use critical, moderate, or info)")

unfoldable pub should_fail : FailOnLevel → Severity → Bool
should_fail fail_on_critical s = severity_level s == severity_level critical
should_fail fail_on_moderate s = leb (severity_level moderate) (severity_level s)
should_fail fail_on_info s = true
should_fail (other_level _) s = severity_level s == severity_level critical

pub data Outcome : Type 0 where
  pass fail : Outcome

pub record CheckSummary : Type 0 where
  pub critical_count : ℕ
  pub moderate_count : ℕ
  pub info_count : ℕ
  pub total : ℕ

pub record DriftOutputItem : Type 0 where
  pub type : DriftType
  pub severity : Bytes
  pub identifier : Bytes
  pub old_hash : Bytes
  pub new_hash : Bytes
  pub message : Bytes

pub record PolicyDecision : Type 0 where
  pub preset : Bytes
  pub passed : Bool
  pub reasons : List Bytes

pub record CheckResult : Type 0 where
  pub lockfile_version : Bytes
  pub server : Bytes
  pub lockfile_path : Bytes
  pub summary : CheckSummary
  pub drift : List DriftOutputItem
  pub policy : Option PolicyDecision
  pub fail_on : FailOnLevel
  pub outcome : Outcome

unfoldable pub count_severity : CheckSummary → Severity → CheckSummary
count_severity s critical = record s { critical_count = suc s.critical_count; total = suc s.total }
count_severity s moderate = record s { moderate_count = suc s.moderate_count; total = suc s.total }
count_severity s safe = record s { info_count = suc s.info_count; total = suc s.total }

unfoldable pub count_drifts : CheckSummary → List DriftItem → CheckSummary
unfolding count_severity
count_drifts s [] = s
count_drifts s (d ∷ ds) = count_drifts (count_severity s d.severity) ds

abbrev pub empty_summary : CheckSummary
empty_summary = record { critical_count = 0; moderate_count = 0; info_count = 0; total = 0 }

-- `none` is the nil result.
unfoldable pub calculate_summary : Option DriftResult → CheckSummary
unfolding count_drifts
calculate_summary none = empty_summary
calculate_summary (some drift) = count_drifts empty_summary drift.drifts

unfoldable pub any_fails : FailOnLevel → List DriftItem → Bool
unfolding should_fail
any_fails fail_on [] = false
any_fails fail_on (d ∷ ds) = should_fail fail_on d.severity || any_fails fail_on ds

unfoldable pub should_fail_on_drift : Option DriftResult → FailOnLevel → Bool
unfolding any_fails
should_fail_on_drift none fail_on = false
should_fail_on_drift (some drift) fail_on =
    if not drift.has_drift then false else any_fails fail_on drift.drifts

unfoldable pub failed_rule : PolicyResult → Bool
failed_rule r = not r.passed && bytes_eq r.severity policy_severity_error

-- The reasons that the loop over the results of the rules collects.
unfoldable pub failure_reasons : List PolicyResult → List Bytes
unfolding failed_rule
failure_reasons [] = []
failure_reasons (r ∷ rs) =
    let rest = failure_reasons rs in
    if failed_rule r then (r.rule_name ++ codes ": " ++ r.failure_msg) ∷ rest else rest

-- Passed is set to false whenever a reason is added.
unfoldable pub policy_decision : List PolicyResult → Bytes → Option PolicyDecision
unfolding failure_reasons
policy_decision [] preset = none
policy_decision (r ∷ rs) preset =
    let reasons = failure_reasons (r ∷ rs) in
    some (record { preset = preset; passed = is_empty reasons; reasons = reasons })

unfoldable pub drift_output : DriftItem → DriftOutputItem
drift_output d = record {
  type = d.type;
  severity = severity_string d.severity;
  identifier = d.identifier;
  old_hash = d.old_hash;
  new_hash = d.new_hash;
  message = d.message;
}

unfoldable pub drift_outputs : Option DriftResult → List DriftOutputItem
unfolding drift_output
drift_outputs none = []
drift_outputs (some drift) = map drift_output drift.drifts

unfoldable pub denies : Option PolicyDecision → Bool
denies none = false
denies (some decision) = not decision.passed

unfoldable pub build_check_result :
    Bytes
    → Bytes
    → Bytes
    → Option DriftResult
    → List PolicyResult
    → Bytes
    → FailOnLevel
    → CheckResult
unfolding calculate_summary policy_decision drift_outputs should_fail_on_drift denies
build_check_result lockfile_version server_name lockfile_path drift policy_results preset fail_on =
    let policy = policy_decision policy_results preset in
    record {
      lockfile_version = lockfile_version;
      server = server_name;
      lockfile_path = lockfile_path;
      summary = calculate_summary drift;
      drift = drift_outputs drift;
      policy = policy;
      fail_on = fail_on;
      outcome =
          if denies policy then fail else if should_fail_on_drift drift fail_on then fail else pass;
    }
