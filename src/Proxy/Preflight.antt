-- ===== src/Proxy/Preflight.antt =====
-- The gates of preflight in proxy/proxy.go: what the drift of the first scan and the results of the
-- policy rules decide. An error is its text; `quote` is fmt's %q. What is logged besides the method
-- and the action is left out.
use mcptrust.Base.{
  ℕ, Bool, true, false, not, ◌&&◌, ◌||◌, List, [], ◌∷◌, ◌++◌, if◌then◌else◌, ltb, leb, Bytes, codes,
  bytes_eq, map, Result, ok, err, ◌>>=◌,
}
use mcptrust.Models.{Resource, policy_severity_error, PolicyResult}
use mcptrust.Differ.{
  Severity, safe, moderate, critical, severity_level, severity_string, DriftItem, DriftResult,
}
use mcptrust.Proxy.Enforce.{Enforcer, set_static_resources}
use mcptrust.Proxy.Session.{Output, log_audit}
pub mod Gate

-- The loop of getMaxDriftSeverity, from the greatest severity so far.
unfoldable pub greater : Severity → DriftItem → Severity
greater most d = if ltb (severity_level most) (severity_level d.severity) then d.severity else most

unfoldable pub max_severity : Severity → List DriftItem → Severity
unfolding greater
max_severity most [] = most
max_severity most (d ∷ ds) = max_severity (greater most d) ds

unfoldable pub get_max_drift_severity : DriftResult → Severity
unfolding max_severity
get_max_drift_severity result = max_severity safe result.drifts

unfoldable pub parse_severity_threshold : Bytes → Severity
parse_severity_threshold fail_on =
    if bytes_eq fail_on (codes "safe")
    then safe
    else if bytes_eq fail_on (codes "moderate")
    then moderate
    else critical

unfoldable pub mode_text : Bool → Bool → Bytes
mode_text audit_only filter_only =
    if filter_only && not audit_only then codes "filter-only" else codes "audit-only"

unfoldable pub drift_gate : Bool → Bool → Bytes → DriftResult → Result Bytes (List Output)
unfolding get_max_drift_severity parse_severity_threshold mode_text
drift_gate audit_only filter_only fail_on result =
    let most = get_max_drift_severity result in
    if result.has_drift
      && leb (severity_level (parse_severity_threshold fail_on)) (severity_level most)
    then (if audit_only || filter_only
        then ok (
            log_audit (codes "preflight") (
              codes "drift detected but continuing ("
              ++ mode_text audit_only filter_only
              ++ codes ")")
            ∷ [])
        else err (
            codes "preflight failed: drift detected with severity "
            ++ severity_string most
            ++ codes " (threshold: "
            ++ fail_on
            ++ codes ")"))
    else ok []

unfoldable pub is_violation : PolicyResult → Bool
is_violation r = not r.passed && bytes_eq r.severity policy_severity_error

-- The loop over the results of the rules.
unfoldable pub policy_gate :
    (Bytes → Bytes) → Bool → Bool → List PolicyResult → Result Bytes (List Output)
unfolding is_violation mode_text
policy_gate quote audit_only filter_only [] = ok []
policy_gate quote audit_only filter_only (r ∷ rs) =
    let rest = policy_gate quote audit_only filter_only rs in
    if is_violation r
    then (if audit_only || filter_only
        then (rest >>= λ logs. ok (
            log_audit (codes "preflight") (
              codes "policy violation but continuing ("
              ++ mode_text audit_only filter_only
              ++ codes ")")
            ∷ logs))
        else err (
            codes "preflight failed: policy rule "
            ++ quote r.rule_name
            ++ codes " violated: "
            ++ r.failure_msg))
    else rest

-- The end of preflight, and extractResourceURIs.
unfoldable pub extract_resource_uris : List Resource → List Bytes
extract_resource_uris rs = map (λ (r : Resource). r.uri) rs

unfoldable pub admit_static_resources : Bool → List Resource → Enforcer → Enforcer
unfolding extract_resource_uris
admit_static_resources allow_static_resources rs e =
    if allow_static_resources then set_static_resources e (extract_resource_uris rs) else e
