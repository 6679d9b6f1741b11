-- ===== src/Examples/Checks.antt =====
-- The gates of the proxy's start and the outcome of a check on a drift of moderate severity.
use mcptrust.Base.{◌≡◌, refl, ◌↔◌, true, false, some, List, [], ◌∷◌, All, codes, bytes_eq, succeeds}
use mcptrust.Models.{PolicyResult, policy_severity_warn}
use mcptrust.Differ.{DriftResult, moderate, prompt_desc_changed}
use mcptrust.Differ.Matches.{Matches}
use mcptrust.Proxy.Preflight.{drift_gate, parse_severity_threshold}
use mcptrust.Proxy.Preflight.Gate.{Passes, drift_gate-Passes, drift_gate-Matches}
use mcptrust.Check.{fail_on_critical, pass, build_check_result}
use mcptrust.Check.Outcomes.{DriftAccepted, RuleAccepted, build_check_result-DriftAccepted}
use mcptrust.Examples.Drift.{plain, built, scanned, compare_v3-built}

abbrev reworded : DriftResult
reworded = record {
  has_drift = true;
  drifts =
      record {
        type = prompt_desc_changed;
        severity = moderate;
        identifier = codes "greet";
        old_hash = codes "a";
        new_hash = codes "b";
        message = [];
      }
      ∷ [];
}

abbrev warned : List PolicyResult
warned =
    record {
      rule_name = codes "r";
      passed = false;
      failure_msg = codes "m";
      severity = policy_severity_warn;
    }
    ∷ []

-- What is moderate stops the proxy at the threshold "moderate" only.
moderate_gate : succeeds (drift_gate false false (codes "moderate") reworded) ≡ false
unfolding drift_gate bytes_eq
moderate_gate = refl

-- The level "info" of the command line is no threshold of the proxy: it stands for "critical".
info_gate : succeeds (drift_gate false false (codes "info") reworded) ≡ true
unfolding drift_gate bytes_eq
info_gate = refl

drift_gate-Passes_example :
    (succeeds (drift_gate false false (codes "moderate") reworded) ≡ true)
    ↔ Passes (parse_severity_threshold (codes "moderate")) reworded
drift_gate-Passes_example = drift_gate-Passes (codes "moderate") reworded

drift_gate-Matches_example :
    (succeeds (drift_gate false false (codes "safe") (record { has_drift = false; drifts = [] }))
      ≡ true)
    ↔ Matches plain built scanned
drift_gate-Matches_example =
    drift_gate-Matches plain built scanned (record { has_drift = false; drifts = [] })
      compare_v3-built

build_check_result-DriftAccepted_example :
    ((build_check_result (codes "3.0") [] [] (some reworded) warned [] fail_on_critical).outcome
      ≡ pass)
    ↔ (All RuleAccepted warned × DriftAccepted fail_on_critical (some reworded))
build_check_result-DriftAccepted_example =
    build_check_result-DriftAccepted (codes "3.0") [] [] (some reworded) warned [] fail_on_critical

check_passes :
    (build_check_result (codes "3.0") [] [] (some reworded) warned [] fail_on_critical).outcome
    ≡ pass
unfolding build_check_result bytes_eq
check_passes = refl
