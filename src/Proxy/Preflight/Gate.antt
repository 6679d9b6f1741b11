-- ===== src/Proxy/Preflight/Gate.antt =====
-- When the gates of preflight in proxy/proxy.go let the proxy start.
use mcptrust.Base.{
  ℕ, ◌≡◌, refl, ◌∙◌, ap, subst, ◌<◌, ◌↔◌, ◌⊎◌, inl, inr, Bool, true, false, not, List, [], ◌∷◌,
  arith, All, is_empty, Bytes, codes, bytes_eq, ok, >>=-eq-ok, ok-injective, succeeds,
}
use mcptrust.Models.{ScanReport, LockfileV3}
use mcptrust.Locker.Canonical.{Encoding}
use mcptrust.Differ.{
  Severity, safe, severity_level, DriftItem, DriftResult, compare_v3, compare_prompts,
  compare_templates, compare_tools, wrap,
}
use mcptrust.Differ.Matches.{Matches}
use mcptrust.Differ.NoDrift.{compare_v3-Matches}
use mcptrust.Proxy.Preflight.{
  greater, max_severity, get_max_drift_severity, parse_severity_threshold, drift_gate,
}

-- All drifts are less severe than the level.
abbrev pub Below : ℕ → List DriftItem → Type 0
Below level ds = All (λ d. severity_level d.severity < level) ds

max_severity-lt :
    (level : ℕ) (most : Severity) (ds : List DriftItem)
    → severity_level most < level
    → Below level ds
    → severity_level (max_severity most ds) < level
unfolding max_severity greater
max_severity-lt level most [] h b = h
max_severity-lt level most (d ∷ ds) h b =
    max_severity-lt level (greater most d) ds (ground arith) b.1

lt-max_severity :
    (level : ℕ) (most : Severity) (ds : List DriftItem)
    → severity_level (max_severity most ds) < level
    → (severity_level most < level) × Below level ds
unfolding max_severity greater
lt-max_severity level most [] h = (h, tt)
lt-max_severity level most (d ∷ ds) h =
    let rest = lt-max_severity level (greater most d) ds h in (ground arith, (ground arith, rest.1))

abbrev pub Passes : Severity → DriftResult → Type 0
Passes threshold result =
    (result.has_drift ≡ false)
    ⊎ ((0 < severity_level threshold) × Below (severity_level threshold) result.drifts)

drift_gate-lt :
    (fail_on : Bytes) (result : DriftResult)
    → succeeds (drift_gate false false fail_on result) ≡ true
    → (result.has_drift ≡ false)
      ⊎ (severity_level (get_max_drift_severity result)
          < severity_level (parse_severity_threshold fail_on))
unfolding drift_gate
drift_gate-lt fail_on result h = ground arith

lt-drift_gate :
    (fail_on : Bytes) (result : DriftResult)
    → (result.has_drift ≡ false)
      ⊎ (severity_level (get_max_drift_severity result)
          < severity_level (parse_severity_threshold fail_on))
    → succeeds (drift_gate false false fail_on result) ≡ true
unfolding drift_gate
lt-drift_gate fail_on result (inl h) = ground arith
lt-drift_gate fail_on result (inr h) = ground arith

-- In enforcing mode the gate lets the proxy start exactly when no drift was reported, or the
-- threshold is not "safe" and every drift is less severe than the threshold.
pub drift_gate-Passes :
    (fail_on : Bytes) (result : DriftResult)
    → (succeeds (drift_gate false false fail_on result) ≡ true)
      ↔ Passes (parse_severity_threshold fail_on) result
unfolding get_max_drift_severity
drift_gate-Passes fail_on result = (
  λ h. elim (drift_gate-lt fail_on result h) [
    | inl none_reported ↦ inl none_reported
    | inr less ↦ inr (lt-max_severity _ safe result.drifts less)
  ],
  λ h. lt-drift_gate fail_on result (elim h [
    | inl none_reported ↦ inl none_reported
    | inr (above, below) ↦ inr (max_severity-lt _ safe result.drifts above below)
  ]),
)

compare_v3-has_drift :
    (enc : Encoding) (lockfile : LockfileV3) (report : ScanReport) (result : DriftResult)
    → compare_v3 enc lockfile report ≡ ok result
    → result.has_drift ≡ not (is_empty result.drifts)
unfolding compare_v3
compare_v3-has_drift enc lockfile report result h =
    let ps =
      >>=-eq-ok (wrap (codes "failed to compare prompts: ") (compare_prompts enc lockfile report)) _
        h in
    let ts =
      >>=-eq-ok
        (wrap (codes "failed to compare templates: ") (compare_templates enc lockfile report)) _
        ps.2 in
    let us =
      >>=-eq-ok (wrap (codes "failed to compare tools: ") (compare_tools enc lockfile report)) _
        ts.2 in
    let same = ok-injective _ result _ refl us.2 in
    subst (λ (r : DriftResult). r.has_drift ≡ not (is_empty r.drifts)) same refl

no_drifts :
    (b : Bool) (ds : List DriftItem)
    → b ≡ false
    → b ≡ not (is_empty ds)
    → ◌≡◌ {A = DriftResult}
        (record { has_drift = b; drifts = ds })
        (record { has_drift = false; drifts = [] })
no_drifts true ds h k = cc
no_drifts false [] h k = refl
no_drifts false (d ∷ ds) h k = cc

safe_threshold : parse_severity_threshold (codes "safe") ≡ safe
unfolding parse_severity_threshold bytes_eq
safe_threshold = refl

absurd_level : {A : Type 0} → 0 < 0 → A
absurd_level h = ground arith

-- With the threshold "safe" and in enforcing mode, the gate lets the proxy start exactly for the
-- results of a comparison that found no drift: those where the scan matches the lockfile.
pub drift_gate-Matches :
    (enc : Encoding) (lockfile : LockfileV3) (report : ScanReport) (result : DriftResult)
    → compare_v3 enc lockfile report ≡ ok result
    → (succeeds (drift_gate false false (codes "safe") result) ≡ true) ↔ Matches enc lockfile report
drift_gate-Matches enc lockfile report result h = (
  λ passed. elim ((drift_gate-Passes (codes "safe") result).0 passed) [
    | inl none_reported ↦ (compare_v3-Matches enc lockfile report).0 (
        h
        ∙ ap ok (
            no_drifts result.has_drift result.drifts none_reported
              (compare_v3-has_drift enc lockfile report result h)))
    | inr (above, below) ↦ absurd_level (subst (λ s. 0 < severity_level s) safe_threshold above)
  ],
  λ matches. (drift_gate-Passes (codes "safe") result).1 (
      inl (
        ap (λ (r : DriftResult). r.has_drift)
          (ok-injective result (record { has_drift = false; drifts = [] }) _ h
            ((compare_v3-Matches enc lockfile report).1 matches)))),
)
