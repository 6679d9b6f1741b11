-- ===== src/Check/Outcomes.antt =====
-- BuildCheckResult of cli/check_output.go: when a check passes, and what the summary counts.
use mcptrust.Base.{
  ℕ, suc, ◌+◌, ◌≡◌, ◌≢◌, refl, ◌↔◌, codes, bytes_eq→ne, ne→bytes_eq, ◌⊎◌, inl, inr, true, false,
  not, Option, none, some, List, [], ◌∷◌, arith, All, is_empty, length, Bytes, Bool-cases,
}
use mcptrust.Models.{PolicyResult}
use mcptrust.Differ.{Severity, safe, moderate, critical, DriftItem, DriftResult}
use mcptrust.Check.{
  FailOnLevel, fail_on_critical, fail_on_moderate, fail_on_info, other_level, should_fail,
  any_fails, should_fail_on_drift, failed_rule, failure_reasons, policy_decision, denies, Outcome,
  pass, CheckSummary, count_severity, count_drifts, calculate_summary, empty_summary,
  build_check_result,
}

failure_reasons-empty :
    (rs : List PolicyResult)
    → is_empty (failure_reasons rs) ≡ true
    → All (λ r. failed_rule r ≡ false) rs
unfolding failure_reasons
failure_reasons-empty [] h = tt
failure_reasons-empty (r ∷ rs) h = (ground arith, failure_reasons-empty rs (ground arith))

empty-failure_reasons :
    (rs : List PolicyResult)
    → All (λ r. failed_rule r ≡ false) rs
    → is_empty (failure_reasons rs) ≡ true
unfolding failure_reasons
empty-failure_reasons [] h = refl
empty-failure_reasons (r ∷ rs) h = rw (h.0) (empty-failure_reasons rs h.1)

any_fails-none :
    (fail_on : FailOnLevel) (ds : List DriftItem)
    → any_fails fail_on ds ≡ false
    → All (λ d. should_fail fail_on d.severity ≡ false) ds
unfolding any_fails
any_fails-none fail_on [] h = tt
any_fails-none fail_on (d ∷ ds) h = (ground arith, any_fails-none fail_on ds (ground arith))

none-any_fails :
    (fail_on : FailOnLevel) (ds : List DriftItem)
    → All (λ d. should_fail fail_on d.severity ≡ false) ds
    → any_fails fail_on ds ≡ false
unfolding any_fails
none-any_fails fail_on [] h = refl
none-any_fails fail_on (d ∷ ds) h = rw (h.0) (none-any_fails fail_on ds h.1)

counts : CheckSummary → ℕ
counts s = s.critical_count + s.moderate_count + s.info_count

count_severity-counts :
    (s : CheckSummary) (v : Severity)
    → (counts (count_severity s v) ≡ suc (counts s)) × ((count_severity s v).total ≡ suc s.total)
unfolding count_severity counts
count_severity-counts s critical = (omega arith, refl)
count_severity-counts s moderate = (omega arith, refl)
count_severity-counts s safe = (omega arith, refl)

count_drifts-counts :
    (s : CheckSummary) (ds : List DriftItem)
    → (counts (count_drifts s ds) ≡ counts s + length ds)
      × ((count_drifts s ds).total ≡ s.total + length ds)
unfolding count_drifts
count_drifts-counts s [] = (omega arith, omega arith)
count_drifts-counts s (d ∷ ds) =
    let rest = count_drifts-counts (count_severity s d.severity) ds in
    let one = count_severity-counts s d.severity in
    (omega (arith, rest.0, one.0), omega (arith, rest.1, one.1))

-- The total of the summary is the number of drifts, and the three counts add up to it.
pub calculate_summary-total :
    (drift : DriftResult)
    → ((calculate_summary (some drift)).total ≡ length drift.drifts)
      × ((calculate_summary (some drift)).critical_count
            + (calculate_summary (some drift)).moderate_count
            + (calculate_summary (some drift)).info_count
          ≡ length drift.drifts)
unfolding calculate_summary counts
calculate_summary-total drift =
    let both = count_drifts-counts empty_summary drift.drifts in
    (omega (arith, both.1), omega (arith, both.0))

denies-policy_decision :
    (rs : List PolicyResult) (preset : Bytes)
    → denies (policy_decision rs preset) ≡ not (is_empty (failure_reasons rs))
unfolding denies policy_decision failure_reasons
denies-policy_decision [] preset = refl
denies-policy_decision (r ∷ rs) preset = refl

-- What a check that fails on a level refuses: critical drift, any drift but a safe one, all drift.
abbrev pub Reaches : FailOnLevel → Severity → Type 0
Reaches fail_on_critical s = s ≡ critical
Reaches fail_on_moderate s = s ≢ safe
Reaches fail_on_info s = Unit
Reaches (other_level _) s = s ≡ critical

should_fail-Reaches :
    (fail_on : FailOnLevel) (s : Severity) → should_fail fail_on s ≡ false → ¬ Reaches fail_on s
unfolding should_fail
should_fail-Reaches fail_on_critical safe h r = cc
should_fail-Reaches fail_on_critical moderate h r = cc
should_fail-Reaches fail_on_critical critical h r = cc
should_fail-Reaches fail_on_moderate safe h r = r refl
should_fail-Reaches fail_on_moderate moderate h r = cc
should_fail-Reaches fail_on_moderate critical h r = cc
should_fail-Reaches fail_on_info safe h r = cc
should_fail-Reaches fail_on_info moderate h r = cc
should_fail-Reaches fail_on_info critical h r = cc
should_fail-Reaches (other_level t) safe h r = cc
should_fail-Reaches (other_level t) moderate h r = cc
should_fail-Reaches (other_level t) critical h r = cc

Reaches-should_fail :
    (fail_on : FailOnLevel) (s : Severity) → ¬ Reaches fail_on s → should_fail fail_on s ≡ false
unfolding should_fail
Reaches-should_fail fail_on_critical safe n = refl
Reaches-should_fail fail_on_critical moderate n = refl
Reaches-should_fail fail_on_critical critical n = absurd (n refl)
Reaches-should_fail fail_on_moderate safe n = refl
Reaches-should_fail fail_on_moderate moderate n = absurd (n (λ e. cc))
Reaches-should_fail fail_on_moderate critical n = absurd (n (λ e. cc))
Reaches-should_fail fail_on_info safe n = absurd (n tt)
Reaches-should_fail fail_on_info moderate n = absurd (n tt)
Reaches-should_fail fail_on_info critical n = absurd (n tt)
Reaches-should_fail (other_level t) safe n = refl
Reaches-should_fail (other_level t) moderate n = refl
Reaches-should_fail (other_level t) critical n = absurd (n refl)

-- The rule passed, or its severity is not "error".
abbrev pub RuleAccepted : PolicyResult → Type 0
RuleAccepted r = (r.passed ≡ true) ⊎ (r.severity ≢ codes "error")

failed_rule-RuleAccepted : (r : PolicyResult) → failed_rule r ≡ false → RuleAccepted r
unfolding failed_rule
failed_rule-RuleAccepted r h = elim (Bool-cases r.passed) [
  | inl p ↦ inl p
  | inr p ↦ inr (bytes_eq→ne r.severity (codes "error") (ground arith))
]

RuleAccepted-failed_rule : (r : PolicyResult) → RuleAccepted r → failed_rule r ≡ false
unfolding failed_rule
RuleAccepted-failed_rule r (inl p) = rw p refl
RuleAccepted-failed_rule r (inr n) = ground (arith, ne→bytes_eq r.severity (codes "error") n)

All-map :
    {A : Type 0} {P Q : A → Type 0} → ((a : A) → P a → Q a) → (xs : List A) → All P xs → All Q xs
All-map f [] h = tt
All-map f (a ∷ xs) h = (f a h.0, All-map f xs h.1)

-- Nothing drifted, or no drift reaches the level on which the check fails.
abbrev pub DriftAccepted : FailOnLevel → Option DriftResult → Type 0
DriftAccepted fail_on none = Unit
DriftAccepted fail_on (some drift) =
    (drift.has_drift ≡ false) ⊎ All (λ d. ¬ Reaches fail_on d.severity) drift.drifts

should_fail_on_drift-accepts :
    (fail_on : FailOnLevel) (drift : Option DriftResult)
    → should_fail_on_drift drift fail_on ≡ false
    → DriftAccepted fail_on drift
unfolding should_fail_on_drift
should_fail_on_drift-accepts fail_on none h = tt
should_fail_on_drift-accepts fail_on (some drift) h = elim (Bool-cases drift.has_drift) [
  | inl t ↦ inr (
      All-map (λ (d : DriftItem). should_fail-Reaches fail_on d.severity) drift.drifts
        (any_fails-none fail_on drift.drifts (ground arith)))
  | inr f ↦ inl f
]

accepts-should_fail_on_drift :
    (fail_on : FailOnLevel) (drift : Option DriftResult)
    → DriftAccepted fail_on drift
    → should_fail_on_drift drift fail_on ≡ false
unfolding should_fail_on_drift
accepts-should_fail_on_drift fail_on none h = refl
accepts-should_fail_on_drift fail_on (some drift) (inl f) = rw (f) refl
accepts-should_fail_on_drift fail_on (some drift) (inr h) = ground (
  arith,
  none-any_fails fail_on drift.drifts
      (All-map (λ (d : DriftItem). Reaches-should_fail fail_on d.severity) drift.drifts h),
)

module _ (lockfile_version server_name lockfile_path : Bytes) (drift : Option DriftResult)
    (policy_results : List PolicyResult) (preset : Bytes) (fail_on : FailOnLevel) where
  abbrev outcome_of : Outcome
  outcome_of =
      (build_check_result lockfile_version server_name lockfile_path drift policy_results preset
        fail_on).outcome

  outcome-pass :
      outcome_of ≡ pass
      → (is_empty (failure_reasons policy_results) ≡ true)
        × (should_fail_on_drift drift fail_on ≡ false)
  unfolding build_check_result
  outcome-pass h = (
    ground (arith, denies-policy_decision policy_results preset),
    ground (arith, denies-policy_decision policy_results preset),
  )

  pass-outcome :
      is_empty (failure_reasons policy_results) ≡ true
      → should_fail_on_drift drift fail_on ≡ false
      → outcome_of ≡ pass
  unfolding build_check_result
  pass-outcome h k = rw (denies-policy_decision policy_results preset, h, k) refl

  -- A check passes exactly when every policy rule passed or has another severity than "error", and
  -- either nothing has drifted or no drift reaches the level: for the level critical a critical drift
  -- reaches it, for moderate any drift but a safe one, for info every drift.
  pub build_check_result-DriftAccepted :
      ((build_check_result lockfile_version server_name lockfile_path drift policy_results preset
          fail_on).outcome
        ≡ pass)
      ↔ (All RuleAccepted policy_results × DriftAccepted fail_on drift)
  build_check_result-DriftAccepted = (
    λ h. (
      All-map failed_rule-RuleAccepted policy_results
          (failure_reasons-empty policy_results (outcome-pass h).0),
      should_fail_on_drift-accepts fail_on drift (outcome-pass h).1,
    ),
    λ h.
        pass-outcome
          (empty-failure_reasons policy_results
            (All-map RuleAccepted-failed_rule policy_results h.0))
          (accepts-should_fail_on_drift fail_on drift h.1),
  )
