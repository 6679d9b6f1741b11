-- ===== src/Locker/Manager/SameTools.antt =====
-- DetectDrift of locker/manager.go: when it reports nothing.
use mcptrust.Base.{
  ◌≡◌, refl, ◌∙◌, ap, sym, ◌↔◌, inl, inr, Bool, true, false, Option, none, some, [], ◌∷◌, ◌++◌,
  append-eq-nil, arith, Option-cases, is_some, All, Bytes, bytes_eq, bytes_eq_refl, bytes_eq_iff,
  GoMap, lookup, All-lookup, lookup-All, Distinct,
}
use mcptrust.Models.{RiskLevel, low, medium, high, risk_text, ToolLock, Lockfile}
use mcptrust.Locker.Manager.{
  DriftType, schema_changed, risk_level_changed, same_risk, lock_changes, changed, added_or_changed,
  removed_tools, changed_tools, detect_drift,
}

-- The same tools, with the same hashes and risk levels.
abbrev pub SameTools : Lockfile → Lockfile → Type 0
SameTools existing new = (name : Bytes) → lookup name existing.tools ≡ lookup name new.tools

same_risk→eq : (a b : RiskLevel) → same_risk a b ≡ true → a ≡ b
same_risk→eq low low h = refl
same_risk→eq medium medium h = refl
same_risk→eq high high h = refl
same_risk→eq low medium h = cc
same_risk→eq low high h = cc
same_risk→eq medium low h = cc
same_risk→eq medium high h = cc
same_risk→eq high low h = cc
same_risk→eq high medium h = cc

same_risk_refl : (a : RiskLevel) → same_risk a a ≡ true
same_risk_refl low = refl
same_risk_refl medium = refl
same_risk_refl high = refl

changed-nil :
    (same : Bool) (type : DriftType) (name old new : Bytes)
    → changed same type name old new ≡ []
    → same ≡ true
unfolding changed
changed-nil true type name old new h = refl
changed-nil false type name old new h = cc

lock_changes-nil : (name : Bytes) (old new : ToolLock) → lock_changes name old new ≡ [] → old ≡ new
unfolding lock_changes
lock_changes-nil name old new h =
    let schema =
      changed (bytes_eq old.input_schema_hash new.input_schema_hash) schema_changed name
        old.input_schema_hash new.input_schema_hash in
    let risk =
      changed (same_risk old.risk_level new.risk_level) risk_level_changed name
        (risk_text old.risk_level) (risk_text new.risk_level) in
    let outer = append-eq-nil _ (schema ++ risk) h in
    let inner = append-eq-nil schema risk outer.1 in
    let d =
      (bytes_eq_iff old.description_hash new.description_hash).0 (changed-nil _ _ _ _ _ outer.0) in
    let s =
      (bytes_eq_iff old.input_schema_hash new.input_schema_hash).0
        (changed-nil _ _ _ _ _ inner.0) in
    let r = same_risk→eq old.risk_level new.risk_level (changed-nil _ _ _ _ _ inner.1) in
    λ i. record { description_hash = d i; input_schema_hash = s i; risk_level = r i }

nil-lock_changes : (name : Bytes) (t : ToolLock) → lock_changes name t t ≡ []
unfolding lock_changes changed
nil-lock_changes name t =
    rw
      (
        bytes_eq_refl t.description_hash,
        bytes_eq_refl t.input_schema_hash,
        same_risk_refl t.risk_level,
      )
      refl

added_or_changed-nil :
    (name : Bytes) (new : ToolLock) (o : Option ToolLock)
    → added_or_changed name new o ≡ []
    → o ≡ some new
unfolding added_or_changed
added_or_changed-nil name new none h = cc
added_or_changed-nil name new (some old) h = ap some (lock_changes-nil name old new h)

changed_tools-nil :
    (existing tools : GoMap ToolLock)
    → changed_tools existing tools ≡ []
    → All (λ e. lookup e.0 existing ≡ some e.1) tools
unfolding changed_tools
changed_tools-nil existing [] h = tt
changed_tools-nil existing ((name, t) ∷ tools) h =
    let both = append-eq-nil _ (changed_tools existing tools) h in
    (
      added_or_changed-nil name t (lookup name existing) both.0,
      changed_tools-nil existing tools both.1,
    )

nil-changed_tools :
    (existing tools : GoMap ToolLock)
    → All (λ e. lookup e.0 existing ≡ some e.1) tools
    → changed_tools existing tools ≡ []
unfolding changed_tools added_or_changed
nil-changed_tools existing [] h = refl
nil-changed_tools existing ((name, t) ∷ tools) h =
    rw (h.0, nil-lock_changes name t) (nil-changed_tools existing tools h.1)

removed_tools-nil :
    (tools new : GoMap ToolLock)
    → removed_tools tools new ≡ []
    → All (λ e. is_some (lookup e.0 new) ≡ true) tools
unfolding removed_tools
removed_tools-nil [] new h = tt
removed_tools-nil ((name, t) ∷ tools) new h = elim (Option-cases (lookup name new)) [
  | inl e ↦ ground (arith, e, h)
  | inr (u, e) ↦ (rw (e) refl, removed_tools-nil tools new (ground (arith, e, h)))
]

nil-removed_tools :
    (tools new : GoMap ToolLock)
    → All (λ e. is_some (lookup e.0 new) ≡ true) tools
    → removed_tools tools new ≡ []
unfolding removed_tools
nil-removed_tools [] new h = refl
nil-removed_tools ((name, t) ∷ tools) new h = rw (h.0) (nil-removed_tools tools new h.1)

module _ (existing new : Lockfile) where
  no_drift→same :
      (removed_tools existing.tools new.tools ≡ [])
      → (changed_tools existing.tools new.tools ≡ [])
      → SameTools existing new
  no_drift→same r c name =
      let kept = changed_tools-nil existing.tools new.tools c in
      elim (Option-cases (lookup name new.tools)) [
        | inr (t, e) ↦
            All-lookup (λ k v. lookup k existing.tools ≡ some v) new.tools name t kept e ∙ sym e
        | inl missing ↦ elim (Option-cases (lookup name existing.tools)) [
          | inl e ↦ e ∙ sym missing
          | inr (t, e) ↦ ground (
            arith,
            missing,
            All-lookup (λ k v. is_some (lookup k new.tools) ≡ true) existing.tools name t
                (removed_tools-nil existing.tools new.tools r) e,
          )
        ]
      ]

  -- DetectDrift on lockfiles as Go maps reports nothing exactly when both hold the same tools, with
  -- the same hashes of descriptions and schemas and the same risk levels.
  pub detect_drift-SameTools :
      Distinct existing.tools
      → Distinct new.tools
      → (detect_drift existing new ≡ []) ↔ SameTools existing new
  unfolding detect_drift
  detect_drift-SameTools d e = (
    λ h.
        let both = append-eq-nil _ (changed_tools existing.tools new.tools) h in
        no_drift→same both.0 both.1,
    λ same.
        rw
          (nil-removed_tools existing.tools new.tools (
            lookup-All (λ k v. is_some (lookup k new.tools) ≡ true) existing.tools d
              (λ k v h. rw (← same k, h) refl)))
          (nil-changed_tools existing.tools new.tools (
            lookup-All (λ k v. lookup k existing.tools ≡ some v) new.tools e
              (λ k v h. same k ∙ h))),
  )
