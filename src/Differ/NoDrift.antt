-- ===== src/Differ/NoDrift.antt =====
-- CompareV3 of differ/v3.go: when it reports no drift.
use mcptrust.Base.{
  append-eq-nil, ◌≡◌, refl, ◌∙◌, ap, ◌↔◌, true, false, List, [], ◌++◌, All, Bytes, codes, GoMap,
  lookup, is_some, Result, ok, err, ◌>>=◌, >>=-eq-ok, ok-injective,
}
use mcptrust.Models.{ScanReport, LockfileV3}
use mcptrust.Locker.Canonical.{Encoding}
use mcptrust.Differ.{
  DriftItem, DriftResult, removed, wrap, each, compare_prompts, compare_templates, compare_tools,
  compare_v3,
}
use mcptrust.Differ.Index.{All-map, removed-nil, nil-removed, each-nil, nil-each}
use mcptrust.Differ.Matches.{
  Matches, prompt_items-nil, nil-prompt_items, template_items-nil, nil-template_items,
  tool_items-nil, nil-tool_items,
}

-- The two loops of a comparison, for the items of its second loop.
both_loops-nil :
    {A B : Type 0} {C : Type 0} (items : C → Result Bytes (List DriftItem)) (xs : List C)
    (item : Bytes → DriftItem) (m : GoMap A) (current : GoMap B)
    → All (λ x. items x ≡ ok []) xs
    → All (λ e. is_some (lookup e.0 current) ≡ true) m
    → (each items xs >>= λ its. ok (removed item m current ++ its)) ≡ ok []
both_loops-nil items xs item m current h k =
    rw (each-nil items xs h, removed-nil item m current k) refl

nil-both_loops :
    {A B : Type 0} {C : Type 0} (items : C → Result Bytes (List DriftItem)) (xs : List C)
    (item : Bytes → DriftItem) (m : GoMap A) (current : GoMap B)
    → (each items xs >>= λ its. ok (removed item m current ++ its)) ≡ ok []
    → All (λ x. items x ≡ ok []) xs × All (λ e. is_some (lookup e.0 current) ≡ true) m
nil-both_loops items xs item m current h =
    let run = >>=-eq-ok (each items xs) (λ its. ok (removed item m current ++ its)) h in
    let both =
      append-eq-nil (removed item m current) run.0
        (ok-injective (removed item m current ++ run.0) [] _ refl run.2) in
    (nil-each items xs (run.1 ∙ ap ok both.1), nil-removed item m current both.0)

wrap-eq-ok :
    {A : Type 0} (text : Bytes) (r : Result Bytes A) (a : A) → wrap text r ≡ ok a → r ≡ ok a
unfolding wrap
wrap-eq-ok text (ok b) a h = h
wrap-eq-ok text (err e) a h = cc

module _ (enc : Encoding) (lockfile : LockfileV3) (report : ScanReport) where
  matches→no_drift :
      Matches enc lockfile report
      → compare_v3 enc lockfile report ≡ ok (record { has_drift = false; drifts = [] })
  unfolding compare_v3 wrap compare_prompts compare_templates compare_tools
  matches→no_drift m =
      let ps : compare_prompts enc lockfile report ≡ ok [] =
        both_loops-nil _ report.prompts _ lockfile.prompts _
          (All-map (prompt_items-nil enc lockfile.prompts) report.prompts m.0) m.1 in
      let ts : compare_templates enc lockfile report ≡ ok [] =
        both_loops-nil _ report.resource_templates _ _ _
          (All-map (template_items-nil enc _) report.resource_templates m.2) m.3 in
      let us : compare_tools enc lockfile report ≡ ok [] =
        both_loops-nil _ report.tools _ lockfile.tools _
          (All-map (tool_items-nil enc lockfile.tools) report.tools m.4) m.5 in
      rw (ps, ts, us) refl

  no_drift→parts :
      compare_v3 enc lockfile report ≡ ok (record { has_drift = false; drifts = [] })
      → (compare_prompts enc lockfile report ≡ ok [])
        × (compare_templates enc lockfile report ≡ ok [])
        × (compare_tools enc lockfile report ≡ ok [])
  unfolding compare_v3
  no_drift→parts h =
      let ps =
        >>=-eq-ok (wrap (codes "failed to compare prompts: ") (compare_prompts enc lockfile report))
          _ h in
      let ts =
        >>=-eq-ok
          (wrap (codes "failed to compare templates: ") (compare_templates enc lockfile report)) _
          ps.2 in
      let us =
        >>=-eq-ok (wrap (codes "failed to compare tools: ") (compare_tools enc lockfile report)) _
          ts.2 in
      let none_left : ps.0 ++ (ts.0 ++ us.0) ≡ [] =
        ap (λ (r : DriftResult). r.drifts)
          (ok-injective _ (record { has_drift = false; drifts = [] }) _ refl us.2) in
      let first = append-eq-nil ps.0 (ts.0 ++ us.0) none_left in
      let rest = append-eq-nil ts.0 us.0 first.1 in
      (
        wrap-eq-ok (codes "failed to compare prompts: ") (compare_prompts enc lockfile report) []
            (ps.1 ∙ ap ok first.0),
        wrap-eq-ok (codes "failed to compare templates: ") (compare_templates enc lockfile report)
            [] (ts.1 ∙ ap ok rest.0),
        wrap-eq-ok (codes "failed to compare tools: ") (compare_tools enc lockfile report) []
            (us.1 ∙ ap ok rest.1),
      )

  no_drift→matches :
      compare_v3 enc lockfile report ≡ ok (record { has_drift = false; drifts = [] })
      → Matches enc lockfile report
  unfolding compare_prompts compare_templates compare_tools
  no_drift→matches h =
      let parts = no_drift→parts h in
      let ps = nil-both_loops _ report.prompts _ lockfile.prompts _ parts.0 in
      let ts = nil-both_loops _ report.resource_templates _ _ _ parts.1 in
      let us = nil-both_loops _ report.tools _ lockfile.tools _ parts.2 in
      (
        All-map (nil-prompt_items enc lockfile.prompts) report.prompts ps.0,
        ps.1,
        All-map (nil-template_items enc _) report.resource_templates ts.0,
        ts.1,
        All-map (nil-tool_items enc lockfile.tools) report.tools us.0,
        us.1,
      )

  -- The comparison reports no drift exactly when the scan matches the lockfile: every locked
  -- prompt, template and tool is in the scan, and everything in the scan is locked with the same
  -- hashes, where an empty locked description hash of a prompt is not compared.
  pub compare_v3-Matches :
      (compare_v3 enc lockfile report ≡ ok (record { has_drift = false; drifts = [] }))
      ↔ Matches enc lockfile report
  compare_v3-Matches = (no_drift→matches, matches→no_drift)
