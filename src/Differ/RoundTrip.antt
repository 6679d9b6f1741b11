-- ===== src/Differ/RoundTrip.antt =====
-- CompareV3 of differ/v3.go on the lockfile that Build of locker/builder_v3.go makes.
use mcptrust.Base.{
  ◌≡◌, refl, ◌∙◌, ap, sym, subst, ◌⊎◌, inl, inr, Bool, true, false, some, List, [], ◌∷◌, All,
  is_empty, Bytes, bytes_eq, GoMap, lookup, insert, is_some, Result-cases, ok, ◌>>=◌, >>=-eq-ok,
  ok-injective, if◌then◌else◌,
}
use mcptrust.Models.{
  Tool, Prompt, ResourceTemplate, ScanReport, ToolLock, PromptDefinition, ResourceTemplateLock,
  LockfileV3,
}
use mcptrust.Locker.Canonical.{Encoding}
use mcptrust.Locker.Hash.{hash_json, hash_normalized_string, hash_prompt_arguments, hash_template}
use mcptrust.Locker.Build.{
  Stamp, prompt_definition, build_prompts, template_lock, template_locks, build_templates,
  tool_lock, build_tools, build, sort_locks,
}
use mcptrust.Differ.{index, compare_v3}
use mcptrust.Differ.Index.{DistinctBy, All-map, index-keys, index-found}
use mcptrust.Differ.Matches.{Kept, Matches, PromptMatches, TemplateMatches, ToolMatches}
use mcptrust.Differ.Fill.{All-insert, fill, Made, fill-Made, fill-keys}
use mcptrust.Differ.Sorted.{uri_of, All-sort_locks, sort_locks-All, sort_locks-DistinctBy}
use mcptrust.Differ.NoDrift.{compare_v3-Matches}

module _ (enc : Encoding) where
  build_prompts-fill :
      (ps : List Prompt) (m : GoMap PromptDefinition)
      → build_prompts enc ps m
        ≡ fill
            (λ (p : Prompt). p.name)
            (λ (p : Prompt).
              hash_prompt_arguments enc p.arguments >>= λ h. ok (prompt_definition enc p h))
            ps
            m
  unfolding build_prompts fill
  build_prompts-fill [] m = refl
  build_prompts-fill (p ∷ ps) m = elim (Result-cases (hash_prompt_arguments enc p.arguments)) [
    | inl (h, e) ↦ rw (e) (build_prompts-fill ps (insert p.name (prompt_definition enc p h) m))
    | inr (x, e) ↦ rw (e) refl
  ]

  build_tools-fill :
      (ts : List Tool) (m : GoMap ToolLock)
      → build_tools enc ts m
        ≡ fill
            (λ (t : Tool). t.name)
            (λ (t : Tool). hash_json enc t.input_schema >>= λ h. ok (tool_lock enc t h))
            ts
            m
  unfolding build_tools fill
  build_tools-fill [] m = refl
  build_tools-fill (t ∷ ts) m = elim (Result-cases (hash_json enc t.input_schema)) [
    | inl (h, e) ↦ rw (e) (build_tools-fill ts (insert t.name (tool_lock enc t h) m))
    | inr (x, e) ↦ rw (e) refl
  ]

  template_locks-eq-ok :
      (t : ResourceTemplate) (ts : List ResourceTemplate) (ls : List ResourceTemplateLock)
      → template_locks enc (t ∷ ts) ≡ ok ls
      → (h : Bytes) × (rest : List ResourceTemplateLock) × (hash_template enc t.uri_template
            t.mime_type
          ≡ ok h)
        × (template_locks enc ts ≡ ok rest)
        × (template_lock enc t h ∷ rest ≡ ls)
  unfolding template_locks
  template_locks-eq-ok t ts ls e =
      let hashed = >>=-eq-ok (hash_template enc t.uri_template t.mime_type) _ e in
      let others = >>=-eq-ok (template_locks enc ts) _ hashed.2 in
      (hashed.0, others.0, hashed.1, others.1, ok-injective _ ls _ refl others.2)

  template_locks-Matches :
      (locked : GoMap ResourceTemplateLock) (ts : List ResourceTemplate)
      (ls : List ResourceTemplateLock)
      → template_locks enc ts ≡ ok ls
      → All (λ l. lookup l.uri_template locked ≡ some l) ls
      → All (TemplateMatches enc locked) ts
  unfolding template_lock
  template_locks-Matches locked [] ls e k = tt
  template_locks-Matches locked (t ∷ ts) ls e k =
      let run = template_locks-eq-ok t ts ls e in
      let found = subst (All (λ l. lookup l.uri_template locked ≡ some l)) (sym run.4) k in
      (
        (template_lock enc t run.0, found.0, run.2),
        template_locks-Matches locked ts run.1 run.3 found.1,
      )

  template_locks-uris :
      (P : Bytes → Type 0) (ts : List ResourceTemplate) (ls : List ResourceTemplateLock)
      → All (λ t. P t.uri_template) ts
      → template_locks enc ts ≡ ok ls
      → All (λ l. P l.uri_template) ls
  unfolding template_locks template_lock
  template_locks-uris P [] ls p e =
      subst (All (λ l. P l.uri_template)) (ok-injective [] ls _ refl e) tt
  template_locks-uris P (t ∷ ts) ls p e =
      let run = template_locks-eq-ok t ts ls e in
      subst (All (λ l. P l.uri_template)) run.4 (p.0, template_locks-uris P ts run.1 p.1 run.3)

  template_locks-DistinctBy :
      (ts : List ResourceTemplate) (ls : List ResourceTemplateLock)
      → DistinctBy (λ (t : ResourceTemplate). t.uri_template) ts
      → template_locks enc ts ≡ ok ls
      → DistinctBy uri_of ls
  unfolding template_locks template_lock
  template_locks-DistinctBy [] ls d e = subst (DistinctBy uri_of) (ok-injective [] ls _ refl e) tt
  template_locks-DistinctBy (t ∷ ts) ls d e =
      let run = template_locks-eq-ok t ts ls e in
      subst (DistinctBy uri_of) run.4 (
        template_locks-uris (λ u. bytes_eq t.uri_template u ≡ false) ts run.1 d.0 run.3,
        template_locks-DistinctBy ts run.1 d.1 run.3,
      )

  index-uris :
      (P : Bytes → Type 0) (ls : List ResourceTemplateLock) (m : GoMap ResourceTemplateLock)
      → All (λ l. P l.uri_template) ls
      → All (λ e. P e.0) m
      → All (λ e. P e.0) (index uri_of ls m)
  unfolding index
  index-uris P [] m p q = q
  index-uris P (l ∷ ls) m p q =
      index-uris P ls (insert (uri_of l) l m) p.1 (All-insert P (uri_of l) l m p.0 q)

  described :
      (b : Bool) (h : Bytes) → (is_empty (if b then [] else h) ≡ true) ⊎ ((if b then [] else h) ≡ h)
  described true h = inl refl
  described false h = inr refl

  prompt-Matches :
      (p : Prompt) (r : GoMap PromptDefinition)
      → Made
          (λ (q : Prompt). q.name)
          (λ (q : Prompt).
            hash_prompt_arguments enc q.arguments >>= λ h. ok (prompt_definition enc q h))
          r
          p
      → PromptMatches enc r p
  unfolding prompt_definition
  prompt-Matches p r made =
      let run = >>=-eq-ok (hash_prompt_arguments enc p.arguments) _ made.1 in
      let same = ok-injective (prompt_definition enc p run.0) made.0 _ refl run.2 in
      (
        prompt_definition enc p run.0,
        made.2 ∙ ap some (sym same),
        run.1,
        described (is_empty p.description) (hash_normalized_string enc p.description),
      )

  tool-Matches :
      (t : Tool) (r : GoMap ToolLock)
      → Made
          (λ (u : Tool). u.name)
          (λ (u : Tool). hash_json enc u.input_schema >>= λ h. ok (tool_lock enc u h))
          r
          t
      → ToolMatches enc r t
  unfolding tool_lock
  tool-Matches t r made =
      let run = >>=-eq-ok (hash_json enc t.input_schema) _ made.1 in
      let same = ok-injective (tool_lock enc t run.0) made.0 _ refl run.2 in
      (tool_lock enc t run.0, made.2 ∙ ap some (sym same), run.1, refl)

  prompts-Matches :
      (ps : List Prompt) (r : GoMap PromptDefinition)
      → DistinctBy (λ (p : Prompt). p.name) ps
      → build_prompts enc ps [] ≡ ok r
      → All (PromptMatches enc r) ps × Kept r (index (λ (p : Prompt). p.name) ps [])
  prompts-Matches ps r d e =
      let filled = sym (build_prompts-fill ps []) ∙ e in
      (
        All-map (λ p made. prompt-Matches p r made) ps (fill-Made _ _ ps [] r d filled),
        fill-keys (λ k. is_some (lookup k (index (λ (p : Prompt). p.name) ps [])) ≡ true) _ _ ps []
            r (index-keys _ ps []) tt filled,
      )

  tools-Matches :
      (ts : List Tool) (r : GoMap ToolLock)
      → DistinctBy (λ (t : Tool). t.name) ts
      → build_tools enc ts [] ≡ ok r
      → All (ToolMatches enc r) ts × Kept r (index (λ (t : Tool). t.name) ts [])
  tools-Matches ts r d e =
      let filled = sym (build_tools-fill ts []) ∙ e in
      (
        All-map (λ t made. tool-Matches t r made) ts (fill-Made _ _ ts [] r d filled),
        fill-keys (λ k. is_some (lookup k (index (λ (t : Tool). t.name) ts [])) ≡ true) _ _ ts [] r
            (index-keys _ ts []) tt filled,
      )

  templates-Matches :
      (ts : List ResourceTemplate) (ls : List ResourceTemplateLock)
      → DistinctBy (λ (t : ResourceTemplate). t.uri_template) ts
      → build_templates enc ts ≡ ok ls
      → All (TemplateMatches enc (index uri_of ls [])) ts
        × Kept (index uri_of ls []) (index (λ (t : ResourceTemplate). t.uri_template) ts [])
  unfolding build_templates
  templates-Matches ts ls d e =
      let run = >>=-eq-ok (template_locks enc ts) _ e in
      let sorted = ok-injective (sort_locks run.0) ls _ refl run.2 in
      let current = index (λ (t : ResourceTemplate). t.uri_template) ts [] in
      subst
        (λ l. All (TemplateMatches enc (index uri_of l [])) ts × Kept (index uri_of l []) current)
        sorted
        (
          template_locks-Matches _ ts run.0 run.1 (
              sort_locks-All _ run.0 (
                index-found uri_of (sort_locks run.0) []
                  (sort_locks-DistinctBy run.0 (template_locks-DistinctBy ts run.0 d run.1)))),
          index-uris (λ k. is_some (lookup k current) ≡ true) (sort_locks run.0) []
              (All-sort_locks _ run.0 (
                template_locks-uris (λ k. is_some (lookup k current) ≡ true) ts run.0
                  (index-keys _ ts []) run.1))
              tt,
        )

  build-Matches :
      (stamp : Stamp) (report : ScanReport) (lockfile : LockfileV3)
      → DistinctBy (λ (p : Prompt). p.name) report.prompts
      → DistinctBy (λ (t : ResourceTemplate). t.uri_template) report.resource_templates
      → DistinctBy (λ (t : Tool). t.name) report.tools
      → build enc stamp report ≡ ok lockfile
      → Matches enc lockfile report
  unfolding build
  build-Matches stamp report lockfile dp dt du e =
      let ps = >>=-eq-ok (build_prompts enc report.prompts []) _ e in
      let ts = >>=-eq-ok (build_templates enc report.resource_templates) _ ps.2 in
      let us = >>=-eq-ok (build_tools enc report.tools []) _ ts.2 in
      let prompts = prompts-Matches report.prompts ps.0 dp ps.1 in
      let templates = templates-Matches report.resource_templates ts.0 dt ts.1 in
      let tools = tools-Matches report.tools us.0 du us.1 in
      subst (λ l. Matches enc l report) (ok-injective _ lockfile _ refl us.2)
        (prompts.0, prompts.1, templates.0, templates.1, tools.0, tools.1)

  -- A scan whose prompts, templates and tools have distinct names shows no drift against the
  -- lockfile that is built from it.
  pub compare_v3-build :
      (stamp : Stamp) (report : ScanReport) (lockfile : LockfileV3)
      → DistinctBy (λ (p : Prompt). p.name) report.prompts
      → DistinctBy (λ (t : ResourceTemplate). t.uri_template) report.resource_templates
      → DistinctBy (λ (t : Tool). t.name) report.tools
      → build enc stamp report ≡ ok lockfile
      → compare_v3 enc lockfile report ≡ ok (record { has_drift = false; drifts = [] })
  compare_v3-build stamp report lockfile dp dt du e =
      (compare_v3-Matches enc lockfile report).1 (build-Matches stamp report lockfile dp dt du e)
