-- ===== src/Differ/Matches.antt =====
-- The scans without drift against a v3 lockfile (differ/v3.go).
use mcptrust.Base.{
  append-eq-nil, ◌≡◌, refl, ◌∙◌, ap, sym, ◌⊎◌, inl, inr, Bool, true, false, some, [], arith, All,
  is_empty, Bytes, bytes_eq_iff, GoMap, lookup, is_some, Option-cases, Result-cases, ok,
  ok-injective, if◌then◌else◌,
}
use mcptrust.Models.{
  Tool, Prompt, ResourceTemplate, ScanReport, ToolLock, PromptDefinition, ResourceTemplateLock,
  LockfileV3,
}
use mcptrust.Locker.Canonical.{Encoding}
use mcptrust.Locker.Hash.{
  hash_string, hash_json, hash_normalized_string, hash_prompt_arguments, hash_template,
}
use mcptrust.Differ.{
  DriftItem, index, when_differ, wrap, prompt_items, template_items, tool_items, prompt_changes,
  template_changes, tool_changes,
}
use mcptrust.Differ.Index.{}

-- Every locked name is in the scan.
abbrev pub Kept : {A B : Type 0} → GoMap A → GoMap B → Type 0
Kept locked current = All (λ e. is_some (lookup e.0 current) ≡ true) locked

module _ (enc : Encoding) where
  -- A prompt of the scan has the locked hashes; an empty locked description hash is not compared.
  abbrev pub PromptMatches : GoMap PromptDefinition → Prompt → Type 0
  PromptMatches locked p =
      (def : PromptDefinition) × (lookup p.name locked ≡ some def)
      × (hash_prompt_arguments enc p.arguments ≡ ok def.arguments_hash)
      × ((is_empty def.description_hash ≡ true)
          ⊎ (def.description_hash ≡ hash_normalized_string enc p.description))

  abbrev pub TemplateMatches : GoMap ResourceTemplateLock → ResourceTemplate → Type 0
  TemplateMatches locked t =
      (lock : ResourceTemplateLock) × (lookup t.uri_template locked ≡ some lock)
      × (hash_template enc t.uri_template t.mime_type ≡ ok lock.template_hash)

  abbrev pub ToolMatches : GoMap ToolLock → Tool → Type 0
  ToolMatches locked t =
      (lock : ToolLock) × (lookup t.name locked ≡ some lock)
      × (hash_json enc t.input_schema ≡ ok lock.input_schema_hash)
      × (lock.description_hash ≡ hash_string enc t.description)

  abbrev pub Matches : LockfileV3 → ScanReport → Type 0
  Matches lockfile report =
      let locked = index (λ (l : ResourceTemplateLock). l.uri_template) lockfile.templates [] in
      All (PromptMatches lockfile.prompts) report.prompts
      × Kept lockfile.prompts (index (λ (p : Prompt). p.name) report.prompts [])
      × All (TemplateMatches locked) report.resource_templates
      × Kept locked (index (λ (t : ResourceTemplate). t.uri_template) report.resource_templates [])
      × All (ToolMatches lockfile.tools) report.tools
      × Kept lockfile.tools (index (λ (t : Tool). t.name) report.tools [])

  when_differ-nil : (s t : Bytes) (item : DriftItem) → when_differ s t item ≡ [] → s ≡ t
  unfolding when_differ
  when_differ-nil s t item h = ground (arith, bytes_eq_iff s t)

  when_differ-same : (s t : Bytes) (item : DriftItem) → s ≡ t → when_differ s t item ≡ []
  unfolding when_differ
  when_differ-same s t item h = ground (arith, bytes_eq_iff s t)

  when_differ-unless :
      (b : Bool) (s t : Bytes) (item : DriftItem)
      → (b ≡ true) ⊎ (s ≡ t)
      → (if b then [] else when_differ s t item) ≡ []
  when_differ-unless b s t item (inl h) = rw (h) refl
  when_differ-unless b s t item (inr h) = ground (arith, when_differ-same s t item)

  unless-when_differ :
      (b : Bool) (s t : Bytes) (item : DriftItem)
      → (if b then [] else when_differ s t item) ≡ []
      → (b ≡ true) ⊎ (s ≡ t)
  unless-when_differ true s t item h = inl refl
  unless-when_differ false s t item h = inr (when_differ-nil s t item h)

  prompt_items-known :
      (locked : GoMap PromptDefinition) (p : Prompt) (def : PromptDefinition) (h : Bytes)
      → lookup p.name locked ≡ some def
      → hash_prompt_arguments enc p.arguments ≡ ok h
      → prompt_items enc locked p ≡ ok (prompt_changes enc def p h)
  unfolding prompt_items wrap
  prompt_items-known locked p def h e f = rw (e, prompt_items, f) refl

  pub prompt_items-nil :
      (locked : GoMap PromptDefinition) (p : Prompt)
      → PromptMatches locked p
      → prompt_items enc locked p ≡ ok []
  unfolding prompt_changes
  prompt_items-nil locked p m =
      prompt_items-known locked p m.0 m.0.arguments_hash m.1 m.2
      ∙ rw
          (
            when_differ-same m.0.arguments_hash m.0.arguments_hash _ refl,
            when_differ-unless (is_empty m.0.description_hash) m.0.description_hash
                (hash_normalized_string enc p.description) _ m.3,
          )
          refl

  prompt_changes-nil :
      (def : PromptDefinition) (p : Prompt) (h : Bytes)
      → prompt_changes enc def p h ≡ []
      → (def.arguments_hash ≡ h)
        × ((is_empty def.description_hash ≡ true)
            ⊎ (def.description_hash ≡ hash_normalized_string enc p.description))
  unfolding prompt_changes
  prompt_changes-nil def p h e =
      let both = append-eq-nil _ _ e in
      (
        when_differ-nil def.arguments_hash h _ both.0,
        unless-when_differ (is_empty def.description_hash) def.description_hash
            (hash_normalized_string enc p.description) _ both.1,
      )

  pub nil-prompt_items :
      (locked : GoMap PromptDefinition) (p : Prompt)
      → prompt_items enc locked p ≡ ok []
      → PromptMatches locked p
  unfolding prompt_items wrap
  nil-prompt_items locked p h = elim (Option-cases (lookup p.name locked)) [
    | inl missing ↦ ground arith
    | inr (def, found) ↦ elim (Result-cases (hash_prompt_arguments enc p.arguments)) [
      | inl (a, e) ↦
          let same = prompt_changes-nil def p a (
            ok-injective (prompt_changes enc def p a) [] _
              (prompt_items-known locked p def a found e) h) in
          (def, found, e ∙ ap ok (sym same.0), same.1)
      | inr (e, f) ↦ ground arith
    ]
  ]

  template_items-known :
      (locked : GoMap ResourceTemplateLock) (t : ResourceTemplate) (lock : ResourceTemplateLock)
      (h : Bytes)
      → lookup t.uri_template locked ≡ some lock
      → hash_template enc t.uri_template t.mime_type ≡ ok h
      → template_items enc locked t ≡ ok (template_changes enc lock t h)
  unfolding template_items wrap
  template_items-known locked t lock h e f = rw (e, template_items, f) refl

  pub template_items-nil :
      (locked : GoMap ResourceTemplateLock) (t : ResourceTemplate)
      → TemplateMatches locked t
      → template_items enc locked t ≡ ok []
  unfolding template_changes
  template_items-nil locked t m =
      template_items-known locked t m.0 m.0.template_hash m.1 m.2
      ∙ ap ok (when_differ-same m.0.template_hash m.0.template_hash _ refl)

  pub nil-template_items :
      (locked : GoMap ResourceTemplateLock) (t : ResourceTemplate)
      → template_items enc locked t ≡ ok []
      → TemplateMatches locked t
  unfolding template_items wrap template_changes
  nil-template_items locked t h = elim (Option-cases (lookup t.uri_template locked)) [
    | inl missing ↦ ground arith
    | inr (lock, found) ↦ elim (Result-cases (hash_template enc t.uri_template t.mime_type)) [
      | inl (a, e) ↦
          let same = when_differ-nil lock.template_hash a _ (
            ok-injective (template_changes enc lock t a) [] _
              (template_items-known locked t lock a found e) h) in
          (lock, found, e ∙ ap ok (sym same))
      | inr (e, f) ↦ ground arith
    ]
  ]

  tool_items-known :
      (locked : GoMap ToolLock) (t : Tool) (lock : ToolLock) (h : Bytes)
      → lookup t.name locked ≡ some lock
      → hash_json enc t.input_schema ≡ ok h
      → tool_items enc locked t ≡ ok (tool_changes enc lock t h)
  unfolding tool_items wrap
  tool_items-known locked t lock h e f = rw (e, tool_items, f) refl

  tool_changes-nil :
      (lock : ToolLock) (t : Tool) (h : Bytes)
      → tool_changes enc lock t h ≡ []
      → (lock.description_hash ≡ hash_string enc t.description) × (lock.input_schema_hash ≡ h)
  unfolding tool_changes
  tool_changes-nil lock t h e =
      let both = append-eq-nil _ _ e in
      (
        when_differ-nil lock.description_hash (hash_string enc t.description) _ both.0,
        when_differ-nil lock.input_schema_hash h _ both.1,
      )

  pub tool_items-nil :
      (locked : GoMap ToolLock) (t : Tool) → ToolMatches locked t → tool_items enc locked t ≡ ok []
  unfolding tool_changes
  tool_items-nil locked t m =
      tool_items-known locked t m.0 m.0.input_schema_hash m.1 m.2
      ∙ rw
          (
            when_differ-same m.0.description_hash (hash_string enc t.description) _ m.3,
            when_differ-same m.0.input_schema_hash m.0.input_schema_hash _ refl,
          )
          refl

  pub nil-tool_items :
      (locked : GoMap ToolLock) (t : Tool) → tool_items enc locked t ≡ ok [] → ToolMatches locked t
  unfolding tool_items wrap
  nil-tool_items locked t h = elim (Option-cases (lookup t.name locked)) [
    | inl missing ↦ ground arith
    | inr (lock, found) ↦ elim (Result-cases (hash_json enc t.input_schema)) [
      | inl (a, e) ↦
          let same = tool_changes-nil lock t a (
            ok-injective (tool_changes enc lock t a) [] _ (tool_items-known locked t lock a found e)
              h) in
          (lock, found, e ∙ ap ok (sym same.1), same.0)
      | inr (e, f) ↦ ground arith
    ]
  ]
