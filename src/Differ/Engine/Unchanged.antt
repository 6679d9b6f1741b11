-- ===== src/Differ/Engine/Unchanged.antt =====
-- ComputeDiff of differ/engine.go: when it finds no change.
use mcptrust.Base.{
  ◌≡◌, refl, ◌∙◌, ap, sym, ◌↔◌, inl, inr, Bool, true, false, not, Option, none, some, List, [], ◌∷◌,
  ◌++◌, append-eq-nil, arith, Bool-cases, is_some, is_empty, All, Bytes, codes, bytes_eq,
  bytes_eq_iff, bytes_eq_refl, GoMap, lookup, Result, ok, err, ◌>>=◌, >>=-eq-ok, ok-injective,
}
use mcptrust.Json.{Fields}
use mcptrust.Models.{Tool, ScanReport, ToolLock, Lockfile}
use mcptrust.Locker.Canonical.{Encoding}
use mcptrust.Locker.Hash.{hash_string, hash_json}
use mcptrust.Differ.{index}
use mcptrust.Differ.Translator.{add, Operation, translate, translate-nil}
use mcptrust.Differ.Engine.{
  ToolDiff, DiffResult, diff_summary, removed_diffs, analyze_schema_changes, schema_texts,
  schema_changes, description_texts, compare_hashed, diff_of, compare_schemas, changed_diff,
  tool_diff, tool_diffs, compute_diff,
}

removed_diffs-nil :
    (tools : GoMap ToolLock) (current : GoMap Tool)
    → removed_diffs tools current ≡ []
    → All (λ e. is_some (lookup e.0 current) ≡ true) tools
unfolding removed_diffs
removed_diffs-nil [] current h = tt
removed_diffs-nil ((name, t) ∷ tools) current h =
    elim (Bool-cases (is_some (lookup name current))) [
      | inl e ↦ (e, removed_diffs-nil tools current (ground (arith, e, h)))
      | inr e ↦ ground (arith, e, h)
    ]

nil-removed_diffs :
    (tools : GoMap ToolLock) (current : GoMap Tool)
    → All (λ e. is_some (lookup e.0 current) ≡ true) tools
    → removed_diffs tools current ≡ []
unfolding removed_diffs
nil-removed_diffs [] current h = refl
nil-removed_diffs ((name, t) ∷ tools) current h = rw (h.0) (nil-removed_diffs tools current h.1)

abbrev pub no_changes : DiffResult
no_changes = record { has_changes = false; tool_diffs = [] }

module _ (enc : Encoding) (to_lower : Bytes → Bytes)
    (compare_json : Fields → Result Bytes (List Operation)) where
  -- The tool is locked, with the hashes of its description and of its schema.
  abbrev pub IsLocked : Tool → Option ToolLock → Type 0
  IsLocked t found =
      (locked : ToolLock) × (found ≡ some locked)
      × (locked.description_hash ≡ hash_string enc t.description)
      × (hash_json enc t.input_schema ≡ ok locked.input_schema_hash)

  schema_texts-ne :
      (patches : List Operation)
      → All (λ (o : Operation). o.type ≡ add) patches
      → is_empty (schema_texts enc to_lower compare_json patches) ≡ false
  unfolding schema_texts
  schema_texts-ne patches a = elim (Bool-cases (is_empty patches)) [
    | inl e ↦ rw (e) refl
    | inr e ↦ elim (Bool-cases (is_empty (translate to_lower patches))) [
      | inl f ↦ (let nothing = translate-nil to_lower patches a f in cc)
      | inr f ↦ rw (e) f
    ]
  ]

  -- The texts are empty only for an equal hash.
  schema_changes-nil :
      ((schema : Fields) (ps : List Operation)
        → compare_json schema ≡ ok ps
        → All (λ (o : Operation). o.type ≡ add) ps)
      → (same : Bool) (schema : Option Fields) (changes : List Operation × List Bytes)
      → schema_changes enc to_lower compare_json same schema ≡ ok changes
      → is_empty changes.1 ≡ true
      → same ≡ true
  unfolding schema_changes analyze_schema_changes
  schema_changes-nil adds true schema changes h e = refl
  schema_changes-nil adds false none changes h e =
      let same = ok-injective ([], schema_texts enc to_lower compare_json []) changes _ refl h in
      let shown = schema_texts-ne [] tt in let kept = ap (λ c. is_empty c.1) same in cc
  schema_changes-nil adds false (some schema) changes h e =
      let run = >>=-eq-ok (compare_json schema) _ h in
      let shown = schema_texts-ne run.0 (adds schema run.0 run.1) in
      let same =
        ok-injective (run.0, schema_texts enc to_lower compare_json run.0) changes _ refl run.2 in
      let kept = ap (λ c. is_empty c.1) same in cc

  description_texts-nil :
      (same : Bool)
      → is_empty (description_texts enc to_lower compare_json same) ≡ true
      → same ≡ true
  unfolding description_texts
  description_texts-nil true h = refl
  description_texts-nil false h = cc

  changed_diff-nil :
      (name : Bytes) (changes : List Operation × List Bytes)
      → changed_diff enc to_lower compare_json name changes ≡ []
      → is_empty changes.1 ≡ true
  unfolding changed_diff
  changed_diff-nil name (patches, []) h = refl
  changed_diff-nil name (patches, text ∷ texts) h = cc

  append-empty :
      (xs ys : List Bytes)
      → is_empty (xs ++ ys) ≡ true
      → (is_empty xs ≡ true) × (is_empty ys ≡ true)
  append-empty [] ys h = (refl, h)
  append-empty (x ∷ xs) ys h = cc

  module _
      (adds : (schema : Fields) (ps : List Operation)
        → compare_json schema ≡ ok ps
        → All (λ (o : Operation). o.type ≡ add) ps) where
    compare_hashed-nil :
        (locked : ToolLock) (t : Tool) (r : Result Bytes Bytes)
        (changes : List Operation × List Bytes)
        → compare_hashed enc to_lower compare_json locked t r ≡ ok changes
        → is_empty changes.1 ≡ true
        → (locked.description_hash ≡ hash_string enc t.description)
          × (r ≡ ok locked.input_schema_hash)
    unfolding compare_hashed
    compare_hashed-nil locked t (err e) changes h n = cc
    compare_hashed-nil locked t (ok hash) changes h n =
        let same_schema = bytes_eq locked.input_schema_hash hash in
        let same_text = bytes_eq locked.description_hash (hash_string enc t.description) in
        let texts = description_texts enc to_lower compare_json same_text in
        let run =
          >>=-eq-ok (schema_changes enc to_lower compare_json same_schema t.input_schema) _ h in
        let whole = ok-injective (run.0.0, texts ++ run.0.1) changes _ refl run.2 in
        let both = append-empty texts run.0.1 (ap (λ c. is_empty c.1) whole ∙ n) in
        (
          (bytes_eq_iff locked.description_hash (hash_string enc t.description)).0
              (description_texts-nil same_text both.0),
          ap ok (
              sym (
                (bytes_eq_iff locked.input_schema_hash hash).0
                  (schema_changes-nil adds same_schema t.input_schema run.0 run.1 both.1))),
        )

    diff_of-nil :
        (name : Bytes) (r : Result Bytes (List Operation × List Bytes))
        → diff_of enc to_lower compare_json name r ≡ ok []
        → (changes : List Operation × List Bytes) × (r ≡ ok changes) × (is_empty changes.1 ≡ true)
    unfolding diff_of
    diff_of-nil name (err e) h = cc
    diff_of-nil name (ok changes) h = (
      changes,
      refl,
      changed_diff-nil name changes
          (ok-injective (changed_diff enc to_lower compare_json name changes) [] _ refl h),
    )

    tool_diff-nil :
        (t : Tool) (found : Option ToolLock)
        → tool_diff enc to_lower compare_json t found ≡ ok []
        → IsLocked t found
    unfolding tool_diff compare_schemas
    tool_diff-nil t none h = cc
    tool_diff-nil t (some locked) h =
        let run = diff_of-nil t.name (compare_schemas enc to_lower compare_json locked t) h in
        let hashes = compare_hashed-nil locked t (hash_json enc t.input_schema) run.0 run.1 run.2 in
        (locked, refl, hashes.0, hashes.1)

    tool_diffs-nil :
        (locked : GoMap ToolLock) (ts : List Tool)
        → tool_diffs enc to_lower compare_json locked ts ≡ ok []
        → All (λ (t : Tool). IsLocked t (lookup t.name locked)) ts
    unfolding tool_diffs
    tool_diffs-nil locked [] h = tt
    tool_diffs-nil locked (t ∷ ts) h =
        let first = >>=-eq-ok (tool_diff enc to_lower compare_json t (lookup t.name locked)) _ h in
        let second = >>=-eq-ok (tool_diffs enc to_lower compare_json locked ts) _ first.2 in
        let both =
          append-eq-nil first.0 second.0 (ok-injective (first.0 ++ second.0) [] _ refl second.2) in
        (
          tool_diff-nil t (lookup t.name locked) (first.1 ∙ ap ok both.0),
          tool_diffs-nil locked ts (second.1 ∙ ap ok both.1),
        )

  same-compare_hashed :
      (locked : ToolLock) (t : Tool)
      → locked.description_hash ≡ hash_string enc t.description
      → compare_hashed enc to_lower compare_json locked t (ok locked.input_schema_hash)
        ≡ ok ([], [])
  unfolding compare_hashed schema_changes description_texts
  same-compare_hashed locked t d =
      rw
        (
          bytes_eq_refl locked.input_schema_hash,
          (bytes_eq_iff locked.description_hash (hash_string enc t.description)).1 d,
        )
        refl

  IsLocked-tool_diff :
      (t : Tool) (found : Option ToolLock)
      → IsLocked t found
      → tool_diff enc to_lower compare_json t found ≡ ok []
  unfolding tool_diff compare_schemas diff_of changed_diff
  IsLocked-tool_diff t found (locked, f, d, s) =
      ap (tool_diff enc to_lower compare_json t) f
      ∙ ap
          (λ r.
            diff_of enc to_lower compare_json t.name
              (compare_hashed enc to_lower compare_json locked t r))
          s
      ∙ ap (diff_of enc to_lower compare_json t.name) (same-compare_hashed locked t d)

  IsLocked-tool_diffs :
      (locked : GoMap ToolLock) (ts : List Tool)
      → All (λ (t : Tool). IsLocked t (lookup t.name locked)) ts
      → tool_diffs enc to_lower compare_json locked ts ≡ ok []
  unfolding tool_diffs
  IsLocked-tool_diffs locked [] h = refl
  IsLocked-tool_diffs locked (t ∷ ts) h =
      rw (IsLocked-tool_diff t (lookup t.name locked) h.0, IsLocked-tool_diffs locked ts h.1) refl

  -- No tool is gone, and each tool of the scan is locked with its hashes.
  abbrev pub IsUnchanged : Lockfile → ScanReport → Type 0
  IsUnchanged lockfile report =
      (is_empty report.error ≡ true)
      × All (λ e. is_some (lookup e.0 (index (λ (t : Tool). t.name) report.tools [])) ≡ true)
          lockfile.tools
      × All (λ (t : Tool). IsLocked t (lookup t.name lockfile.tools)) report.tools

  module _ (lockfile : Lockfile) (report : ScanReport) where
    gone : List ToolDiff
    unfolding removed_diffs
    gone = removed_diffs lockfile.tools (index (λ (t : Tool). t.name) report.tools [])

    compute_diff-clean :
        is_empty report.error ≡ true
        → compute_diff enc to_lower compare_json lockfile report ≡ (
            tool_diffs enc to_lower compare_json lockfile.tools report.tools >>= λ diffs.
            ok
              (record { has_changes = not (is_empty (gone ++ diffs)); tool_diffs = gone ++ diffs }))
    unfolding compute_diff diff_summary gone
    compute_diff-clean e = rw (e) refl

    clean-report :
        (r : DiffResult)
        → compute_diff enc to_lower compare_json lockfile report ≡ ok r
        → is_empty report.error ≡ true
    unfolding compute_diff
    clean-report r h = elim (Bool-cases (is_empty report.error)) [
      | inl e ↦ e
      | inr e ↦
          (let fails : compute_diff enc to_lower compare_json lockfile report
                ≡ err (codes "scan error: " ++ report.error) =
              rw (e) refl in
            cc)
    ]

    IsUnchanged→no_changes :
        IsUnchanged lockfile report
        → compute_diff enc to_lower compare_json lockfile report ≡ ok no_changes
    unfolding gone
    IsUnchanged→no_changes (e, k, l) =
        compute_diff-clean e
        ∙ rw
            (
              IsLocked-tool_diffs lockfile.tools report.tools l,
              nil-removed_diffs lockfile.tools _ k,
            )
            refl

    -- On a comparison of JSON texts that reports only additions against the empty object, the older
    -- comparison ends without a change exactly when the scan has no error and all locked tools, and
    -- each of its tools is locked with the hashes of its description and schema. The risk level is not
    -- compared.
    pub compute_diff-IsUnchanged :
        ((schema : Fields) (ps : List Operation)
          → compare_json schema ≡ ok ps
          → All (λ (o : Operation). o.type ≡ add) ps)
        → (compute_diff enc to_lower compare_json lockfile report ≡ ok no_changes)
          ↔ IsUnchanged lockfile report
    unfolding gone
    compute_diff-IsUnchanged adds = (
      λ h.
          (let e = clean-report no_changes h in
            let run =
              >>=-eq-ok (tool_diffs enc to_lower compare_json lockfile.tools report.tools) _
                (sym (compute_diff-clean e) ∙ h) in
            let whole =
              ok-injective
                (record {
                  has_changes = not (is_empty (gone ++ run.0));
                  tool_diffs = gone ++ run.0;
                })
                no_changes _ refl run.2 in
            let both = append-eq-nil gone run.0 (ap (λ (r : DiffResult). r.tool_diffs) whole) in
            (
              e,
              removed_diffs-nil lockfile.tools _ both.0,
              tool_diffs-nil adds lockfile.tools report.tools (run.1 ∙ ap ok both.1),
            )),
      IsUnchanged→no_changes,
    )
