-- ===== src/Differ/Engine.antt =====
-- differ/engine.go: what has changed between a lockfile of version 1 or 2 and a scan. The library
-- jsondiff, on the texts of the empty object and of a schema, is a parameter.
use mcptrust.Base.{
  ◌≡◌, refl, ◌∙◌, ap, sym, ◌↔◌, inl, inr, Bool, true, false, not, Option, none, some, List, [], ◌∷◌,
  ◌++◌, if◌then◌else◌, Bool-cases, Option-cases, Result-cases, is_some, is_empty, All, Bytes, codes,
  bytes_eq, bytes_eq_iff, GoMap, lookup, Result, ok, err, ◌>>=◌, >>=-eq-ok,
}
use mcptrust.Json.{Fields}
use mcptrust.Models.{Tool, ScanReport, ToolLock, Lockfile}
use mcptrust.Locker.Canonical.{Encoding}
use mcptrust.Locker.Hash.{hash_string, hash_json}
use mcptrust.Differ.{index}
use mcptrust.Differ.Translator.{Operation, translate}
pub mod Unchanged

pub data DiffType : Type 0 where
  added removed changed : DiffType

pub record ToolDiff : Type 0 where
  pub tool_name : Bytes
  pub diff_type : DiffType
  pub patches : List Operation
  pub translations : List Bytes

pub record DiffResult : Type 0 where
  pub has_changes : Bool
  pub tool_diffs : List ToolDiff

-- The first loop of ComputeDiff, over the locked tools.
unfoldable pub removed_diffs : GoMap ToolLock → GoMap Tool → List ToolDiff
removed_diffs [] current = []
removed_diffs ((name, t) ∷ tools) current =
    let rest = removed_diffs tools current in
    if is_some (lookup name current)
    then rest
    else record {
      tool_name = name;
      diff_type = removed;
      patches = [];
      translations = codes "Tool has been removed from the server." ∷ [];
    }
      ∷ rest

module _ (enc : Encoding) (to_lower : Bytes → Bytes)
    (compare_json : Fields → Result Bytes (List Operation)) where
  unfoldable pub analyze_schema_changes : Option Fields → Result Bytes (List Operation)
  analyze_schema_changes none = ok []
  analyze_schema_changes (some schema) = compare_json schema

  -- The texts for a schema with another hash.
  schema_texts : List Operation → List Bytes
  unfolding translate
  schema_texts patches =
      if is_empty patches
      then codes "Input schema has been modified." ∷ []
      else translate to_lower patches

  schema_changes : Bool → Option Fields → Result Bytes (List Operation × List Bytes)
  unfolding analyze_schema_changes schema_texts
  schema_changes true schema = ok ([], [])
  schema_changes false schema =
      analyze_schema_changes schema >>= λ patches. ok (patches, schema_texts patches)

  description_texts : Bool → List Bytes
  description_texts true = []
  description_texts false = codes "Documentation update: description has changed." ∷ []

  compare_hashed : ToolLock → Tool → Result Bytes Bytes → Result Bytes (List Operation × List Bytes)
  unfolding schema_changes description_texts
  compare_hashed locked current (err e) = err (codes "failed to hash current schema: " ++ e)
  compare_hashed locked current (ok hash) =
      schema_changes (bytes_eq locked.input_schema_hash hash) current.input_schema >>= λ changes.
      ok (
        changes.0,
        description_texts (bytes_eq locked.description_hash (hash_string enc current.description))
            ++ changes.1,
      )

  unfoldable pub compare_schemas : ToolLock → Tool → Result Bytes (List Operation × List Bytes)
  unfolding compare_hashed
  compare_schemas locked current =
      compare_hashed locked current (hash_json enc current.input_schema)

  changed_diff : Bytes → List Operation × List Bytes → List ToolDiff
  changed_diff name (patches, []) = []
  changed_diff name (patches, text ∷ texts) =
      record {
        tool_name = name;
        diff_type = changed;
        patches = patches;
        translations = text ∷ texts;
      }
      ∷ []

  diff_of : Bytes → Result Bytes (List Operation × List Bytes) → Result Bytes (List ToolDiff)
  unfolding changed_diff
  diff_of name (err e) =
      err (codes "failed to compare schemas for tool " ++ (name ++ (codes ": " ++ e)))
  diff_of name (ok changes) = ok (changed_diff name changes)

  tool_diff : Tool → Option ToolLock → Result Bytes (List ToolDiff)
  unfolding compare_schemas diff_of
  tool_diff t none = ok (
      record {
        tool_name = t.name;
        diff_type = added;
        patches = [];
        translations = codes "New tool added to the server." ∷ [];
      }
      ∷ [])
  tool_diff t (some locked) = diff_of t.name (compare_schemas locked t)

  -- The second loop, over the tools of the scan.
  unfoldable pub tool_diffs : GoMap ToolLock → List Tool → Result Bytes (List ToolDiff)
  unfolding tool_diff
  tool_diffs locked [] = ok []
  tool_diffs locked (t ∷ ts) = tool_diff t (lookup t.name locked) >>= λ diff.
      tool_diffs locked ts >>= λ rest. ok (diff ++ rest)

  -- HasChanges is set to true with every difference that is added.
  diff_summary : Lockfile → ScanReport → List ToolDiff → DiffResult
  unfolding removed_diffs
  diff_summary lockfile report diffs =
      let all =
        removed_diffs lockfile.tools (index (λ (t : Tool). t.name) report.tools []) ++ diffs in
      record { has_changes = not (is_empty all); tool_diffs = all }

  unfoldable pub compute_diff : Lockfile → ScanReport → Result Bytes DiffResult
  unfolding diff_summary tool_diffs
  compute_diff lockfile report =
      if is_empty report.error
      then (tool_diffs lockfile.tools report.tools >>= λ diffs.
          ok (diff_summary lockfile report diffs))
      else err (codes "scan error: " ++ report.error)
