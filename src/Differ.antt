-- ===== src/Differ.antt =====
-- differ/v3.go: what has changed between a v3 lockfile and a scan.
use mcptrust.Base.{
  ℕ, Bool, true, false, not, Option, none, some, List, [], ◌∷◌, ◌++◌, if◌then◌else◌, leb, length,
  take, is_empty, Bytes, codes, bytes_eq, GoMap, lookup, insert, is_some, Result, ok, err, ◌>>=◌,
}
use mcptrust.Models.{
  Tool, Prompt, ResourceTemplate, ScanReport, ToolLock, PromptDefinition, ResourceTemplateLock,
  LockfileV3,
}
use mcptrust.Locker.Canonical.{Encoding}
use mcptrust.Locker.Hash.{
  hash_string, hash_json, hash_normalized_string, hash_prompt_arguments, hash_template,
}
pub mod Index
pub mod Matches
pub mod NoDrift
pub mod Fill
pub mod Sorted
pub mod RoundTrip
pub mod Translator
pub mod Engine

-- SeverityLevel, in its order.
pub data Severity : Type 0 where
  safe moderate critical : Severity

abbrev pub severity_level : Severity → ℕ
severity_level safe = 0
severity_level moderate = 1
severity_level critical = 2

-- SeverityString.
unfoldable pub severity_string : Severity → Bytes
severity_string critical = codes "critical"
severity_string moderate = codes "moderate"
severity_string safe = codes "info"

pub data DriftType : Type 0 where
  prompt_added prompt_removed prompt_args_changed prompt_desc_changed template_added : DriftType
  template_removed template_changed tool_added tool_removed tool_changed : DriftType

pub record DriftItem : Type 0 where
  pub type : DriftType
  pub severity : Severity
  pub identifier : Bytes
  pub old_hash : Bytes
  pub new_hash : Bytes
  pub message : Bytes

pub record DriftResult : Type 0 where
  pub has_drift : Bool
  pub drifts : List DriftItem

unfoldable pub trunc_hash : Bytes → Bytes
trunc_hash h = if leb (length h) 20 then h else take 20 h ++ codes "..."

-- The message of an item: "<kind> [<name>]<what>".
unfoldable pub about : Bytes → Bytes → Bytes → Bytes
about kind name what = kind ++ codes " [" ++ name ++ codes "]" ++ what

-- " → " between two hashes, in UTF-8.
unfoldable pub from_to : Bytes → Bytes → Bytes
unfolding trunc_hash
from_to old new = trunc_hash old ++ (32 ∷ 226 ∷ 134 ∷ 146 ∷ 32 ∷ []) ++ trunc_hash new

-- An item that carries no hashes, and one that carries two.
unfoldable pub plain_item : DriftType → Bytes → Bytes → DriftItem
plain_item type name message = record {
  type = type;
  severity = critical;
  identifier = name;
  old_hash = [];
  new_hash = [];
  message = message;
}

unfoldable pub changed_item : DriftType → Severity → Bytes → Bytes → Bytes → Bytes → DriftItem
changed_item type severity name old new message = record {
  type = type;
  severity = severity;
  identifier = name;
  old_hash = old;
  new_hash = new;
  message = message;
}

-- for _, x := range xs { m[key(x)] = x }.
unfoldable pub index : {A : Type 0} → (A → Bytes) → List A → GoMap A → GoMap A
index key [] m = m
index key (x ∷ xs) m = index key xs (insert (key x) x m)

-- The first loop of each comparison: the locked names that the scan does not have.
unfoldable pub removed : {A B : Type 0} → (Bytes → DriftItem) → GoMap A → GoMap B → List DriftItem
removed item [] current = []
removed item ((name, _) ∷ m) current =
    let rest = removed item m current in
    if is_some (lookup name current) then rest else item name ∷ rest

-- An item if the two hashes differ.
unfoldable pub when_differ : Bytes → Bytes → DriftItem → List DriftItem
when_differ old new item = if bytes_eq old new then [] else item ∷ []

unfoldable pub wrap : {A : Type 0} → Bytes → Result Bytes A → Result Bytes A
wrap text (ok a) = ok a
wrap text (err e) = err (text ++ e)

-- The second loop: the items of each thing that was scanned, until an error.
unfoldable pub each :
    {A : Type 0} → (A → Result Bytes (List DriftItem)) → List A → Result Bytes (List DriftItem)
each items [] = ok []
each items (x ∷ xs) = items x >>= λ here. each items xs >>= λ rest. ok (here ++ rest)

module _ (enc : Encoding) where
  -- The items of a locked prompt whose arguments hash to args_hash now.
  unfoldable pub prompt_changes : PromptDefinition → Prompt → Bytes → List DriftItem
  unfolding when_differ
  prompt_changes def p args_hash =
      when_differ def.arguments_hash args_hash (
        changed_item prompt_args_changed critical p.name def.arguments_hash args_hash (
          about (codes "Prompt") p.name
            (codes " arguments changed: " ++ from_to def.arguments_hash args_hash)))
      ++ (if is_empty def.description_hash
          then []
          else when_differ def.description_hash (hash_normalized_string enc p.description) (
              changed_item prompt_desc_changed moderate p.name def.description_hash
                (hash_normalized_string enc p.description)
                (about (codes "Prompt") p.name (codes " description changed"))))

  unfoldable pub prompt_items : GoMap PromptDefinition → Prompt → Result Bytes (List DriftItem)
  unfolding wrap
  prompt_items locked p = elim (lookup p.name locked) [
    | none ↦ ok (
        plain_item prompt_added p.name
          (about (codes "Prompt") p.name (codes " has been added to the server"))
        ∷ [])
    | some def ↦
        wrap (codes "failed to hash arguments for prompt " ++ p.name ++ codes ": ")
          (hash_prompt_arguments enc p.arguments)
        >>= λ args_hash. ok (prompt_changes def p args_hash)
  ]

  unfoldable pub compare_prompts : LockfileV3 → ScanReport → Result Bytes (List DriftItem)
  unfolding prompt_items each removed index
  compare_prompts lockfile report = each (prompt_items lockfile.prompts) report.prompts >>= λ items.
      ok (
        removed
          (λ name.
            plain_item prompt_removed name
              (about (codes "Prompt") name (codes " has been removed from the server")))
          lockfile.prompts (index (λ (p : Prompt). p.name) report.prompts [])
        ++ items)

  unfoldable pub template_changes : ResourceTemplateLock → ResourceTemplate → Bytes → List DriftItem
  unfolding when_differ
  template_changes lock t current_hash = when_differ lock.template_hash current_hash (
      changed_item template_changed critical t.uri_template lock.template_hash current_hash (
        about (codes "Template") t.uri_template
          (codes " changed: " ++ from_to lock.template_hash current_hash)))

  unfoldable pub template_items :
      GoMap ResourceTemplateLock → ResourceTemplate → Result Bytes (List DriftItem)
  unfolding wrap
  template_items locked t = elim (lookup t.uri_template locked) [
    | none ↦ ok (
        plain_item template_added t.uri_template
          (about (codes "Template") t.uri_template (codes " has been added to the server"))
        ∷ [])
    | some lock ↦
        wrap (codes "failed to hash template " ++ t.uri_template ++ codes ": ")
          (hash_template enc t.uri_template t.mime_type)
        >>= λ current_hash. ok (template_changes lock t current_hash)
  ]

  unfoldable pub compare_templates : LockfileV3 → ScanReport → Result Bytes (List DriftItem)
  unfolding template_items each removed index
  compare_templates lockfile report =
      let locked = index (λ (l : ResourceTemplateLock). l.uri_template) lockfile.templates [] in
      each (template_items locked) report.resource_templates >>= λ items. ok (
        removed
          (λ uri.
            plain_item template_removed uri
              (about (codes "Template") uri (codes " has been removed from the server")))
          locked (index (λ (t : ResourceTemplate). t.uri_template) report.resource_templates [])
        ++ items)

  unfoldable pub tool_changes : ToolLock → Tool → Bytes → List DriftItem
  unfolding when_differ
  tool_changes lock t schema_hash =
      when_differ lock.description_hash (hash_string enc t.description) (
        changed_item tool_changed moderate t.name lock.description_hash
          (hash_string enc t.description)
          (about (codes "Tool") t.name (codes " description changed")))
      ++ when_differ lock.input_schema_hash schema_hash (
          changed_item tool_changed critical t.name lock.input_schema_hash schema_hash (
            about (codes "Tool") t.name
              (codes " schema changed: " ++ from_to lock.input_schema_hash schema_hash)))

  unfoldable pub tool_items : GoMap ToolLock → Tool → Result Bytes (List DriftItem)
  unfolding wrap
  tool_items locked t = elim (lookup t.name locked) [
    | none ↦ ok (
        plain_item tool_added t.name
          (about (codes "Tool") t.name (codes " has been added to the server"))
        ∷ [])
    | some lock ↦
        wrap (codes "failed to hash schema for tool " ++ t.name ++ codes ": ")
          (hash_json enc t.input_schema)
        >>= λ schema_hash. ok (tool_changes lock t schema_hash)
  ]

  unfoldable pub compare_tools : LockfileV3 → ScanReport → Result Bytes (List DriftItem)
  unfolding tool_items each removed index
  compare_tools lockfile report = each (tool_items lockfile.tools) report.tools >>= λ items. ok (
      removed
        (λ name.
          plain_item tool_removed name
            (about (codes "Tool") name (codes " has been removed from the server")))
        lockfile.tools (index (λ (t : Tool). t.name) report.tools [])
      ++ items)

  unfoldable pub compare_v3 : LockfileV3 → ScanReport → Result Bytes DriftResult
  unfolding wrap
  compare_v3 lockfile report = do
    prompts ← wrap (codes "failed to compare prompts: ") (compare_prompts lockfile report)
    templates ← wrap (codes "failed to compare templates: ") (compare_templates lockfile report)
    tools ← wrap (codes "failed to compare tools: ") (compare_tools lockfile report)
    let drifts = prompts ++ (templates ++ tools)
    ok (record { has_drift = not (is_empty drifts); drifts = drifts })
