-- ===== src/Locker/Manager.antt =====
-- locker/manager.go: lockfiles of the older versions and their drift. The reading and writing of files
-- is not modelled; the functions stand on the decoded lockfile.
use mcptrust.Base.{
  ◌≡◌, refl, ◌∙◌, ap, sym, ◌↔◌, inl, inr, Bool, true, false, not, Option, none, some, List, [], ◌∷◌,
  ◌++◌, arith, if◌then◌else◌, Bool-cases, Option-cases, is_some, is_empty, All, Bytes, codes,
  bytes_eq, bytes_eq_iff, GoMap, lookup, insert, Distinct, Result, ok, err, ◌>>=◌,
}
use mcptrust.Models.{
  RiskLevel, low, medium, high, risk_text, Tool, ScanReport, ProvenanceMethod, unset, unverified,
  ProvenanceInfo, ArtifactPin, ToolLock, Lockfile,
}
use mcptrust.Locker.Canonical.{Encoding}
use mcptrust.Locker.Build.{tool_lock}
use mcptrust.Locker.Hash.{hash_json}
pub mod SameTools

pub data DriftType : Type 0 where
  description_changed schema_changed risk_level_changed tool_added tool_removed : DriftType

pub record DriftItem : Type 0 where
  pub tool_name : Bytes
  pub drift_type : DriftType
  pub old_value : Bytes
  pub new_value : Bytes

abbrev same_risk : RiskLevel → RiskLevel → Bool
same_risk low low = true
same_risk medium medium = true
same_risk high high = true
same_risk _ _ = false

abbrev bare_item : DriftType → Bytes → DriftItem
bare_item type name = record { tool_name = name; drift_type = type; old_value = []; new_value = [] }

-- One of the three tests of a tool that both lockfiles hold.
changed : Bool → DriftType → Bytes → Bytes → Bytes → List DriftItem
changed same type name old new =
    if same
    then []
    else record { tool_name = name; drift_type = type; old_value = old; new_value = new } ∷ []

unfoldable pub lock_changes : Bytes → ToolLock → ToolLock → List DriftItem
unfolding changed
lock_changes name old new =
    changed (bytes_eq old.description_hash new.description_hash) description_changed name
      old.description_hash new.description_hash
    ++ (changed (bytes_eq old.input_schema_hash new.input_schema_hash) schema_changed name
          old.input_schema_hash new.input_schema_hash
        ++ changed (same_risk old.risk_level new.risk_level) risk_level_changed name
            (risk_text old.risk_level) (risk_text new.risk_level))

added_or_changed : Bytes → ToolLock → Option ToolLock → List DriftItem
unfolding lock_changes
added_or_changed name new none = bare_item tool_added name ∷ []
added_or_changed name new (some old) = lock_changes name old new

-- The first loop of DetectDrift, over the existing tools.
unfoldable pub removed_tools : GoMap ToolLock → GoMap ToolLock → List DriftItem
removed_tools [] new = []
removed_tools ((name, t) ∷ tools) new =
    let rest = removed_tools tools new in
    if is_some (lookup name new) then rest else bare_item tool_removed name ∷ rest

-- The second loop, over the new tools.
unfoldable pub changed_tools : GoMap ToolLock → GoMap ToolLock → List DriftItem
unfolding added_or_changed
changed_tools existing [] = []
changed_tools existing ((name, t) ∷ tools) =
    added_or_changed name t (lookup name existing) ++ changed_tools existing tools

unfoldable pub detect_drift : Lockfile → Lockfile → List DriftItem
unfolding removed_tools changed_tools
detect_drift existing new =
    removed_tools existing.tools new.tools ++ changed_tools existing.tools new.tools

unfoldable pub format_drift_error : DriftItem → Bytes
format_drift_error d =
    let tool = codes "Tool [" ++ d.tool_name in
    elim d.drift_type [
      | tool_added ↦ tool ++ codes "] ADDED"
      | tool_removed ↦ tool ++ codes "] REMOVED"
      | description_changed ↦ tool ++ codes "] capabilities changed (description)"
      | schema_changed ↦ tool ++ codes "] capabilities changed (schema)"
      | risk_level_changed ↦
          tool ++ (codes "] risk: " ++ (d.old_value ++ (codes " -> " ++ d.new_value)))
    ]

module _ (enc : Encoding) where
  lock_tools : List Tool → GoMap ToolLock → Result Bytes (GoMap ToolLock)
  unfolding tool_lock
  lock_tools [] tools = ok tools
  lock_tools (t ∷ ts) tools = elim (hash_json enc t.input_schema) [
    | err e ↦ err (codes "failed to hash schema for tool " ++ (t.name ++ (codes ": " ++ e)))
    | ok schema_hash ↦ lock_tools ts (insert t.name (tool_lock enc t schema_hash) tools)
  ]

  unfoldable pub create_lockfile : ScanReport → Result Bytes Lockfile
  unfolding lock_tools
  create_lockfile report = lock_tools report.tools [] >>= λ tools. ok (record {
    version = codes "2.0";
    server_command = report.command;
    artifact = none;
    tools = tools;
  })

-- Load and LoadV3: a provenance without a method is "unverified".
default_method : ProvenanceInfo → ProvenanceInfo
default_method p = elim p.method [ unset ↦ record p { method = unverified } | _ ↦ p ]

unfoldable pub default_pin : ArtifactPin → ArtifactPin
unfolding default_method
default_pin pin = elim pin.provenance [
  | none ↦ pin
  | some p ↦ record pin { provenance = some (default_method p) }
]

-- The version of the two fields of the file; `none` is the error.
unfoldable pub detect_lockfile_version : Bytes → Bytes → Option Bytes
detect_lockfile_version version lock_file_version =
    if not (is_empty lock_file_version)
    then some lock_file_version
    else if not (is_empty version)
    then some version
    else none
