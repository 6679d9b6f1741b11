-- ===== src/Models.antt =====
-- The data of the lockfile and of a scan: models/lockfile.go, models/lockfile_v3.go,
-- models/policy.go and models/report.go. The empty string is Go's "absent" for a field marked omitempty.
use mcptrust.Base.{ℕ, Bool, Option, List, Bytes, codes, GoMap}
use mcptrust.Json.{Fields}

pub data RiskLevel : Type 0 where
  low medium high : RiskLevel

abbrev pub risk_text : RiskLevel → Bytes
risk_text low = codes "low"
risk_text medium = codes "medium"
risk_text high = codes "high"

pub record Tool : Type 0 where
  pub name : Bytes
  pub description : Bytes
  -- `none` is the nil map.
  pub input_schema : Option Fields
  pub risk_level : RiskLevel
  pub risk_reasons : List Bytes

pub record Resource : Type 0 where
  pub uri : Bytes
  pub name : Bytes
  pub description : Bytes
  pub mime_type : Bytes

pub record PromptArgument : Type 0 where
  pub name : Bytes
  pub description : Bytes
  pub required : Bool

pub record Prompt : Type 0 where
  pub name : Bytes
  pub description : Bytes
  pub arguments : List PromptArgument

pub record ResourceTemplate : Type 0 where
  pub uri_template : Bytes
  pub name : Bytes
  pub description : Bytes
  pub mime_type : Bytes

pub record ServerInfo : Type 0 where
  pub name : Bytes
  pub version : Bytes
  pub protocol_version : Bytes

pub record ScanReport : Type 0 where
  pub timestamp : ℕ
  pub command : Bytes
  pub server_info : Option ServerInfo
  pub tools : List Tool
  pub resources : List Resource
  pub prompts : List Prompt
  pub resource_templates : List ResourceTemplate
  pub error : Bytes

pub data ArtifactType : Type 0 where
  npm oci local : ArtifactType

pub data ProvenanceMethod : Type 0 where
  unset cosign_slsa npm_audit_sigs unverified : ProvenanceMethod

pub record ProvenanceInfo : Type 0 where
  pub method : ProvenanceMethod
  pub predicate_type : Bytes
  pub builder_id : Bytes
  pub source_repo : Bytes
  pub source_ref : Bytes
  pub workflow_uri : Bytes
  pub issuer : Bytes
  pub identity : Bytes
  pub verified : Bool
  pub verified_at : Bytes

pub record ArtifactPin : Type 0 where
  pub type : ArtifactType
  pub name : Bytes
  pub version : Bytes
  pub registry : Bytes
  pub integrity : Bytes
  pub tarball_url : Bytes
  pub tarball_sha256 : Bytes
  pub tarball_size : ℕ
  pub image : Bytes
  pub digest : Bytes
  pub provenance : Option ProvenanceInfo

pub record ToolLock : Type 0 where
  pub description_hash : Bytes
  pub input_schema_hash : Bytes
  pub risk_level : RiskLevel

pub record Lockfile : Type 0 where
  pub version : Bytes
  pub server_command : Bytes
  pub artifact : Option ArtifactPin
  pub tools : GoMap ToolLock

pub record LockfileMeta : Type 0 where
  pub generator : Bytes
  pub updated_at : Bytes

pub record LockfileServer : Type 0 where
  pub name : Bytes
  pub artifact : Option ArtifactPin

pub record PromptDefinition : Type 0 where
  pub arguments_hash : Bytes
  pub title_hash : Bytes
  pub description_hash : Bytes

pub record ResourceTemplateLock : Type 0 where
  pub uri_template : Bytes
  pub template_hash : Bytes
  pub name_hash : Bytes
  pub description_hash : Bytes
  pub mime_type : Bytes

pub record LockfileV3 : Type 0 where
  pub lock_file_version : Bytes
  pub meta : LockfileMeta
  pub server : LockfileServer
  -- prompts.definitions, resources.templates and tools of the file.
  pub prompts : GoMap PromptDefinition
  pub templates : List ResourceTemplateLock
  pub tools : GoMap ToolLock

-- models/policy.go.
abbrev pub PolicySeverity : Type 0
PolicySeverity = Bytes

abbrev pub policy_severity_warn : PolicySeverity
policy_severity_warn = codes "warn"

abbrev pub policy_severity_error : PolicySeverity
policy_severity_error = codes "error"

-- The fields of a rule that its evaluation reads; an absent severity is empty.
pub record PolicyRule : Type 0 where
  pub name : Bytes
  pub expr : Bytes
  pub failure_msg : Bytes
  pub severity : PolicySeverity

pub record PolicyResult : Type 0 where
  pub rule_name : Bytes
  pub passed : Bool
  pub failure_msg : Bytes
  pub severity : PolicySeverity
