-- ===== src/Locker/Build.antt =====
-- locker/builder_v3.go: the v3 lockfile of a scan.
use mcptrust.Base.{
  Option, none, some, List, [], ◌∷◌, ◌++◌, if◌then◌else◌, is_empty, Bytes, codes, bytes_lt, GoMap,
  insert, Result, ok, ◌>>=◌,
}
use mcptrust.Models.{
  Tool, Prompt, ResourceTemplate, ServerInfo, ScanReport, ArtifactPin, ToolLock, PromptDefinition,
  ResourceTemplateLock, LockfileV3,
}
use mcptrust.Locker.Canonical.{Encoding}
use mcptrust.Locker.Hash.{
  hash_string, hash_json, hash_normalized_string, hash_prompt_arguments, hash_template,
}

-- sort.Slice by uriTemplate; locks of one template keep their order here, which Go leaves open.
unfoldable pub insert_lock :
    ResourceTemplateLock → List ResourceTemplateLock → List ResourceTemplateLock
insert_lock l [] = l ∷ []
insert_lock l (k ∷ ks) =
    if bytes_lt k.uri_template l.uri_template then k ∷ insert_lock l ks else l ∷ k ∷ ks

unfoldable pub sort_locks : List ResourceTemplateLock → List ResourceTemplateLock
sort_locks [] = []
sort_locks (l ∷ ls) = insert_lock l (sort_locks ls)

-- The current time as RFC 3339 text, and version.BuildVersion().
pub record Stamp : Type 0 where
  pub updated_at : Bytes
  pub build_version : Bytes

module _ (enc : Encoding) where
  unfoldable pub prompt_definition : Prompt → Bytes → PromptDefinition
  prompt_definition p args_hash = record {
    arguments_hash = args_hash;
    title_hash = [];
    description_hash =
        if is_empty p.description then [] else hash_normalized_string enc p.description;
  }

  -- The loop of buildPrompts, over the definitions made so far.
  unfoldable pub build_prompts :
      List Prompt → GoMap PromptDefinition → Result Bytes (GoMap PromptDefinition)
  build_prompts [] definitions = ok definitions
  build_prompts (p ∷ ps) definitions = hash_prompt_arguments enc p.arguments >>= λ args_hash.
      build_prompts ps (insert p.name (prompt_definition p args_hash) definitions)

  unfoldable pub template_lock : ResourceTemplate → Bytes → ResourceTemplateLock
  template_lock t template_hash = record {
    uri_template = t.uri_template;
    template_hash = template_hash;
    name_hash = if is_empty t.name then [] else hash_normalized_string enc t.name;
    description_hash =
        if is_empty t.description then [] else hash_normalized_string enc t.description;
    mime_type = t.mime_type;
  }

  unfoldable pub template_locks : List ResourceTemplate → Result Bytes (List ResourceTemplateLock)
  template_locks [] = ok []
  template_locks (t ∷ ts) = hash_template enc t.uri_template t.mime_type >>= λ h.
      template_locks ts >>= λ locks. ok (template_lock t h ∷ locks)

  unfoldable pub build_templates : List ResourceTemplate → Result Bytes (List ResourceTemplateLock)
  build_templates ts = template_locks ts >>= λ locks. ok (sort_locks locks)

  unfoldable pub tool_lock : Tool → Bytes → ToolLock
  tool_lock t schema_hash = record {
    description_hash = hash_string enc t.description;
    input_schema_hash = schema_hash;
    risk_level = t.risk_level;
  }

  unfoldable pub build_tools : List Tool → GoMap ToolLock → Result Bytes (GoMap ToolLock)
  build_tools [] result = ok result
  build_tools (t ∷ ts) result = hash_json enc t.input_schema >>= λ schema_hash.
      build_tools ts (insert t.name (tool_lock t schema_hash) result)

  server_name : Option ServerInfo → Bytes
  server_name none = []
  server_name (some info) = info.name

  unfoldable pub build : Stamp → ScanReport → Result Bytes LockfileV3
  unfolding server_name
  build stamp report = do
    prompts ← build_prompts report.prompts []
    templates ← build_templates report.resource_templates
    tools ← build_tools report.tools []
    ok (record {
      lock_file_version = codes "3.0";
      meta = record {
        generator = codes "mcptrust " ++ stamp.build_version;
        updated_at = stamp.updated_at;
      };
      server = record { name = server_name report.server_info; artifact = none };
      prompts = prompts;
      templates = templates;
      tools = tools;
    })

unfoldable pub set_artifact : LockfileV3 → Option ArtifactPin → LockfileV3
set_artifact lockfile pin = record lockfile {
  server = record { name = lockfile.server.name; artifact = pin };
}
