-- ===== src/Scanner/Report/Complete.antt =====
-- A scan that reports no error (scanner/engine.go).
use mcptrust.Base.{ℕ, ◌≡◌, some, List, [], ◌∷◌, Bytes, Result, ok, err}
use mcptrust.Models.{Resource, Prompt, ResourceTemplate, ServerInfo, ScanReport, Tool}
use mcptrust.Json.{ℤ}
use mcptrust.Scanner.{
  Server, McpTool, initialize, list_tools, list_resources, list_prompts, list_resource_templates,
}
use mcptrust.Scanner.Report.{sort_prompts, sort_templates}
use mcptrust.Scanner.Report.Sorted.{PromptsShown, TemplatesShown}

-- The tools with what the server says of them.
abbrev pub ToolsShown : List McpTool → List Tool → Type 0
ToolsShown [] [] = Unit
ToolsShown (t ∷ ts) (u ∷ us) =
    ((u.name ≡ t.name) × (u.description ≡ t.description) × (u.input_schema ≡ t.input_schema))
    × ToolsShown ts us
ToolsShown _ _ = ⊥

-- The resources of an answer; a failed request gives none.
abbrev pub resources_or_none : Result Bytes (List Resource) → List Resource
resources_or_none (err e) = []
resources_or_none (ok resources) = resources

module _ (lower : ℕ → ℕ) (show_int : ℤ → Bytes) where
  -- What the requests behind the resources gave, and the report that holds it.
  abbrev Listed : Server → ScanReport → ScanReport → (ℕ × Result Bytes (List Prompt)) → Type 0
  Listed server report final r =
      (prompts : List Prompt) × (templates : List ResourceTemplate) × (r.1 ≡ ok prompts)
      × ((list_resource_templates show_int server r.0).1 ≡ ok templates)
      × (final ≡ record report {
        prompts = sort_prompts prompts;
        resource_templates = sort_templates templates;
      })

  -- The report of the last requests, whatever the resources were.
  abbrev Found : Server → ScanReport → List Resource → ScanReport → Type 0
  Found server report resources final =
      (prompts : List Prompt) × (templates : List ResourceTemplate) × ((list_prompts show_int server
          3).1
        ≡ ok prompts)
      × ((list_resource_templates show_int server (list_prompts show_int server 3).0).1
          ≡ ok templates)
      × (final.prompts ≡ sort_prompts prompts)
      × (final.resource_templates ≡ sort_templates templates)
      × (final.tools ≡ report.tools)
      × (final.server_info ≡ report.server_info)
      × (final.resources ≡ resources)

  -- What the server answered, and the report that shows it.
  pub record Reported (server : Server) (report : ScanReport) : Type 0 where
    pub info : ServerInfo
    pub tools : List McpTool
    pub prompts : List Prompt
    pub templates : List ResourceTemplate
    pub info_answered : (initialize show_int server 0).1 ≡ ok info
    pub tools_answered : (list_tools show_int server 1).1 ≡ ok tools
    pub prompts_answered : (list_prompts show_int server 3).1 ≡ ok prompts
    pub templates_answered :
        (list_resource_templates show_int server (list_prompts show_int server 3).0).1
        ≡ ok templates
    pub info_shown : report.server_info ≡ some info
    pub tools_shown : ToolsShown tools report.tools
    pub resources_shown : report.resources ≡ resources_or_none (list_resources show_int server 2).1
    pub prompts_shown : PromptsShown prompts report.prompts
    pub templates_shown : TemplatesShown templates report.resource_templates
