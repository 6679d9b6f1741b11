-- ===== src/Scanner/Report.antt =====
-- Scan of scanner/engine.go: the report of a scan.
use mcptrust.Base.{
  ℕ, ◌+◌, ◌≡◌, refl, ap, sym, subst, true, none, some, List, [], ◌∷◌, ◌++◌, map, arith,
  if◌then◌else◌, is_empty, length, Bytes, codes, bytes_lt, Result, ok, err,
}
use mcptrust.Models.{Resource, PromptArgument, Prompt, ResourceTemplate, ServerInfo, ScanReport}
use mcptrust.Json.{ℤ}
use mcptrust.Scanner.{
  Server, McpTool, initialize, list_tools, list_resources, list_prompts, list_resource_templates,
}
use mcptrust.Scanner.Risk.{analyze_tools}
use mcptrust.Scanner.Command.{parse_command}
pub mod Sorted
pub mod Complete

-- sort.Slice by a text; items with one text keep their order here, which Go leaves open.
module _ {A : Type 0} (key : A → Bytes) where
  unfoldable pub insert_by : A → List A → List A
  insert_by a [] = a ∷ []
  insert_by a (b ∷ bs) = if bytes_lt (key b) (key a) then b ∷ insert_by a bs else a ∷ b ∷ bs

  unfoldable pub sort_by : List A → List A
  unfolding insert_by
  sort_by [] = []
  sort_by (a ∷ bs) = insert_by a (sort_by bs)

unfoldable pub sort_prompt : Prompt → Prompt
unfolding sort_by
sort_prompt p = record p { arguments = sort_by (λ (a : PromptArgument). a.name) p.arguments }

unfoldable pub sort_prompts : List Prompt → List Prompt
unfolding sort_prompt sort_by
sort_prompts ps = map sort_prompt (sort_by (λ (p : Prompt). p.name) ps)

unfoldable pub sort_templates : List ResourceTemplate → List ResourceTemplate
unfolding sort_by
sort_templates ts = sort_by (λ (t : ResourceTemplate). t.uri_template) ts

abbrev fail : ScanReport → Bytes → ScanReport
fail report text = record report { error = text }

abbrev pub new_report : ℕ → Bytes → ScanReport
new_report now command = record {
  timestamp = now;
  command = command;
  server_info = none;
  tools = [];
  resources = [];
  prompts = [];
  resource_templates = [];
  error = [];
}

module _ (lower : ℕ → ℕ) (show_int : ℤ → Bytes) where
  unfoldable pub with_templates : ScanReport → Result Bytes (List ResourceTemplate) → ScanReport
  unfolding sort_templates
  with_templates report (err e) = fail report (codes "failed to list resource templates: " ++ e)
  with_templates report (ok templates) = record report {
    resource_templates = sort_templates templates;
  }

  unfoldable pub with_prompts : Server → ScanReport → ℕ × Result Bytes (List Prompt) → ScanReport
  unfolding list_resource_templates with_templates sort_prompts
  with_prompts server report (id, err e) = fail report (codes "failed to list prompts: " ++ e)
  with_prompts server report (id, ok prompts) =
      with_templates (record report { prompts = sort_prompts prompts })
        (list_resource_templates show_int server id).1

  -- A failed request for the resources is no error.
  unfoldable pub with_resources :
      Server → ScanReport → ℕ × Result Bytes (List Resource) → ScanReport
  unfolding list_prompts with_prompts
  with_resources server report (id, err e) =
      with_prompts server (record report { resources = [] }) (list_prompts show_int server id)
  with_resources server report (id, ok resources) =
      with_prompts server (record report { resources = resources })
        (list_prompts show_int server id)

  unfoldable pub with_tools : Server → ScanReport → ℕ × Result Bytes (List McpTool) → ScanReport
  unfolding list_resources analyze_tools with_resources
  with_tools server report (id, err e) = fail report (codes "failed to list tools: " ++ e)
  with_tools server report (id, ok tools) =
      with_resources server (record report { tools = analyze_tools lower tools })
        (list_resources show_int server id)

  unfoldable pub with_handshake : Server → ScanReport → ℕ × Result Bytes ServerInfo → ScanReport
  unfolding list_tools with_tools
  with_handshake server report (id, err e) = fail report (codes "initialization failed: " ++ e)
  with_handshake server report (id, ok info) =
      with_tools server (record report { server_info = some info }) (list_tools show_int server id)

  -- Connect: the process of the command, or why it could not be started.
  unfoldable pub connect : (List Bytes → Result Bytes Server) → Bytes → Result Bytes Server
  unfolding parse_command
  connect start command =
      let parts = parse_command command in
      if is_empty parts then err (codes "empty command") else start parts

  unfoldable pub with_server : ScanReport → Result Bytes Server → ScanReport
  unfolding initialize with_handshake
  with_server report (err e) = fail report e
  with_server report (ok server) = with_handshake server report (initialize show_int server 0)

  unfoldable pub scan : (List Bytes → Result Bytes Server) → ℕ → Bytes → ScanReport
  unfolding connect with_server
  scan start now command = with_server (new_report now command) (connect start command)
