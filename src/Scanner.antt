-- ===== src/Scanner.antt =====
-- scanner/engine.go: a scan of a server. The process that is started, with all it answers, is a
-- parameter; each answer depends on the ID of the request, and no two requests have one ID.
use mcptrust.Base.{
  ℕ, zero, suc, ◌+◌, Bool, true, false, not, ◌&&◌, ◌||◌, Option, none, some, List, [], ◌∷◌, ◌++◌,
  map, ◌==◌, ltb, leb, if◌then◌else◌, is_empty, length, Bytes, codes, contains, elem, bytes_lt,
  Result, ok, err, ◌>>=◌,
}
use mcptrust.Json.{ℤ, pos, negsuc, Fields}
use mcptrust.Models.{
  RiskLevel, low, medium, high, Tool, Resource, Prompt, ResourceTemplate, ServerInfo, ScanReport,
}
pub mod Pages
pub mod Risk
pub mod Command
pub mod Report

pub record RpcError : Type 0 where
  pub code : ℤ
  pub message : Bytes

-- A response; `none` is nil.
pub record Response (A : Type 0) : Type 0 where
  pub error : Option RpcError
  pub result : Option A

pub record Page (A : Type 0) : Type 0 where
  pub items : List A
  pub next_cursor : Bytes

pub record McpTool : Type 0 where
  pub name : Bytes
  pub description : Bytes
  pub input_schema : Option Fields

-- What a started server gives back to each request, or the error of sendRequest.
pub record Server : Type 0 where
  pub initialize : ℕ → Result Bytes (Response ServerInfo)
  pub initialized : Result {0} Bytes Unit
  pub tools : ℕ → Result Bytes (Response (List McpTool))
  pub resources : ℕ → Result Bytes (Response (List Resource))
  pub prompts : ℕ → Bytes → Result Bytes (Response (Page Prompt))
  pub templates : ℕ → Bytes → Result Bytes (Response (Page ResourceTemplate))

abbrev pub max_pagination_pages : ℕ
max_pagination_pages = 100

abbrev pub max_scan_items_total : ℕ
max_scan_items_total = 10000

-- The JSON-RPC code -32601.
unfoldable pub is_method_not_found : ℤ → Bool
is_method_not_found (pos n) = false
is_method_not_found (negsuc n) = n == 32600

-- The part of a round behind the request: the loop ends, or goes on with a cursor.
pub data Turn (A : Type 0) : Type 0 where
  done : Result Bytes (List A) → Turn A
  again : Bytes → List A → Turn A

-- The texts of the errors of the requests, with the numbers by %d.
module _ (show_int : ℤ → Bytes) where
  unfoldable pub rpc_text : Bytes → RpcError → Bytes
  rpc_text what e =
      what ++ (codes ": " ++ (e.message ++ (codes " (code: " ++ (show_int e.code ++ codes ")"))))

  unfoldable pub too_many_text : Bytes → ℕ → Bytes
  too_many_text noun n =
      codes "scan limit exceeded: too many items accumulated: "
      ++ (noun
          ++ (codes " list accumulated "
              ++ (show_int (pos n)
                  ++ (codes " items, limit is " ++ show_int (pos max_scan_items_total)))))

  module _ {A : Type 0} (method noun : Bytes) where
    unfoldable pub turn_page : Page A → List Bytes → List A → Turn A
    unfolding too_many_text
    turn_page page seen items =
        if ltb max_scan_items_total (length items + length page.items)
        then done (err (too_many_text noun (length items + length page.items)))
        else if is_empty page.next_cursor || elem page.next_cursor seen
        then done (ok (items ++ page.items))
        else again page.next_cursor (items ++ page.items)

    turn_result : Option (Page A) → List Bytes → List A → Turn A
    unfolding turn_page
    turn_result none seen items = done (ok items)
    turn_result (some page) seen items = turn_page page seen items

    turn_response : Option RpcError → Option (Page A) → List Bytes → List A → Turn A
    unfolding turn_result is_method_not_found rpc_text
    turn_response none result seen items = turn_result result seen items
    turn_response (some e) result seen items =
        if is_method_not_found e.code
        then done (ok [])
        else done (err (rpc_text (method ++ codes " error") e))

    unfoldable pub turn : Result Bytes (Response (Page A)) → List Bytes → List A → Turn A
    unfolding turn_response
    turn (err e) seen items = done (err (method ++ (codes " request failed: " ++ e)))
    turn (ok response) seen items = turn_response response.error response.result seen items

    -- The loop of ListPrompts and of ListResourceTemplates, with the last ID that was used.
    unfoldable pub list_pages :
        (ℕ → Bytes → Result Bytes (Response (Page A)))
        → ℕ
        → ℕ
        → Bytes
        → List Bytes
        → List A
        → ℕ × Result Bytes (List A)
    unfolding turn
    list_pages answer zero id cursor seen items = (id, ok items)
    list_pages answer (suc pages) id cursor seen items =
        elim (turn (answer (suc id) cursor) seen items) [
          | done r ↦ (suc id, r)
          | again next more ↦ list_pages answer pages (suc id) next (next ∷ seen) more
        ]

  unfoldable pub list_prompts : Server → ℕ → ℕ × Result Bytes (List Prompt)
  unfolding list_pages
  list_prompts server id =
      list_pages (codes "prompts/list") (codes "prompts") server.prompts max_pagination_pages id []
        [] []

  unfoldable pub list_resource_templates : Server → ℕ → ℕ × Result Bytes (List ResourceTemplate)
  unfolding list_pages
  list_resource_templates server id =
      list_pages (codes "resources/templates/list") (codes "resource templates") server.templates
        max_pagination_pages id [] [] []

  list_items : {A : Type 0} → Response (List A) → List A
  list_items response = elim response.result [ none ↦ [] | some items ↦ items ]

  unfoldable pub list_tools : Server → ℕ → ℕ × Result Bytes (List McpTool)
  unfolding list_items rpc_text
  list_tools server id = (
    suc id,
    elim (server.tools (suc id)) [
      | err e ↦ err (codes "tools/list request failed: " ++ e)
      | ok response ↦ elim response.error [
        | some e ↦ err (rpc_text (codes "MCP error") e)
        | none ↦ ok (list_items response)
      ]
    ],
  )

  -- An error that the server reports is an empty list.
  unfoldable pub list_resources : Server → ℕ → ℕ × Result Bytes (List Resource)
  unfolding list_items
  list_resources server id = (
    suc id,
    elim (server.resources (suc id)) [
      | err e ↦ err (codes "resources/list request failed: " ++ e)
      | ok response ↦ elim response.error [ some e ↦ ok [] | none ↦ ok (list_items response) ]
    ],
  )

  unfoldable pub initialize : Server → ℕ → ℕ × Result Bytes ServerInfo
  unfolding rpc_text
  initialize server id = (
    suc id,
    elim (server.initialize (suc id)) [
      | err e ↦ err (codes "initialize request failed: " ++ e)
      | ok response ↦ elim response.error [
        | some e ↦ err (rpc_text (codes "MCP error") e)
        | none ↦ elim response.result [
          | none ↦ err (codes "empty initialize response")
          | some info ↦ elim server.initialized [
            | err e ↦ err (codes "failed to send initialized notification: " ++ e)
            | ok u ↦ ok info
          ]
        ]
      ]
    ],
  )
