-- ===== src/Policy.antt =====
-- policy/engine.go: the rules of a policy are CEL expressions over what was scanned. The CEL library is
-- a parameter.
use mcptrust.Base.{
  ℕ, Bool, true, false, Option, none, some, List, [], ◌∷◌, ◌++◌, if◌then◌else◌, is_empty, Bytes,
  codes, Result, ok, err, ◌>>=◌,
}
use mcptrust.Json.{Value, bool, str, obj, arr, Items, nil, cons, Fields, end, field, set_field}
use mcptrust.Models.{
  risk_text, Tool, Resource, ServerInfo, ScanReport, ArtifactType, npm, oci, local,
  ProvenanceMethod, unset, cosign_slsa, npm_audit_sigs, unverified, ProvenanceInfo, ArtifactPin,
  Lockfile, PolicySeverity, policy_severity_error, PolicyRule, PolicyResult,
}
pub mod Rules
pub mod Exposed

-- What an expression evaluates to: a boolean, or a value of the named Go type.
pub data CelValue : Type 0 where
  truth : Bool → CelValue
  other : Bytes → CelValue

-- Compiling, planning with a limit of the cost, and evaluation over the variable "input".
pub record Cel (Ast Program : Type 0) : Type 0 where
  pub compile : Bytes → Result Bytes Ast
  pub program : ℕ → Ast → Result Bytes Program
  pub eval : Program → Fields → Result Bytes CelValue

abbrev pub max_cel_cost : ℕ
max_cel_cost = 1000000

-- An empty severity is "error".
unfoldable pub rule_severity : PolicyRule → PolicySeverity
rule_severity rule = if is_empty rule.severity then policy_severity_error else rule.severity

failed_result : PolicyRule → Bytes → PolicyResult
unfolding rule_severity
failed_result rule text = record {
  rule_name = rule.name;
  passed = false;
  failure_msg = text;
  severity = rule_severity rule;
}

value_result : PolicyRule → CelValue → PolicyResult
unfolding failed_result rule_severity
value_result rule (truth true) = record {
  rule_name = rule.name;
  passed = true;
  failure_msg = [];
  severity = rule_severity rule;
}
value_result rule (truth false) = failed_result rule rule.failure_msg
value_result rule (other type) =
    failed_result rule (codes "Rule expression must return boolean, got " ++ type)

eval_result : PolicyRule → Result Bytes CelValue → PolicyResult
unfolding value_result failed_result
eval_result rule (err e) = failed_result rule (codes "CEL evaluation error: " ++ e)
eval_result rule (ok v) = value_result rule v

module _ {Ast Program : Type 0} (cel : Cel Ast Program) where
  program_result : PolicyRule → Fields → Result Bytes Program → PolicyResult
  unfolding eval_result failed_result
  program_result rule input (err e) = failed_result rule (codes "CEL program error: " ++ e)
  program_result rule input (ok p) = eval_result rule (cel.eval p input)

  compile_result : PolicyRule → Fields → Result Bytes Ast → PolicyResult
  unfolding program_result failed_result
  compile_result rule input (err e) = failed_result rule (codes "CEL compile error: " ++ e)
  compile_result rule input (ok ast) = program_result rule input (cel.program max_cel_cost ast)

  unfoldable pub evaluate_rule : PolicyRule → Fields → Result Bytes PolicyResult
  unfolding compile_result
  evaluate_rule rule input = ok (compile_result rule input (cel.compile rule.expr))

  -- The loops of EvaluateWithLockfile and EvaluateWithV3Input; `quote` is %q.
  unfoldable pub evaluate_rules :
      (Bytes → Bytes) → List PolicyRule → Fields → Result Bytes (List PolicyResult)
  unfolding evaluate_rule
  evaluate_rules quote [] input = ok []
  evaluate_rules quote (rule ∷ rules) input = elim (evaluate_rule rule input) [
    | err e ↦ err (codes "failed to evaluate rule " ++ (quote rule.name ++ (codes ": " ++ e)))
    | ok result ↦ evaluate_rules quote rules input >>= λ results. ok (result ∷ results)
  ]

  compile_errors : (Bytes → Bytes) → List PolicyRule → List Bytes
  compile_errors quote [] = []
  compile_errors quote (rule ∷ rules) =
      let rest = compile_errors quote rules in
      elim (cel.compile rule.expr) [
        | ok ast ↦ rest
        | err e ↦ (codes "rule " ++ (quote rule.name ++ (codes ": " ++ e))) ∷ rest
      ]

  join_lines : List Bytes → Bytes
  join_lines [] = []
  join_lines (e ∷ []) = e
  join_lines (e ∷ f ∷ errors) = e ++ (10 ∷ 32 ∷ 32 ∷ join_lines (f ∷ errors))

  unfoldable pub compile_and_validate : (Bytes → Bytes) → List PolicyRule → Result {0} Bytes Unit
  unfolding compile_errors join_lines
  compile_and_validate quote rules =
      let errors = compile_errors quote rules in
      if is_empty errors
      then ok tt
      else err (codes "policy validation failed:" ++ (10 ∷ 32 ∷ 32 ∷ join_lines errors))

-- stringSliceToInterface.
string_items : List Bytes → Items
string_items [] = nil
string_items (s ∷ rest) = cons (str s) (string_items rest)

-- A nil schema is an empty map.
unfoldable pub tool_to_map : Tool → Value
unfolding string_items
tool_to_map t = obj (
    field (codes "name") (str t.name) (
      field (codes "description") (str t.description) (
        field (codes "input_schema") (obj (elim t.input_schema [ none ↦ end | some m ↦ m ])) (
          field (codes "risk_level") (str (risk_text t.risk_level))
            (field (codes "risk_reasons") (arr (string_items t.risk_reasons)) end)))))

unfoldable pub resource_to_map : Resource → Value
resource_to_map r = obj (
    field (codes "uri") (str r.uri) (
      field (codes "name") (str r.name) (
        field (codes "description") (str r.description)
          (field (codes "mime_type") (str r.mime_type) end))))

tool_maps : List Tool → Items
unfolding tool_to_map
tool_maps [] = nil
tool_maps (t ∷ ts) = cons (tool_to_map t) (tool_maps ts)

resource_maps : List Resource → Items
unfolding resource_to_map
resource_maps [] = nil
resource_maps (r ∷ rs) = cons (resource_to_map r) (resource_maps rs)

unfoldable pub server_info_map : ServerInfo → Value
server_info_map info = obj (
    field (codes "name") (str info.name) (
      field (codes "version") (str info.version)
        (field (codes "protocol_version") (str info.protocol_version) end)))

add_server : Option ServerInfo → Fields → Fields
unfolding server_info_map
add_server none result = result
add_server (some info) result = set_field (codes "server_info") (server_info_map info) result

unfoldable pub report_to_map : ScanReport → Fields
unfolding tool_maps resource_maps add_server
report_to_map report = add_server report.server_info (
    field (codes "command") (str report.command) (
      field (codes "tools") (arr (tool_maps report.tools)) (
        field (codes "resources") (arr (resource_maps report.resources))
          (field (codes "error") (str report.error) end))))

abbrev method_text : ProvenanceMethod → Bytes
method_text unset = []
method_text cosign_slsa = codes "cosign_slsa"
method_text npm_audit_sigs = codes "npm_audit_signatures"
method_text unverified = codes "unverified"

abbrev type_text : ArtifactType → Bytes
type_text npm = codes "npm"
type_text oci = codes "oci"
type_text local = codes "local"

unfoldable pub provenance_to_map : ProvenanceInfo → Fields
provenance_to_map p = field (codes "method") (str (method_text p.method)) (
    field (codes "predicate_type") (str p.predicate_type) (
      field (codes "builder_id") (str p.builder_id) (
        field (codes "source_repo") (str p.source_repo) (
          field (codes "source_ref") (str p.source_ref) (
            field (codes "workflow_uri") (str p.workflow_uri) (
              field (codes "issuer") (str p.issuer) (
                field (codes "identity") (str p.identity) (
                  field (codes "verified") (bool p.verified) (
                    field (codes "verified_at") (str p.verified_at) (
                      field (codes "config_source_uri") (str p.source_repo) (
                        field (codes "config_source_entrypoint") (str p.workflow_uri) end)))))))))))

unfoldable pub artifact_to_map : ArtifactPin → Fields
unfolding provenance_to_map
artifact_to_map pin =
    let result = field (codes "type") (str (type_text pin.type)) (
      field (codes "name") (str pin.name) (
        field (codes "version") (str pin.version) (
          field (codes "registry") (str pin.registry) (
            field (codes "integrity") (str pin.integrity) (
              field (codes "image") (str pin.image)
                (field (codes "digest") (str pin.digest) end)))))) in
    elim pin.provenance [
      | none ↦ result
      | some p ↦ set_field (codes "provenance") (obj (provenance_to_map p)) result
    ]

unfoldable pub is_slsa : ProvenanceMethod → Bool
is_slsa cosign_slsa = true
is_slsa npm_audit_sigs = false
is_slsa unverified = false
is_slsa unset = false

expose_provenance : Option ProvenanceInfo → Fields → Fields
unfolding is_slsa provenance_to_map
expose_provenance none input = input
expose_provenance (some p) input =
    if is_slsa p.method
    then set_field (codes "provenance") (obj (provenance_to_map p)) input
    else input

expose_artifact : Option ArtifactPin → Fields → Fields
unfolding artifact_to_map expose_provenance
expose_artifact none input = input
expose_artifact (some pin) input =
    expose_provenance pin.provenance
      (set_field (codes "artifact") (obj (artifact_to_map pin)) input)

-- The input of EvaluateWithLockfile; without a lockfile that of Evaluate.
unfoldable pub lockfile_input : ScanReport → Option Lockfile → Fields
unfolding report_to_map expose_artifact
lockfile_input report none = report_to_map report
lockfile_input report (some lockfile) = expose_artifact lockfile.artifact (report_to_map report)

unfoldable pub evaluate_with_lockfile :
    {Ast Program : Type 0}
    → Cel Ast Program
    → (Bytes → Bytes)
    → List PolicyRule
    → ScanReport
    → Option Lockfile
    → Result Bytes (List PolicyResult)
unfolding evaluate_rules lockfile_input
evaluate_with_lockfile cel quote rules report lockfile =
    evaluate_rules cel quote rules (lockfile_input report lockfile)
