-- ===== src/Policy/Rules.antt =====
-- policy/engine.go: which policies pass.
use mcptrust.Base.{
  ◌≡◌, ◌≢◌, refl, ◌∙◌, subst, is_empty, codes, arith, bytes_eq, bytes_eq_refl, bytes_eq→ne,
  ne→bytes_eq, ap₂, sym, ◌↔◌, ◌⊎◌, inl, inr, true, false, List, [], ◌∷◌, map, All, Bytes,
  Bool-cases, Result, ok, err, succeeds,
}
use mcptrust.Json.{Fields}
use mcptrust.Models.{policy_severity_error, PolicyRule, PolicyResult}
use mcptrust.Proxy.Preflight.{is_violation, policy_gate}
use mcptrust.Policy.{
  CelValue, truth, other, Cel, max_cel_cost, rule_severity, value_result, eval_result,
  program_result, compile_result, evaluate_rule, evaluate_rules, failed_result,
}

eval-passed :
    (rule : PolicyRule) (r : Result Bytes CelValue)
    → (eval_result rule r).passed ≡ true
    → r ≡ ok (truth true)
unfolding eval_result value_result failed_result
eval-passed rule (err e) h = cc
eval-passed rule (ok (truth true)) h = refl
eval-passed rule (ok (truth false)) h = cc
eval-passed rule (ok (other type)) h = cc

eval-severity :
    (rule : PolicyRule) (r : Result Bytes CelValue)
    → (eval_result rule r).severity ≡ rule_severity rule
unfolding eval_result value_result failed_result
eval-severity rule (err e) = refl
eval-severity rule (ok (truth true)) = refl
eval-severity rule (ok (truth false)) = refl
eval-severity rule (ok (other type)) = refl

eval-rule_name :
    (rule : PolicyRule) (r : Result Bytes CelValue) → (eval_result rule r).rule_name ≡ rule.name
unfolding eval_result value_result failed_result
eval-rule_name rule (err e) = refl
eval-rule_name rule (ok (truth true)) = refl
eval-rule_name rule (ok (truth false)) = refl
eval-rule_name rule (ok (other type)) = refl

unviolated :
    (r : PolicyResult)
    → is_violation r ≡ false
    → (r.passed ≡ true) ⊎ (bytes_eq r.severity policy_severity_error ≡ false)
unfolding is_violation
unviolated r v = elim (Bool-cases r.passed) [ inl p ↦ inl p | inr p ↦ inr (ground arith) ]

passed-violation : (r : PolicyResult) → r.passed ≡ true → is_violation r ≡ false
unfolding is_violation
passed-violation r p = rw (p) refl

milder-violation :
    (r : PolicyResult) → bytes_eq r.severity policy_severity_error ≡ false → is_violation r ≡ false
unfolding is_violation
milder-violation r m = elim (Bool-cases r.passed) [ inl p ↦ rw (p) refl | inr p ↦ rw (p, m) refl ]

is_empty→nil : (s : Bytes) → is_empty s ≡ true → s ≡ []
is_empty→nil [] h = refl
is_empty→nil (c ∷ s) h = cc

-- The rule names a severity of its own, which is not "error".
abbrev pub IsMilder : PolicyRule → Type 0
IsMilder rule = (rule.severity ≢ []) × (rule.severity ≢ codes "error")

rule_severity-IsMilder :
    (rule : PolicyRule)
    → bytes_eq (rule_severity rule) policy_severity_error ≡ false
    → IsMilder rule
unfolding rule_severity
rule_severity-IsMilder rule h = elim (Bool-cases (is_empty rule.severity)) [
  | inl absent ↦
      (let no : bytes_eq policy_severity_error policy_severity_error ≡ false =
          ground (arith, absent) in
        let same = bytes_eq_refl policy_severity_error in absurd cc)
  | inr named ↦ (
    λ e. (let empty : is_empty rule.severity ≡ true = rw e refl in cc),
    bytes_eq→ne rule.severity policy_severity_error (ground arith),
  )
]

IsMilder-rule_severity :
    (rule : PolicyRule)
    → IsMilder rule
    → bytes_eq (rule_severity rule) policy_severity_error ≡ false
unfolding rule_severity
IsMilder-rule_severity rule (named, milder) = elim (Bool-cases (is_empty rule.severity)) [
  | inl absent ↦ absurd (named (is_empty→nil rule.severity absent))
  | inr given ↦ rw given (ne→bytes_eq rule.severity policy_severity_error milder)
]

module _ {Ast Program : Type 0} (cel : Cel Ast Program) (input : Fields) where
  -- The expression of the rule compiles, within the limit of the cost, and evaluates to true.
  abbrev pub Holds : PolicyRule → Type 0
  Holds rule =
      (ast : Ast) × (program : Program) × (cel.compile rule.expr ≡ ok ast)
      × (cel.program max_cel_cost ast ≡ ok program)
      × (cel.eval program input ≡ ok (truth true))

  -- A rule of another severity than "error", such as "warn", need not hold.
  abbrev pub IsMet : PolicyRule → Type 0
  IsMet rule = IsMilder rule ⊎ Holds rule

  result_of : PolicyRule → PolicyResult
  unfolding compile_result
  result_of rule = compile_result cel rule input (cel.compile rule.expr)

  program-passed :
      (rule : PolicyRule) (r : Result Bytes Program)
      → (program_result cel rule input r).passed ≡ true
      → (program : Program) × (r ≡ ok program) × (cel.eval program input ≡ ok (truth true))
  unfolding program_result failed_result
  program-passed rule (err e) h = cc
  program-passed rule (ok program) h = (program, refl, eval-passed rule (cel.eval program input) h)

  compile-passed :
      (rule : PolicyRule) (r : Result Bytes Ast)
      → (compile_result cel rule input r).passed ≡ true
      → (ast : Ast) × (program : Program) × (r ≡ ok ast)
        × (cel.program max_cel_cost ast ≡ ok program)
        × (cel.eval program input ≡ ok (truth true))
  unfolding compile_result failed_result
  compile-passed rule (err e) h = cc
  compile-passed rule (ok ast) h =
      let rest = program-passed rule (cel.program max_cel_cost ast) h in
      (ast, rest.0, refl, rest.1, rest.2)

  -- What a result says of its rule besides the verdict.
  abbrev IsOf : PolicyRule → PolicyResult → Type 0
  IsOf rule r = (r.rule_name ≡ rule.name) × (r.severity ≡ rule_severity rule)

  program-IsOf :
      (rule : PolicyRule) (r : Result Bytes Program) → IsOf rule (program_result cel rule input r)
  unfolding program_result failed_result
  program-IsOf rule (err e) = (refl, refl)
  program-IsOf rule (ok program) =
      (eval-rule_name rule (cel.eval program input), eval-severity rule (cel.eval program input))

  compile-IsOf :
      (rule : PolicyRule) (r : Result Bytes Ast) → IsOf rule (compile_result cel rule input r)
  unfolding compile_result failed_result
  compile-IsOf rule (err e) = (refl, refl)
  compile-IsOf rule (ok ast) = program-IsOf rule (cel.program max_cel_cost ast)

  Holds→passed : (rule : PolicyRule) → Holds rule → (result_of rule).passed ≡ true
  unfolding result_of compile_result program_result eval_result value_result
  Holds→passed rule (ast, program, c, p, v) = rw (c, p, v) refl

  no_violation→IsMet : (rule : PolicyRule) → is_violation (result_of rule) ≡ false → IsMet rule
  unfolding result_of
  no_violation→IsMet rule v = elim (unviolated (result_of rule) v) [
    | inl p ↦ inr (compile-passed rule (cel.compile rule.expr) p)
    | inr m ↦ inl (
        rule_severity-IsMilder rule (
          subst (λ s. bytes_eq s policy_severity_error ≡ false)
            (compile-IsOf rule (cel.compile rule.expr)).1 m))
  ]

  IsMet→no_violation : (rule : PolicyRule) → IsMet rule → is_violation (result_of rule) ≡ false
  unfolding result_of
  IsMet→no_violation rule (inl m) = milder-violation (result_of rule) (
      subst (λ s. bytes_eq s policy_severity_error ≡ false)
        (sym (compile-IsOf rule (cel.compile rule.expr)).1) (IsMilder-rule_severity rule m))
  IsMet→no_violation rule (inr h) = passed-violation (result_of rule) (Holds→passed rule h)

  open_gate→IsMet :
      (quote : Bytes → Bytes) (rules : List PolicyRule)
      → succeeds (policy_gate quote false false (map result_of rules)) ≡ true
      → All IsMet rules
  unfolding policy_gate
  open_gate→IsMet quote [] h = tt
  open_gate→IsMet quote (rule ∷ rules) h = elim (Bool-cases (is_violation (result_of rule))) [
    | inl v ↦
        (let no : succeeds (policy_gate quote false false (map result_of (rule ∷ rules))) ≡ false =
            rw (v) refl in
          cc)
    | inr v ↦ (
      no_violation→IsMet rule v,
      open_gate→IsMet quote rules (
          let same : succeeds (policy_gate quote false false (map result_of (rule ∷ rules)))
              ≡ succeeds (policy_gate quote false false (map result_of rules)) =
            rw (v) refl in
          sym same ∙ h),
    )
  ]

  IsMet→open_gate :
      (quote : Bytes → Bytes) (rules : List PolicyRule)
      → All IsMet rules
      → succeeds (policy_gate quote false false (map result_of rules)) ≡ true
  unfolding policy_gate
  IsMet→open_gate quote [] h = refl
  IsMet→open_gate quote (rule ∷ rules) h =
      rw (IsMet→no_violation rule h.0) (IsMet→open_gate quote rules h.1)

  rule_names :
      (rules : List PolicyRule)
      → map (λ (r : PolicyResult). r.rule_name) (map result_of rules)
        ≡ map (λ (r : PolicyRule). r.name) rules
  unfolding result_of
  rule_names [] = refl
  rule_names (rule ∷ rules) =
      ap₂ (λ n ns. n ∷ ns) (compile-IsOf rule (cel.compile rule.expr)).0 (rule_names rules)

  all_results :
      (quote : Bytes → Bytes) (rules : List PolicyRule)
      → evaluate_rules cel quote rules input ≡ ok (map result_of rules)
  unfolding evaluate_rules evaluate_rule result_of
  all_results quote [] = refl
  all_results quote (rule ∷ rules) = rw (all_results quote rules) refl

  -- Evaluating rules always gives one result for each, under its name. With these results the proxy
  -- starts in enforcing mode exactly when each rule holds or names a severity other than "error": a
  -- rule that does not compile, costs too much, fails or gives no boolean counts as violated, and a
  -- rule that names no severity must hold.
  pub evaluate_rules-IsMet :
      (quote : Bytes → Bytes) (rules : List PolicyRule)
      → (results : List PolicyResult) × (evaluate_rules cel quote rules input ≡ ok results)
        × (map (λ (r : PolicyResult). r.rule_name) results ≡ map (λ (r : PolicyRule). r.name) rules)
        × ((succeeds (policy_gate quote false false results) ≡ true) ↔ All IsMet rules)
  evaluate_rules-IsMet quote rules = (
    map result_of rules,
    all_results quote rules,
    rule_names rules,
    (open_gate→IsMet quote rules, IsMet→open_gate quote rules),
  )
