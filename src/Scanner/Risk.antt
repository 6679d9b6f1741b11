-- ===== src/Scanner/Risk.antt =====
-- RiskAnalyzer of scanner/engine.go. `lower` is unicode.ToLower, which strings.ToLower maps over the
-- code points of a text.
use mcptrust.Base.{
  ℕ, ◌≤◌, ◌≡◌, refl, ◌∙◌, ap, sym, ◌↔◌, inl, inr, true, false, List, [], ◌∷◌, ◌++◌, map,
  append_assoc, arith, if◌then◌else◌, Bool-cases, is_empty, length, All, Bytes, codes, has_prefix,
  contains,
}
use mcptrust.Models.{RiskLevel, low, medium, high, Tool}
use mcptrust.Scanner.{McpTool}

abbrev dangerous_keywords : List Bytes
dangerous_keywords =
    codes "exec"
    ∷ codes "shell"
    ∷ codes "write"
    ∷ codes "delete"
    ∷ codes "fs"
    ∷ codes "run"
    ∷ codes "execute"
    ∷ codes "bash"
    ∷ codes "command"
    ∷ codes "sudo"
    ∷ codes "rm"
    ∷ codes "remove"
    ∷ codes "kill"
    ∷ codes "spawn"
    ∷ codes "eval"
    ∷ codes "system"
    ∷ codes "popen"
    ∷ codes "subprocess"
    ∷ codes "terminal"
    ∷ []

reason : Bytes → Bytes
reason keyword = codes "contains dangerous keyword: \"" ++ (keyword ++ codes "\"")

-- The loop of assessRisk.
unfoldable pub keyword_reasons : Bytes → List Bytes → List Bytes
unfolding reason
keyword_reasons text [] = []
keyword_reasons text (k ∷ ks) =
    let rest = keyword_reasons text ks in if contains text k then reason k ∷ rest else rest

unfoldable pub level_of : List Bytes → RiskLevel × List Bytes
level_of [] = (low, [])
level_of (r ∷ []) = (medium, r ∷ [])
level_of (r ∷ s ∷ reasons) = (high, r ∷ s ∷ reasons)

abbrev pub rank : RiskLevel → ℕ
rank low = 0
rank medium = 1
rank high = 2

has_prefix-longer : (s more p : Bytes) → has_prefix s p ≡ true → has_prefix (s ++ more) p ≡ true
unfolding has_prefix
has_prefix-longer s more [] h = refl
has_prefix-longer [] more (b ∷ p) h = ground arith
has_prefix-longer (a ∷ s) more (b ∷ p) h = ground (arith, has_prefix-longer s more p)

contains-longer : (s more p : Bytes) → contains s p ≡ true → contains (s ++ more) p ≡ true
unfolding contains
contains-longer [] [] p h = h
contains-longer [] (b ∷ more) p h = ground (arith, has_prefix-longer [] (b ∷ more) p)
contains-longer (a ∷ s) more p h =
    ground (arith, has_prefix-longer (a ∷ s) more p, contains-longer s more p)

keyword_reasons-longer :
    (s more : Bytes) (ks : List Bytes)
    → length (keyword_reasons s ks) ≤ length (keyword_reasons (s ++ more) ks)
unfolding keyword_reasons
keyword_reasons-longer s more [] = omega arith
keyword_reasons-longer s more (k ∷ ks) =
    ground (arith, contains-longer s more k, keyword_reasons-longer s more ks)

-- No reason is given exactly when no keyword stands in the text.
nil-keyword_reasons :
    (s : Bytes) (ks : List Bytes)
    → is_empty (keyword_reasons s ks) ≡ true
    → All (λ k. contains s k ≡ false) ks
unfolding keyword_reasons
nil-keyword_reasons s [] h = tt
nil-keyword_reasons s (k ∷ ks) h = elim (Bool-cases (contains s k)) [
  | inl found ↦ ground arith
  | inr missing ↦ (missing, nil-keyword_reasons s ks (ground arith))
]

keyword_reasons-nil :
    (s : Bytes) (ks : List Bytes)
    → All (λ k. contains s k ≡ false) ks
    → is_empty (keyword_reasons s ks) ≡ true
unfolding keyword_reasons
keyword_reasons-nil s [] all = refl
keyword_reasons-nil s (k ∷ ks) all = rw (all.0) (keyword_reasons-nil s ks all.1)

level_of-low : (reasons : List Bytes) → (level_of reasons).0 ≡ low → is_empty reasons ≡ true
unfolding level_of
level_of-low [] h = refl
level_of-low (r ∷ []) h = cc
level_of-low (r ∷ s ∷ reasons) h = cc

low-level_of : (reasons : List Bytes) → is_empty reasons ≡ true → (level_of reasons).0 ≡ low
unfolding level_of
low-level_of [] h = refl
low-level_of (r ∷ reasons) h = cc

level_of-le :
    (rs ss : List Bytes) → length rs ≤ length ss → rank (level_of rs).0 ≤ rank (level_of ss).0
unfolding level_of
level_of-le [] ss h = omega arith
level_of-le (r ∷ []) [] h = omega (arith, h)
level_of-le (r ∷ []) (s ∷ []) h = omega arith
level_of-le (r ∷ []) (s ∷ q ∷ ss) h = omega arith
level_of-le (r ∷ t ∷ rs) [] h = omega (arith, h)
level_of-le (r ∷ t ∷ rs) (s ∷ []) h = omega (arith, h)
level_of-le (r ∷ t ∷ rs) (s ∷ q ∷ ss) h = omega arith

map-append : (f : ℕ → ℕ) (s more : Bytes) → map f (s ++ more) ≡ map f s ++ map f more
map-append f [] more = refl
map-append f (c ∷ s) more = ap (λ t. f c ∷ t) (map-append f s more)

module _ (lower : ℕ → ℕ) where
  unfoldable pub search_text : McpTool → Bytes
  search_text t = map lower (t.name ++ (32 ∷ t.description))

  unfoldable pub assess_risk : McpTool → RiskLevel × List Bytes
  unfolding search_text keyword_reasons level_of
  assess_risk t = level_of (keyword_reasons (search_text t) dangerous_keywords)

  unfoldable pub analyze_tool : McpTool → Tool
  unfolding assess_risk
  analyze_tool t = record {
    name = t.name;
    description = t.description;
    input_schema = t.input_schema;
    risk_level = (assess_risk t).0;
    risk_reasons = (assess_risk t).1;
  }

  unfoldable pub analyze_tools : List McpTool → List Tool
  unfolding analyze_tool
  analyze_tools [] = []
  analyze_tools (t ∷ ts) = analyze_tool t ∷ analyze_tools ts

  -- A tool is of low risk exactly when no dangerous keyword stands in its name, a space and its
  -- description, all in lower case.
  pub assess_risk-low :
      (t : McpTool)
      → ((assess_risk t).0 ≡ low) ↔ All (λ k. contains (search_text t) k ≡ false) dangerous_keywords
  unfolding assess_risk
  assess_risk-low t =
      let text = search_text t in
      let reasons = keyword_reasons text dangerous_keywords in
      (
        λ e. nil-keyword_reasons text dangerous_keywords (level_of-low reasons e),
        λ all. low-level_of reasons (keyword_reasons-nil text dangerous_keywords all),
      )

  search_text-longer :
      (t : McpTool) (more : Bytes)
      → search_text (record t { description = t.description ++ more })
        ≡ search_text t ++ map lower more
  unfolding search_text
  search_text-longer t more =
      ap (map lower) (sym (append_assoc t.name (32 ∷ t.description) more))
      ∙ map-append lower (t.name ++ (32 ∷ t.description)) more

  -- Text behind the description of a tool never lowers its risk level.
  pub assess_risk-le :
      (t : McpTool) (more : Bytes)
      → rank (assess_risk t).0
        ≤ rank (assess_risk (record t { description = t.description ++ more })).0
  unfolding assess_risk
  assess_risk-le t more = level_of-le (keyword_reasons (search_text t) dangerous_keywords) _ (
      rw (search_text-longer t more)
        (keyword_reasons-longer (search_text t) (map lower more) dangerous_keywords))
