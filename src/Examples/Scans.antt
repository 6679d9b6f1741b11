-- ===== src/Examples/Scans.antt =====
-- Scans, older lockfiles, policies and redaction on small inputs.
use mcptrust.Base.{
  ℕ, ◌+◌, ◌≤◌, ◌≡◌, refl, subst, ok-injective, ◌↔◌, true, false, some, none, List, [], ◌∷◌, All,
  Bytes, codes, bytes_eq, Result, ok, err, has_prefix, lookup, map, succeeds, is_some, arith,
  split_first,
}
use mcptrust.Json.{ℤ, negsuc, Fields, end}
use mcptrust.Models.{low, ToolLock, Lockfile, PolicyRule, PolicyResult, policy_severity_warn}
use mcptrust.Scanner.{Response, Page, Server, list_pages, max_pagination_pages}
use mcptrust.Scanner.Pages.{Within, list_pages-Within, list_pages-AreServed}
use mcptrust.Locker.Manager.{detect_drift}
use mcptrust.Locker.Manager.SameTools.{SameTools, detect_drift-SameTools}
use mcptrust.Differ.Translator.{add, Operation}
use mcptrust.Differ.Engine.{compute_diff}
use mcptrust.Differ.Engine.Unchanged.{IsUnchanged, no_changes, compute_diff-IsUnchanged}
use mcptrust.Policy.{truth, Cel, evaluate_rules}
use mcptrust.Policy.Rules.{IsMet, evaluate_rules-IsMet}
use mcptrust.Policy.Exposed.{HasSlsa, exposed, exposed-HasSlsa}
use mcptrust.Proxy.Preflight.{policy_gate}
use mcptrust.Redact.{redact_args}
use mcptrust.Redact.Cleaned.{AreClean, KeepsPlaces, redact_args-AreClean}
use mcptrust.Examples.Drift.{plain, scanned}

abbrev show : ℤ → Bytes
show i = codes "n"

-- Two pages of one item each; the cursor of the second is "b".
abbrev two_pages : ℕ → Bytes → Result Bytes (Response (Page ℕ))
two_pages id [] =
    ok (record { error = none; result = some (record { items = 1 ∷ []; next_cursor = codes "b" }) })
two_pages id (c ∷ cursor) =
    ok (record { error = none; result = some (record { items = 2 ∷ []; next_cursor = [] }) })

list_pages-AreServed_example :
    list_pages show
      (codes "prompts/list")
      (codes "prompts")
      two_pages
      max_pagination_pages
      3
      []
      []
      []
    ≡ (5, ok (1 ∷ 2 ∷ []))
unfolding lookup
list_pages-AreServed_example =
    list_pages-AreServed show (codes "prompts/list") (codes "prompts") two_pages
      max_pagination_pages 3 [] [] [] (1 ∷ []) ((codes "b", 2 ∷ []) ∷ [])
      ((λ id. refl), refl, (λ id. refl)) (refl, tt) (refl, tt) (omega arith) (omega arith)

list_pages-Within_example :
    Within
      (list_pages show
        (codes "prompts/list")
        (codes "prompts")
        two_pages
        max_pagination_pages
        3
        []
        []
        []).1
    × ((list_pages show
          (codes "prompts/list")
          (codes "prompts")
          two_pages
          max_pagination_pages
          3
          []
          []
          []).0
        ≤ 3 + max_pagination_pages)
list_pages-Within_example =
    list_pages-Within show (codes "prompts/list") (codes "prompts") two_pages max_pagination_pages 3
      [] [] [] (omega arith)

-- A server with one tool and nothing else.
abbrev small_server : Server
small_server = record {
  initialize = λ id. ok (record {
    error = none;
    result =
        some
          (record { name = codes "s"; version = codes "1"; protocol_version = codes "2024-11-05" });
  });
  initialized = ok tt;
  tools = λ id. ok (record {
    error = none;
    result =
        some (record { name = codes "run"; description = codes "Runs"; input_schema = none } ∷ []);
  });
  resources = λ id. err (codes "closed");
  prompts = λ id cursor. ok (record {
    error = some (record { code = negsuc 32600; message = codes "no" });
    result = none;
  });
  templates = λ id cursor. ok (record { error = none; result = none });
}

abbrev same_letter : ℕ → ℕ
same_letter c = c

abbrev read_lock : ToolLock
read_lock = record {
  description_hash = codes "sha256:Reads";
  input_schema_hash = codes "h";
  risk_level = low;
}

abbrev old_lockfile : Lockfile
old_lockfile = record {
  version = codes "2.0";
  server_command = codes "srv";
  artifact = none;
  tools = (codes "read", read_lock) ∷ [];
}

detect_drift-SameTools_example :
    (detect_drift old_lockfile old_lockfile ≡ []) ↔ SameTools old_lockfile old_lockfile
unfolding lookup
detect_drift-SameTools_example =
    detect_drift-SameTools old_lockfile old_lockfile (refl, tt) (refl, tt)

-- A comparison that reports the addition of each whole schema.
abbrev one_addition : Fields → Result Bytes (List Operation)
one_addition schema = ok (record { type = add; path = codes "/properties/a" } ∷ [])

one_addition-adds :
    (schema : Fields) (ps : List Operation)
    → one_addition schema ≡ ok ps
    → All (λ (o : Operation). o.type ≡ add) ps
one_addition-adds schema ps h =
    subst (All (λ (o : Operation). o.type ≡ add))
      (ok-injective (record { type = add; path = codes "/properties/a" } ∷ []) ps _ refl h)
      (refl, tt)

compute_diff-IsUnchanged_example :
    (compute_diff plain (λ s. s) one_addition old_lockfile scanned ≡ ok no_changes)
    ↔ IsUnchanged plain (λ s. s) one_addition old_lockfile scanned
compute_diff-IsUnchanged_example =
    compute_diff-IsUnchanged plain (λ s. s) one_addition old_lockfile scanned one_addition-adds

-- Expressions are their own programs; only "true" evaluates to true.
abbrev small_cel : Cel Bytes Bytes
small_cel = record {
  compile = λ expr. ok expr;
  program = λ cost ast. ok ast;
  eval = λ program input. ok (truth (bytes_eq program (codes "true")));
}

abbrev two_rules : List PolicyRule
two_rules =
    record { name = codes "a"; expr = codes "true"; failure_msg = []; severity = [] }
    ∷ record {
      name = codes "b";
      expr = codes "false";
      failure_msg = codes "m";
      severity = policy_severity_warn;
    }
    ∷ []

evaluate_rules-IsMet_example :
    (results : List PolicyResult) × (evaluate_rules small_cel (λ s. s) two_rules end ≡ ok results)
    × (map (λ (r : PolicyResult). r.rule_name) results ≡ map (λ (r : PolicyRule). r.name) two_rules)
    × ((succeeds (policy_gate (λ s. s) false false results) ≡ true)
        ↔ All (IsMet small_cel end) two_rules)
evaluate_rules-IsMet_example = evaluate_rules-IsMet small_cel end (λ s. s) two_rules

exposed-HasSlsa_example :
    (is_some (exposed scanned (some old_lockfile)) ≡ true) ↔ HasSlsa (some old_lockfile)
exposed-HasSlsa_example = exposed-HasSlsa scanned (some old_lockfile)

abbrev secret_args : List Bytes
secret_args = codes "--token" ∷ codes "abc" ∷ codes "--key=def" ∷ codes "x" ∷ []

redact_args-AreClean_example :
    AreClean (λ s. s) (redact_args (λ s. s) secret_args).0
    × KeepsPlaces secret_args (redact_args (λ s. s) secret_args)
redact_args-AreClean_example = redact_args-AreClean (λ s. s) secret_args

-- A secret in base64 whose padding stands alone behind '=' is kept.
abbrev padded : Bytes
padded = codes "QUJDREVGR0hJSktMTU5PUFFSU1RVVldYWVo="

padded_kept : (redact_args (λ s. s) (padded ∷ [])).0 ≡ padded ∷ []
unfolding redact_args split_first bytes_eq has_prefix
padded_kept = refl
