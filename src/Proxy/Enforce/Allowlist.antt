-- ===== src/Proxy/Enforce/Allowlist.antt =====
-- What the enforcer of a lockfile (proxy/enforce.go) allows.
use mcptrust.Base.{
  ◌≡◌, refl, Bool, true, false, ◌&&◌, ◌||◌, List, [], ◌∷◌, ◌++◌, arith, ◌⊎◌, inl, inr, Bytes, GoMap,
  lookup, insert, lookup-insert, is_some, ok, >>=-eq-ok, ◌∙◌, ◌↔◌, Bool-cases, elem,
}
use mathlib.Core.Bool.{or-false}
use mcptrust.Models.{LockfileV3, ResourceTemplateLock}
use mcptrust.Proxy.Template.{Matcher, compile_template_matcher, match_string}
use mcptrust.Proxy.Template.Matching.{Expands, match_string_iff}
use mcptrust.Proxy.Enforce.{
  NameSet, has_name, Enforcer, add_keys, add_templates, new_enforcer, allow_tool, allow_prompt,
  any_match, allow_resource_uri, add_uris, set_static_resources,
}

has_name-add_keys :
    {V : Type 0} (k : Bytes) (m : GoMap V) (s : NameSet)
    → has_name k (add_keys m s) ≡ (is_some (lookup k m) || has_name k s)
unfolding add_keys lookup
has_name-add_keys k [] s = refl
has_name-add_keys k ((j, v) ∷ m) s =
    ground (arith, has_name-add_keys k m (insert j tt s), lookup-insert j k tt s)

has_name-add_uris :
    (k : Bytes) (us : List Bytes) (s : NameSet)
    → has_name k (add_uris us s) ≡ (elem k us || has_name k s)
unfolding add_uris
has_name-add_uris k [] s = refl
has_name-add_uris k (u ∷ us) s =
    ground (arith, has_name-add_uris k us (insert u tt s), lookup-insert u k tt s)

-- What the loop over the templates leaves alone.
record SameLists (e d : Enforcer) : Type 0 where
  tools : d.allowed_tools ≡ e.allowed_tools
  prompts : d.allowed_prompts ≡ e.allowed_prompts
  statics : d.static_resources ≡ e.static_resources
  static_flag : d.allow_static_resources ≡ e.allow_static_resources

add_templates-SameLists :
    (ts : List ResourceTemplateLock) (e d : Enforcer) → add_templates ts e ≡ ok d → SameLists e d
unfolding add_templates
add_templates-SameLists [] e d h = ground arith
add_templates-SameLists (t ∷ ts) e d h =
    let (m, _, g) = >>=-eq-ok (compile_template_matcher t.uri_template) _ h in
    let s = add_templates-SameLists ts _ d g in
    record {
      tools = s.tools;
      prompts = s.prompts;
      statics = s.statics;
      static_flag = s.static_flag;
    }

-- The enforcer of a lockfile allows exactly the tools and the prompts that the lockfile names.
pub new_enforcer-allow :
    (lockfile : LockfileV3) (static : Bool) (e : Enforcer) (name : Bytes)
    → new_enforcer lockfile static ≡ ok e
    → (allow_tool e name ≡ is_some (lookup name lockfile.tools))
      × (allow_prompt e name ≡ is_some (lookup name lockfile.prompts))
unfolding new_enforcer allow_tool allow_prompt lookup
new_enforcer-allow lockfile static e name h =
    let s = add_templates-SameLists lockfile.templates _ e h in
    (
      rw s.tools (has_name-add_keys name lockfile.tools [] ∙ or-false _),
      rw s.prompts (has_name-add_keys name lockfile.prompts [] ∙ or-false _),
    )

-- Some template of the lockfile expands to the URI.
abbrev pub SomeTemplate : List ResourceTemplateLock → Bytes → Type 0
SomeTemplate [] uri = ⊥
SomeTemplate (t ∷ ts) uri =
    ((m : Matcher) × (compile_template_matcher t.uri_template ≡ ok m) × Expands m uri)
    ⊎ SomeTemplate ts uri

any_match-append :
    (ms ns : List Matcher) (u : Bytes) → any_match (ms ++ ns) u ≡ (any_match ms u || any_match ns u)
unfolding any_match
any_match-append [] ns u = refl
any_match-append (m ∷ ms) ns u = ground (arith, any_match-append ms ns u)

any_match_one : (m : Matcher) (u : Bytes) → any_match (m ∷ []) u ≡ match_string m u
unfolding any_match
any_match_one m u = ground arith

any_match-SomeTemplate :
    (ts : List ResourceTemplateLock) (e d : Enforcer) (u : Bytes)
    → add_templates ts e ≡ ok d
    → any_match d.template_matchers u ≡ true
    → (any_match e.template_matchers u ≡ true) ⊎ SomeTemplate ts u
unfolding add_templates
any_match-SomeTemplate [] e d u h a = inl (ground arith)
any_match-SomeTemplate (t ∷ ts) e d u h a =
    let (m, c, g) = >>=-eq-ok (compile_template_matcher t.uri_template) _ h in
    elim (any_match-SomeTemplate ts _ d u g a) [
      | inl b ↦ elim (Bool-cases (match_string m u)) [
        | inl y ↦ inr (inl (m, c, (match_string_iff m u).0 y))
        | inr n ↦
            inl (ground (arith, any_match-append e.template_matchers (m ∷ []) u, any_match_one m u))
      ]
      | inr b ↦ inr (inr b)
    ]

SomeTemplate-any_match :
    (ts : List ResourceTemplateLock) (e d : Enforcer) (u : Bytes)
    → add_templates ts e ≡ ok d
    → (any_match e.template_matchers u ≡ true) ⊎ SomeTemplate ts u
    → any_match d.template_matchers u ≡ true
unfolding add_templates
SomeTemplate-any_match [] e d u h (inl a) = ground arith
SomeTemplate-any_match [] e d u h (inr a) = absurd a
SomeTemplate-any_match (t ∷ ts) e d u h (inl a) =
    let (m, c, g) = >>=-eq-ok (compile_template_matcher t.uri_template) _ h in
    SomeTemplate-any_match ts _ d u g
      (inl (ground (arith, any_match-append e.template_matchers (m ∷ []) u)))
SomeTemplate-any_match (t ∷ ts) e d u h (inr (inl (n, k, x))) =
    let (m, c, g) = >>=-eq-ok (compile_template_matcher t.uri_template) _ h in
    let same : m ≡ n = ground arith in
    let y : match_string m u ≡ true = rw same ((match_string_iff n u).1 x) in
    SomeTemplate-any_match ts _ d u g
      (inl (ground (arith, any_match-append e.template_matchers (m ∷ []) u, any_match_one m u)))
SomeTemplate-any_match (t ∷ ts) e d u h (inr (inr s)) =
    let (m, c, g) = >>=-eq-ok (compile_template_matcher t.uri_template) _ h in
    SomeTemplate-any_match ts _ d u g (inr s)

any_match-nil : (u : Bytes) → any_match [] u ≡ false
unfolding any_match
any_match-nil u = refl

-- The answer, with the static list as it was set at startup.
allow_resource_uri_value :
    (lockfile : LockfileV3) (static : Bool) (e : Enforcer) (uris : List Bytes) (uri : Bytes)
    → new_enforcer lockfile static ≡ ok e
    → allow_resource_uri (set_static_resources e uris) uri
      ≡ (any_match e.template_matchers uri || (static && elem uri uris))
unfolding new_enforcer allow_resource_uri set_static_resources lookup
allow_resource_uri_value lockfile static e uris uri h =
    let s = add_templates-SameLists lockfile.templates _ e h in
    rw (s.static_flag, has_name-add_uris uri uris e.static_resources, s.statics) (ground arith)

-- A resource URI is allowed exactly when a template of the lockfile expands to it, or when static
-- resources are on and it is one of the URIs set at startup.
pub allow_resource_uri_iff :
    (lockfile : LockfileV3) (static : Bool) (e : Enforcer) (uris : List Bytes) (uri : Bytes)
    → new_enforcer lockfile static ≡ ok e
    → (allow_resource_uri (set_static_resources e uris) uri ≡ true)
      ↔ (SomeTemplate lockfile.templates uri ⊎ ((static ≡ true) × (elem uri uris ≡ true)))
unfolding new_enforcer
allow_resource_uri_iff lockfile static e uris uri h = (
  λ a. elim (Bool-cases (any_match e.template_matchers uri)) [
    | inl y ↦ elim (any_match-SomeTemplate lockfile.templates _ e uri h y) [
      | inl b ↦ cc (any_match-nil uri)
      | inr t ↦ inl t
    ]
    | inr n ↦ inr (
      ground (arith, allow_resource_uri_value lockfile static e uris uri h),
      ground (arith, allow_resource_uri_value lockfile static e uris uri h),
    )
  ],
  λ a. elim a [
    | inl t ↦ ground (
      arith,
      SomeTemplate-any_match lockfile.templates _ e uri h (inr t),
      allow_resource_uri_value lockfile static e uris uri h,
    )
    | inr p ↦ ground (arith, allow_resource_uri_value lockfile static e uris uri h, p.0, p.1)
  ],
)
