-- ===== src/Proxy/Enforce.antt =====
-- proxy/enforce.go: the allowlists that the proxy derives from a v3 lockfile. The lock of the
-- enforcer makes each method atomic.
use mcptrust.Base.{
  Bool, true, false, ◌||◌, Option, none, some, List, [], ◌∷◌, ◌++◌, if◌then◌else◌, Bytes, GoMap,
  lookup, insert, is_some, Result, ok, err, ◌>>=◌,
}
use mcptrust.Models.{LockfileV3, ResourceTemplateLock}
use mcptrust.Proxy.Template.{Matcher, TemplateError, compile_template_matcher, match_string}
pub mod Allowlist

-- map[string]struct{}.
abbrev pub NameSet : Type 0
NameSet = GoMap (Unit {0})

abbrev pub has_name : Bytes → NameSet → Bool
has_name k s = is_some (lookup k s)

pub record Enforcer : Type 0 where
  pub allowed_tools : NameSet
  pub allowed_prompts : NameSet
  pub allowed_template_uris : NameSet
  pub template_matchers : List Matcher
  pub static_resources : NameSet
  pub allow_static_resources : Bool

-- for name := range m { set[name] = struct{}{} }.
unfoldable pub add_keys : {V : Type 0} → GoMap V → NameSet → NameSet
add_keys [] s = s
add_keys ((k, v) ∷ m) s = add_keys m (insert k tt s)

-- The loop over lockfile.Resources.Templates: it stops at the first template that is refused.
unfoldable pub add_templates : List ResourceTemplateLock → Enforcer → Result TemplateError Enforcer
add_templates [] e = ok e
add_templates (t ∷ ts) e = compile_template_matcher t.uri_template >>= λ matcher.
    add_templates ts (record e {
      allowed_template_uris = insert t.uri_template tt e.allowed_template_uris;
      template_matchers = e.template_matchers ++ matcher ∷ [];
    })

unfoldable pub new_enforcer : LockfileV3 → Bool → Result TemplateError Enforcer
unfolding add_keys add_templates
new_enforcer lockfile allow_static_resources = add_templates lockfile.templates (record {
  allowed_tools = add_keys lockfile.tools [];
  allowed_prompts = add_keys lockfile.prompts [];
  allowed_template_uris = [];
  template_matchers = [];
  static_resources = [];
  allow_static_resources = allow_static_resources;
})

unfoldable pub allow_tool : Enforcer → Bytes → Bool
allow_tool e name = has_name name e.allowed_tools

unfoldable pub allow_prompt : Enforcer → Bytes → Bool
allow_prompt e name = has_name name e.allowed_prompts

unfoldable pub any_match : List Matcher → Bytes → Bool
any_match [] uri = false
any_match (m ∷ ms) uri = let rest = any_match ms uri in if match_string m uri then true else rest

unfoldable pub allow_resource_uri : Enforcer → Bytes → Bool
unfolding any_match
allow_resource_uri e uri =
    if any_match e.template_matchers uri
    then true
    else if e.allow_static_resources
    then has_name uri e.static_resources
    else false

add_uris : List Bytes → NameSet → NameSet
add_uris [] s = s
add_uris (u ∷ us) s = add_uris us (insert u tt s)

unfoldable pub set_static_resources : Enforcer → List Bytes → Enforcer
unfolding add_uris
set_static_resources e uris = record e { static_resources = add_uris uris e.static_resources }
