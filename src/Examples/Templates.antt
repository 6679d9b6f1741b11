-- ===== src/Examples/Templates.antt =====
-- proxy/enforce.go on the templates file:///{path} and db://{schema}/tables/{table}.
use mcptrust.Base.{
  ◌≡◌, refl, ◌↔◌, ◌⊎◌, true, false, none, [], ◌∷◌, arith, codes, ok, err, contains, insert, lookup,
  is_some, elem,
}
use mcptrust.Models.{LockfileV3, low}
use mcptrust.Proxy.Template.{unsupported_operator, Matcher, compile_template_matcher, match_string}
use mcptrust.Proxy.Template.Pieces.{Parts, segments}
use mcptrust.Proxy.Template.Rendered.{compile_template_matcher-render}
use mcptrust.Proxy.Enforce.{
  Enforcer, new_enforcer, allow_tool, allow_prompt, allow_resource_uri, set_static_resources,
}
use mcptrust.Proxy.Enforce.Allowlist.{SomeTemplate, new_enforcer-allow, allow_resource_uri_iff}

abbrev table_parts : Parts
table_parts = (codes "db://", codes "schema") ∷ (codes "/t/", codes "table") ∷ []

abbrev table_matcher : Matcher
table_matcher = segments table_parts []

compiles : compile_template_matcher (codes "db://{schema}/t/{table}") ≡ ok table_matcher
unfolding compile_template_matcher contains
compiles = refl

refuses_operator : compile_template_matcher (codes "file:///{+path}") ≡ err unsupported_operator
unfolding compile_template_matcher contains
refuses_operator = refl

-- The final placeholder takes several segments, the one before it takes one.
takes_segments : match_string table_matcher (codes "db://main/t/a/b") ≡ true
unfolding match_string
takes_segments = refl

one_segment_only : match_string table_matcher (codes "db://main/x/t/a") ≡ false
unfolding match_string
one_segment_only = refl

compile_template_matcher-render_example :
    compile_template_matcher (codes "db://{schema}/t/{table}") ≡ ok table_matcher
compile_template_matcher-render_example =
    compile_template_matcher-render table_parts [] (ground arith) tt

abbrev sample_lockfile : LockfileV3
sample_lockfile = record {
  lock_file_version = codes "3.0";
  meta = record { generator = []; updated_at = [] };
  server = record { name = codes "s"; artifact = none };
  prompts = [];
  templates =
      record {
        uri_template = codes "f:///{p}";
        template_hash = [];
        name_hash = [];
        description_hash = [];
        mime_type = [];
      }
      ∷ [];
  tools =
      (codes "read", record { description_hash = []; input_schema_hash = []; risk_level = low })
      ∷ [];
}

abbrev sample_enforcer : Enforcer
sample_enforcer = record {
  allowed_tools = (codes "read", tt) ∷ [];
  allowed_prompts = [];
  allowed_template_uris = (codes "f:///{p}", tt) ∷ [];
  template_matchers = segments ((codes "f:///", codes "p") ∷ []) [] ∷ [];
  static_resources = [];
  allow_static_resources = true;
}

sample_builds : new_enforcer sample_lockfile true ≡ ok sample_enforcer
unfolding new_enforcer compile_template_matcher contains insert
sample_builds = refl

new_enforcer-allow_example :
    (allow_tool sample_enforcer (codes "exec")
      ≡ is_some (lookup (codes "exec") sample_lockfile.tools))
    × (allow_prompt sample_enforcer (codes "exec")
        ≡ is_some (lookup (codes "exec") sample_lockfile.prompts))
new_enforcer-allow_example =
    new_enforcer-allow sample_lockfile true sample_enforcer (codes "exec") sample_builds

allow_resource_uri_iff_example :
    (allow_resource_uri (set_static_resources sample_enforcer (codes "x:y" ∷ [])) (codes "f:///a/b")
      ≡ true)
    ↔ (SomeTemplate sample_lockfile.templates (codes "f:///a/b")
        ⊎ ((true ≡ true) × (elem (codes "f:///a/b") (codes "x:y" ∷ []) ≡ true)))
allow_resource_uri_iff_example =
    allow_resource_uri_iff sample_lockfile true sample_enforcer (codes "x:y" ∷ [])
      (codes "f:///a/b") sample_builds
