-- ===== src/Policy/Exposed.antt =====
-- EvaluateWithLockfile of policy/engine.go: which provenance the rules see.
use mcptrust.Base.{
  ◌≡◌, refl, ◌∙◌, ap, sym, ◌↔◌, inl, inr, true, false, Option, none, some, Bool-cases, Option-cases,
  is_some, if◌then◌else◌, codes, bytes_eq,
}
use mcptrust.Json.{Value, obj, Fields, get_field, set_field, get_field-set_field}
use mcptrust.Models.{
  ServerInfo, ScanReport, ProvenanceMethod, unset, cosign_slsa, npm_audit_sigs, unverified,
  ProvenanceInfo, ArtifactPin, Lockfile,
}
use mcptrust.Policy.{
  server_info_map, add_server, report_to_map, is_slsa, provenance_to_map, artifact_to_map,
  expose_provenance, expose_artifact, lockfile_input,
}

-- The lockfile pins an artifact whose provenance was verified by cosign.
abbrev pub HasSlsa : Option Lockfile → Type 0
HasSlsa lockfile =
    (l : Lockfile) × (pin : ArtifactPin) × (p : ProvenanceInfo) × (lockfile ≡ some l)
    × (l.artifact ≡ some pin)
    × (pin.provenance ≡ some p)
    × (p.method ≡ cosign_slsa)

is_slsa→eq : (m : ProvenanceMethod) → is_slsa m ≡ true → m ≡ cosign_slsa
unfolding is_slsa
is_slsa→eq cosign_slsa h = refl
is_slsa→eq npm_audit_sigs h = cc
is_slsa→eq unverified h = cc
is_slsa→eq unset h = cc

get-add_server :
    (info : Option ServerInfo) (m : Fields)
    → get_field (codes "provenance") m ≡ none
    → get_field (codes "provenance") (add_server info m) ≡ none
unfolding add_server bytes_eq
get-add_server none m h = h
get-add_server (some info) m h =
    get_field-set_field (codes "server_info") (codes "provenance") (server_info_map info) m ∙ h

-- A report alone exposes no provenance.
report-none : (report : ScanReport) → get_field (codes "provenance") (report_to_map report) ≡ none
unfolding report_to_map get_field bytes_eq
report-none report = get-add_server report.server_info _ refl

-- What the rules see of a provenance.
seen : Option ProvenanceInfo → Option Value
unfolding is_slsa
seen none = none
seen (some p) = if is_slsa p.method then some (obj (provenance_to_map p)) else none

get-expose_provenance :
    (o : Option ProvenanceInfo) (m : Fields)
    → get_field (codes "provenance") m ≡ none
    → get_field (codes "provenance") (expose_provenance o m) ≡ seen o
unfolding expose_provenance seen bytes_eq
get-expose_provenance none m h = h
get-expose_provenance (some p) m h = elim (Bool-cases (is_slsa p.method)) [
  | inl e ↦
      rw
        (
          e,
          get_field-set_field (codes "provenance") (codes "provenance") (obj (provenance_to_map p))
              m,
        )
        refl
  | inr e ↦ rw (e) h
]

get-expose_artifact :
    (pin : ArtifactPin) (m : Fields)
    → get_field (codes "provenance") m ≡ none
    → get_field (codes "provenance") (expose_artifact (some pin) m) ≡ seen pin.provenance
unfolding expose_artifact bytes_eq
get-expose_artifact pin m h =
    get-expose_provenance pin.provenance
      (set_field (codes "artifact") (obj (artifact_to_map pin)) m)
      (get_field-set_field (codes "artifact") (codes "provenance") (obj (artifact_to_map pin)) m
        ∙ h)

module _ (report : ScanReport) where
  -- The variable input.provenance that the rules see.
  abbrev pub exposed : Option Lockfile → Option Value
  exposed lockfile = get_field (codes "provenance") (lockfile_input report lockfile)

  exposed-some :
      (l : Lockfile) (pin : ArtifactPin)
      → l.artifact ≡ some pin
      → exposed (some l) ≡ seen pin.provenance
  unfolding lockfile_input
  exposed-some l pin e =
      rw (e) (get-expose_artifact pin (report_to_map report) (report-none report))

  HasSlsa→exposed :
      (lockfile : Option Lockfile) → HasSlsa lockfile → is_some (exposed lockfile) ≡ true
  unfolding seen is_slsa
  HasSlsa→exposed lockfile (l, pin, p, a, b, c, d) =
      ap (λ x. is_some (exposed x)) a
      ∙ ap is_some (exposed-some l pin b)
      ∙ ap (λ o. is_some (seen o)) c
      ∙ rw (d) refl

  seen→cosign :
      (o : Option ProvenanceInfo)
      → is_some (seen o) ≡ true
      → (p : ProvenanceInfo) × (o ≡ some p) × (p.method ≡ cosign_slsa)
  unfolding seen
  seen→cosign none h = cc
  seen→cosign (some p) h = elim (Bool-cases (is_slsa p.method)) [
    | inl e ↦ (p, refl, is_slsa→eq p.method e)
    | inr e ↦ (let no : is_some (seen (some p)) ≡ false = rw (e) refl in cc)
  ]

  exposed→HasSlsa :
      (lockfile : Option Lockfile) → is_some (exposed lockfile) ≡ true → HasSlsa lockfile
  unfolding lockfile_input expose_artifact
  exposed→HasSlsa none h =
      let no : is_some (exposed none) ≡ false = ap is_some (report-none report) in cc
  exposed→HasSlsa (some l) h = elim (Option-cases l.artifact) [
    | inl e ↦
        (let no : is_some (exposed (some l)) ≡ false = rw (e) (ap is_some (report-none report)) in
          cc)
    | inr (pin, e) ↦
        (let shown = seen→cosign pin.provenance (ap is_some (sym (exposed-some l pin e)) ∙ h) in
          (l, pin, shown.0, refl, e, shown.1, shown.2))
  ]

  -- The rules see input.provenance exactly when the lockfile pins an artifact whose provenance was
  -- verified by cosign; other provenance is not shown under that name.
  pub exposed-HasSlsa :
      (lockfile : Option Lockfile) → (is_some (exposed lockfile) ≡ true) ↔ HasSlsa lockfile
  exposed-HasSlsa lockfile = (exposed→HasSlsa lockfile, HasSlsa→exposed lockfile)
