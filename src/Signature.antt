-- ===== src/Signature.antt =====
-- crypto/signature.go: the file of a signature, a header in JSON and the signature or the bundle
-- behind it. What encoding/json, encoding/hex and encoding/base64 do is the record Codec; `is_space` is
-- the test of strings.TrimSpace.
use mcptrust.Base.{
  ℕ, ◌≡◌, refl, ◌∙◌, ap, sym, subst, inl, inr, Bool, true, false, not, ◌&&◌, ◌||◌, Option, none,
  some, List, [], ◌∷◌, ◌++◌, ◌==◌, arith, if◌then◌else◌, Bool-cases, is_empty, All, Bytes, codes,
  bytes_eq, has_prefix, Lacks, split_first, split_first-append, trim_left, trim_right, trim_space,
  Result, ok, err, ◌>>=◌,
}
pub mod ReadBack

pub data SignatureError : Type 0 where
  no_canon_version no_payload bad_header bad_bundle bad_hex bad_format not_sigstore no_header
        empty_bundle :
      SignatureError

pub record SignatureHeader : Type 0 where
  pub canon_version : Bytes
  pub sig_type : Bytes
  pub bundle_enc : Bytes

pub record SignatureEnvelope : Type 0 where
  pub header : Option SignatureHeader
  pub signature : Bytes
  pub bundle : Bytes

pub record Codec : Type 0 where
  pub marshal : SignatureHeader → Bytes
  pub unmarshal : Bytes → Option SignatureHeader
  pub hex : Bytes → Bytes
  pub unhex : Bytes → Option Bytes
  pub base64 : Bytes → Bytes
  pub unbase64 : Bytes → Option Bytes

abbrev pub sigstore_type : Bytes
sigstore_type = codes "sigstore_bundle"

abbrev pub sigstore_header : Bytes → SignatureHeader
sigstore_header canon_version = record {
  canon_version = canon_version;
  sig_type = sigstore_type;
  bundle_enc = codes "base64+json";
}

abbrev pub plain_header : Bytes → SignatureHeader
plain_header canon_version = record {
  canon_version = canon_version;
  sig_type = [];
  bundle_enc = [];
}

unfoldable pub get_canon_version : SignatureEnvelope → Bytes
get_canon_version e = elim e.header [ none ↦ codes "v1" | some h ↦ h.canon_version ]

type_of : Option SignatureHeader → Bytes
type_of none = codes "ed25519"
type_of (some h) = if is_empty h.sig_type then codes "ed25519" else h.sig_type

unfoldable pub is_sigstore : SignatureEnvelope → Bool
unfolding type_of
is_sigstore e = bytes_eq (type_of e.header) sigstore_type

unfoldable pub validate_for_sigstore : SignatureEnvelope → Result {0} SignatureError Unit
unfolding is_sigstore
validate_for_sigstore e = if not (is_sigstore e) then err not_sigstore else elim e.header [
  | none ↦ err no_header
  | some h ↦
      if is_empty h.canon_version
      then err no_canon_version
      else if is_empty e.bundle
      then err empty_bundle
      else ok tt
]

module _ (codec : Codec) (is_space : ℕ → Bool) where
  unfoldable pub write_signature : Bytes → Bytes → Bytes
  write_signature sig canon_version =
      codec.marshal (plain_header canon_version) ++ (10 ∷ codec.hex sig)

  unfoldable pub write_sigstore_signature : Bytes → Bytes → Result SignatureError Bytes
  write_sigstore_signature bundle canon_version =
      if is_empty canon_version
      then err no_canon_version
      else ok (codec.marshal (sigstore_header canon_version) ++ (10 ∷ codec.base64 bundle))

  decoded : SignatureError → Option Bytes → Result SignatureError Bytes
  decoded e none = err e
  decoded e (some content) = ok content

  read_payload : Option SignatureHeader → Bytes → Result SignatureError SignatureEnvelope
  unfolding decoded
  read_payload none payload = err bad_header
  read_payload (some h) payload =
      if bytes_eq h.sig_type sigstore_type
      then (decoded bad_bundle (codec.unbase64 payload) >>= λ bundle.
          ok (record { header = some h; signature = []; bundle = bundle }))
      else (decoded bad_hex (codec.unhex payload) >>= λ sig.
          ok (record { header = some h; signature = sig; bundle = [] }))

  read_lines : Option (Bytes × Bytes) → Result SignatureError SignatureEnvelope
  unfolding read_payload
  read_lines none = err no_payload
  read_lines (some (line, rest)) = read_payload (codec.unmarshal line) (trim_space is_space rest)

  unfoldable pub read_signature : Bytes → Result SignatureError SignatureEnvelope
  unfolding read_lines decoded
  read_signature file =
      let content = trim_space is_space file in
      if has_prefix content (codes "{")
      then read_lines (split_first 10 content)
      else (decoded bad_format (codec.unhex content) >>= λ sig.
          ok (record { header = none; signature = sig; bundle = [] }))
