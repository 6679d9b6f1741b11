-- ===== src/Examples/Signatures.antt =====
-- A signature file with a small codec.
use mcptrust.Base.{
  ℕ, ◌≡◌, refl, Bool, true, false, some, [], ◌++◌, ◌==◌, Bytes, codes, bytes_eq, has_prefix, ok,
}
use mcptrust.Signature.{
  SignatureEnvelope, Codec, plain_header, sigstore_header, write_signature,
  write_sigstore_signature, read_signature, validate_for_sigstore,
}
use mcptrust.Signature.ReadBack.{IsCodec, read_signature-write_signature}

abbrev blank : ℕ → Bool
blank c = c == 32

-- It knows the version "v2" only, and writes signatures as they are.
abbrev small_codec : Codec
small_codec = record {
  marshal = λ h. codes "{" ++ h.sig_type;
  unmarshal = λ line. elim (bytes_eq line (codes "{")) [
    | true ↦ some (plain_header (codes "v2"))
    | false ↦ some (sigstore_header (codes "v2"))
  ];
  hex = λ s. s;
  unhex = λ s. some s;
  base64 = λ s. s;
  unbase64 = λ s. some s;
}

small_codec-IsCodec : IsCodec small_codec blank (codes "a") (codes "v2")
unfolding bytes_eq has_prefix
small_codec-IsCodec = record {
  plain_line = ((refl, tt), refl);
  plain_read = refl;
  sigstore_line = (
    (
      refl,
      (
        refl,
        (
          refl,
          (
            refl,
            (
              refl,
              (
                refl,
                (refl, (refl, (refl, (refl, (refl, (refl, (refl, (refl, (refl, (refl, tt)))))))))),
              ),
            ),
          ),
        ),
      ),
    ),
    refl,
  );
  sigstore_read = refl;
  hex_token = (refl, (refl, tt));
  hex_read = refl;
  base64_token = (refl, (refl, tt));
  base64_read = refl;
  space_brace = refl;
}

read_signature-write_signature_example :
    (read_signature small_codec blank (write_signature small_codec blank (codes "a") (codes "v2"))
      ≡ ok (record {
        header = some (plain_header (codes "v2"));
        signature = codes "a";
        bundle = [];
      }))
    × ((file : Bytes) × (envelope : SignatureEnvelope) × (write_sigstore_signature small_codec blank
            (codes "a")
            (codes "v2")
          ≡ ok file)
        × (read_signature small_codec blank file ≡ ok envelope)
        × (envelope.bundle ≡ codes "a")
        × (validate_for_sigstore envelope ≡ ok tt))
read_signature-write_signature_example =
    read_signature-write_signature small_codec blank (codes "a") (codes "v2") small_codec-IsCodec
      refl refl
