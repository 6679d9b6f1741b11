-- ===== src/Signature/ReadBack.antt =====
-- crypto/signature.go: signatures that are written and read back.
use mcptrust.Base.{
  ℕ, ◌≡◌, refl, ◌∙◌, ap, sym, subst, Bool, true, false, some, [], ◌∷◌, ◌++◌, append_assoc, ◌==◌,
  arith, is_empty, All, Bytes, codes, bytes_eq, has_prefix, Lacks, split_first-append, trim_left,
  trim_right, trim_space, trim_space_lem, trim_right-lem, ok,
}
use mcptrust.Signature.{
  SignatureHeader, SignatureEnvelope, Codec, plain_header, sigstore_header, is_sigstore, type_of,
  validate_for_sigstore, write_signature, write_sigstore_signature, decoded, read_payload,
  read_lines, read_signature,
}

-- A text of JSON begins with a brace and has no line break.
abbrev pub IsLine : Bytes → Type 0
IsLine s = Lacks 10 s × (has_prefix s (codes "{") ≡ true)

-- A text without spaces.
abbrev pub IsToken : (ℕ → Bool) → Bytes → Type 0
IsToken is_space s = (is_empty s ≡ false) × All (λ c. is_space c ≡ false) s

-- What the code relies on for a content and a version: decoding undoes encoding, headers are one line
-- of JSON, and the encoded forms of the content, which is not empty, hold no spaces.
pub record IsCodec (codec : Codec) (is_space : ℕ → Bool) (content canon_version : Bytes)
    : Type 0 where
  pub plain_line : IsLine (codec.marshal (plain_header canon_version))
  pub plain_read :
      codec.unmarshal (codec.marshal (plain_header canon_version))
      ≡ some (plain_header canon_version)
  pub sigstore_line : IsLine (codec.marshal (sigstore_header canon_version))
  pub sigstore_read :
      codec.unmarshal (codec.marshal (sigstore_header canon_version))
      ≡ some (sigstore_header canon_version)
  pub hex_token : IsToken is_space (codec.hex content)
  pub hex_read : codec.unhex (codec.hex content) ≡ some content
  pub base64_token : IsToken is_space (codec.base64 content)
  pub base64_read : codec.unbase64 (codec.base64 content) ≡ some content
  pub space_brace : is_space b'{' ≡ false

module _ (is_space : ℕ → Bool) where
  append-ne : (front token : Bytes) → is_empty token ≡ false → is_empty (front ++ token) ≡ false
  append-ne [] token h = h
  append-ne (c ∷ front) token h = refl

  trim_right-token :
      (front token : Bytes)
      → IsToken is_space token
      → trim_right is_space (front ++ token) ≡ front ++ token
  unfolding trim_right
  trim_right-token [] token t = trim_right-lem is_space token t.1
  trim_right-token (c ∷ front) token t =
      rw (trim_right-token front token t, append-ne front token t.0) refl

  brace→eq : (c : ℕ) → (c == b'{') ≡ true → c ≡ b'{'
  brace→eq c h = ground arith

  trim-line :
      (line token : Bytes)
      → is_space b'{' ≡ false
      → IsLine line
      → IsToken is_space token
      → trim_space is_space (line ++ (10 ∷ token)) ≡ line ++ (10 ∷ token)
  unfolding trim_space trim_left has_prefix
  trim-line [] token b l t = cc
  trim-line (c ∷ line) token b l t =
      let brace : c ≡ b'{' = brace→eq c (ground (arith, l.1)) in
      let kept : is_space c ≡ false = subst (λ x. is_space x ≡ false) (sym brace) b in
      let whole = append_assoc (c ∷ line) (10 ∷ []) token in
      rw (kept) (
        ap (trim_right is_space) (sym whole)
        ∙ trim_right-token (c ∷ line ++ (10 ∷ [])) token t
        ∙ whole)

  line-append : (line rest : Bytes) → IsLine line → has_prefix (line ++ rest) (codes "{") ≡ true
  unfolding has_prefix
  line-append [] rest l = cc
  line-append (c ∷ line) rest l = ground (arith, l.1)

module _ (codec : Codec) (is_space : ℕ → Bool) where
  -- A header and a payload are read as they were written.
  read-lines :
      (h : SignatureHeader) (payload : Bytes)
      → is_space b'{' ≡ false
      → IsLine (codec.marshal h)
      → codec.unmarshal (codec.marshal h) ≡ some h
      → IsToken is_space payload
      → read_signature codec is_space (codec.marshal h ++ (10 ∷ payload))
        ≡ read_payload codec is_space (some h) payload
  unfolding read_signature read_lines
  read-lines h payload brace line read t =
      rw
        (
          trim-line is_space (codec.marshal h) payload brace line t,
          line-append is_space (codec.marshal h) (10 ∷ payload) line,
          split_first-append 10 (codec.marshal h) payload line.0,
          read,
          trim_space_lem is_space payload t.1,
        )
        refl

  -- Where decoding undoes encoding, a signature that is not empty is read back with its version of the
  -- canonical form, and a bundle that is not empty, with a version, is written, read back and found
  -- valid for Sigstore.
  pub read_signature-write_signature :
      (content canon_version : Bytes)
      → IsCodec codec is_space content canon_version
      → is_empty content ≡ false
      → is_empty canon_version ≡ false
      → (read_signature codec is_space (write_signature codec is_space content canon_version)
          ≡ ok (record {
            header = some (plain_header canon_version);
            signature = content;
            bundle = [];
          }))
        × ((file : Bytes) × (envelope : SignatureEnvelope) × (write_sigstore_signature codec
                is_space content canon_version
              ≡ ok file)
            × (read_signature codec is_space file ≡ ok envelope)
            × (envelope.bundle ≡ content)
            × (validate_for_sigstore envelope ≡ ok tt))
  unfolding write_signature write_sigstore_signature read_payload decoded validate_for_sigstore
      is_sigstore type_of bytes_eq
  read_signature-write_signature content canon_version laws e f = (
    read-lines (plain_header canon_version) (codec.hex content) laws.space_brace laws.plain_line
          laws.plain_read laws.hex_token
        ∙ rw (laws.hex_read) refl,
    (
      codec.marshal (sigstore_header canon_version) ++ (10 ∷ codec.base64 content),
      record { header = some (sigstore_header canon_version); signature = []; bundle = content },
      rw (f) refl,
      read-lines (sigstore_header canon_version) (codec.base64 content) laws.space_brace
            laws.sigstore_line laws.sigstore_read laws.base64_token
          ∙ rw (laws.base64_read) refl,
      refl,
      rw (f, e) refl,
    ),
  )
