-- ===== src/Artifact/Image.antt =====
-- ParseOCIReference and OCIImageRef.String of artifact/resolver.go.
use mcptrust.Base.{
  ℕ, ◌≡◌, refl, ◌∙◌, ap, sym, ◌⊎◌, inl, inr, Bool, true, false, not, ◌||◌, none, some, [], ◌∷◌,
  ◌++◌, ◌==◌, append_assoc, append-nil, arith, if◌then◌else◌, Bool-cases, subst, is_empty, Bytes,
  All, All-append, Lacks, has_byte, has_byte-Lacks, split_first, split_last, split_first-Lacks,
  split_first-append, split_last-Lacks, split_last-append, trim_space_lem, Result, ok, err,
}
use mcptrust.Artifact.Reference.{
  RefError, missing_repository, OciImageRef, image_text, at_digest, at_tag, at_registry, cut_digest,
  cut_tag, cut_registry, parse_trimmed, parse_oci_reference,
}

abbrev names_host : Bytes → Bool
names_host a = has_byte b'.' a || has_byte b':' a

-- A path whose first component, if it has several, is no host.
abbrev pub HostlessPath : Bytes → Type 0
HostlessPath path =
    Lacks b'/' path
    ⊎ ((first : Bytes) × (rest : Bytes) × (path ≡ first ++ (b'/' ∷ rest))
        × Lacks b'/' first
        × ((has_byte b'.' first || has_byte b':' first) ≡ false))

-- A registry is a host: one with a dot or a port.
abbrev pub IsRegistry : Bytes → Type 0
IsRegistry registry =
    (is_empty registry ≡ false)
    × Lacks b'/' registry
    × Lacks b'@' registry
    × ((has_byte b'.' registry || has_byte b':' registry) ≡ true)

-- An image with a repository, with a registry or without, and with a tag or a digest or neither.
pub record IsImage (r : OciImageRef) : Type 0 where
  pub repository_ne : is_empty r.repository ≡ false
  pub repository_colon : Lacks b':' r.repository
  pub repository_at : Lacks b'@' r.repository
  pub path : ((is_empty r.registry ≡ true) × HostlessPath r.repository) ⊎ IsRegistry r.registry
  pub tag_slash : Lacks b'/' r.tag
  pub tag_colon : Lacks b':' r.tag
  pub tag_at : Lacks b'@' r.tag
  pub digest_at : Lacks b'@' r.digest
  pub one_suffix : (is_empty r.tag ≡ true) ⊎ (is_empty r.digest ≡ true)

abbrev path_text : OciImageRef → Bytes
path_text r = (if is_empty r.registry then [] else r.registry ++ (b'/' ∷ [])) ++ r.repository

empty-eq : (s : Bytes) → is_empty s ≡ true → s ≡ []
empty-eq [] h = refl
empty-eq (c ∷ s) h = cc

has_byte-append : (c : ℕ) (x y : Bytes) → has_byte c (x ++ (c ∷ y)) ≡ true
has_byte-append c [] y = ground arith
has_byte-append c (a ∷ x) y = ground (arith, has_byte-append c x y)

-- A last ':' before a '/' is no tag's.
split_last-before :
    (x y : Bytes)
    → Lacks b':' y
    → (split_last b':' (x ++ (b'/' ∷ y)) ≡ none)
      ⊎ ((a : Bytes) × (b : Bytes) × (split_last b':' (x ++ (b'/' ∷ y)) ≡ some (a, b))
          × (has_byte b'/' b ≡ true))
unfolding split_last
split_last-before [] y h = inl (rw (split_last-Lacks b':' y h) refl)
split_last-before (c ∷ x) y h = elim (split_last-before x y h) [
  | inr (a, b, found, slash) ↦ inr (c ∷ a, b, rw (found) refl, slash)
  | inl missing ↦ elim (Bool-cases (c == b':')) [
    | inl t ↦ inr ([], x ++ (b'/' ∷ y), rw (missing, t) refl, has_byte-append b'/' x y)
    | inr f ↦ inl (rw (missing, f) refl)
  ]
]

cut_tag-before : (x y : Bytes) → Lacks b':' y → cut_tag (x ++ (b'/' ∷ y)) ≡ (x ++ (b'/' ∷ y), [])
unfolding cut_tag
cut_tag-before x y h = elim (split_last-before x y h) [
  | inl missing ↦ ap (at_tag (x ++ (b'/' ∷ y))) missing
  | inr (a, b, found, slash) ↦ ap (at_tag (x ++ (b'/' ∷ y))) found ∙ rw (slash) refl
]

cut_registry-HostlessPath : (path : Bytes) → HostlessPath path → cut_registry path ≡ ([], path)
unfolding cut_registry
cut_registry-HostlessPath path (inl no_slash) =
    ap (at_registry path) (split_first-Lacks b'/' path no_slash)
cut_registry-HostlessPath path (inr (first, rest, e, no_slash, no_host)) =
    ap (at_registry path) (ap (split_first b'/') e ∙ split_first-append b'/' first rest no_slash)
    ∙ rw (no_host) refl

abbrev tag_text : Bytes → Bytes
tag_text tag = if is_empty tag then [] else b':' ∷ tag

-- What image_text writes behind the repository.
abbrev suffix : Bytes → Bytes → Bytes
suffix tag digest =
    if not (is_empty digest) then b'@' ∷ digest else if not (is_empty tag) then b':' ∷ tag else []

cut_tag-tag_text :
    (path tag : Bytes)
    → cut_tag path ≡ (path, [])
    → Lacks b'/' tag
    → Lacks b':' tag
    → cut_tag (path ++ tag_text tag) ≡ (path, tag)
unfolding cut_tag
cut_tag-tag_text path [] e h k = ap cut_tag (append-nil path) ∙ e
cut_tag-tag_text path (c ∷ tag) e h k =
    ap (at_tag (path ++ (b':' ∷ c ∷ tag))) (split_last-append b':' path (c ∷ tag) k)
    ∙ rw (has_byte-Lacks b'/' (c ∷ tag) h) refl

cut_digest-suffix :
    (path tag digest : Bytes)
    → Lacks b'@' path
    → Lacks b'@' tag
    → Lacks b'@' digest
    → (is_empty tag ≡ true) ⊎ (is_empty digest ≡ true)
    → cut_digest (path ++ suffix tag digest) ≡ (path ++ tag_text tag, digest)
unfolding cut_digest
cut_digest-suffix path [] [] p t d o =
    ap (at_digest (path ++ [])) (split_last-Lacks b'@' (path ++ []) (All-append _ path [] p tt))
cut_digest-suffix path (c ∷ tag) [] p t d o = ap (at_digest (path ++ (b':' ∷ c ∷ tag))) (
    split_last-Lacks b'@' (path ++ (b':' ∷ c ∷ tag))
      (All-append _ path (b':' ∷ c ∷ tag) p (refl, t)))
cut_digest-suffix path [] (x ∷ digest) p t d o =
    ap (at_digest (path ++ (b'@' ∷ x ∷ digest))) (split_last-append b'@' path (x ∷ digest) d)
    ∙ ap (λ q. (q, x ∷ digest)) (sym (append-nil path))
cut_digest-suffix path (c ∷ tag) (x ∷ digest) p t d (inl e) = cc
cut_digest-suffix path (c ∷ tag) (x ∷ digest) p t d (inr e) = cc

-- The branches of ParseOCIReference behind its first test.
abbrev parts_of : Bytes → Result RefError OciImageRef
parts_of text =
    let digest_cut = cut_digest text in
    let tag_cut = cut_tag digest_cut.0 in
    let path = cut_registry tag_cut.0 in
    if is_empty path.1
    then err missing_repository
    else ok
        (record { registry = path.0; repository = path.1; tag = tag_cut.1; digest = digest_cut.1 })

parse_trimmed-parts_of : (text : Bytes) → is_empty text ≡ false → parse_trimmed text ≡ parts_of text
unfolding parse_trimmed
parse_trimmed-parts_of [] h = cc
parse_trimmed-parts_of (c ∷ text) h = refl

ne-append : (x y z : Bytes) → is_empty y ≡ false → is_empty (x ++ (y ++ z)) ≡ false
ne-append [] [] z h = cc
ne-append [] (b ∷ y) z h = refl
ne-append (a ∷ x) y z h = refl

module _ (r : OciImageRef) (h : IsImage r) where
  path_text-registry :
      is_empty r.registry ≡ false → path_text r ≡ r.registry ++ (b'/' ∷ r.repository)
  path_text-registry e = rw (e) (append_assoc r.registry (b'/' ∷ []) r.repository)

  path_text-none : is_empty r.registry ≡ true → path_text r ≡ r.repository
  path_text-none e = rw (e) refl

  path_text-at : Lacks b'@' (path_text r)
  path_text-at = elim h.path [
    | inl (no_registry, path) ↦
        subst (Lacks b'@') (sym (path_text-none no_registry)) h.repository_at
    | inr registry ↦
        subst (Lacks b'@') (sym (path_text-registry registry.0))
          (All-append _ r.registry (b'/' ∷ r.repository) registry.2 (ground arith, h.repository_at))
  ]

  cut_tag-path : cut_tag (path_text r) ≡ (path_text r, [])
  unfolding cut_tag
  cut_tag-path = elim h.path [
    | inl (no_registry, path) ↦
        subst (λ t. cut_tag t ≡ (t, [])) (sym (path_text-none no_registry))
          (ap (at_tag r.repository) (split_last-Lacks b':' r.repository h.repository_colon))
    | inr registry ↦
        subst (λ t. cut_tag t ≡ (t, [])) (sym (path_text-registry registry.0))
          (cut_tag-before r.registry r.repository h.repository_colon)
  ]

  cut_registry-path : cut_registry (path_text r) ≡ (r.registry, r.repository)
  unfolding cut_registry
  cut_registry-path = elim h.path [
    | inl (no_registry, path) ↦
        ap cut_registry (path_text-none no_registry)
        ∙ cut_registry-HostlessPath r.repository path
        ∙ ap (λ x. (x, r.repository)) (sym (empty-eq r.registry no_registry))
    | inr registry ↦
        ap cut_registry (path_text-registry registry.0)
        ∙ ap (at_registry (r.registry ++ (b'/' ∷ r.repository)))
            (split_first-append b'/' r.registry r.repository registry.1)
        ∙ rw (registry.3) refl
  ]

  image_text-path : image_text r ≡ path_text r ++ suffix r.tag r.digest
  unfolding image_text
  image_text-path = sym (
      append_assoc (if is_empty r.registry then [] else r.registry ++ (b'/' ∷ [])) r.repository
        (suffix r.tag r.digest))

  parts_of-image_text : parts_of (image_text r) ≡ ok r
  parts_of-image_text =
      rw
        (
          image_text-path,
          cut_digest-suffix (path_text r) r.tag r.digest path_text-at h.tag_at h.digest_at
              h.one_suffix,
          cut_tag-tag_text (path_text r) r.tag cut_tag-path h.tag_slash h.tag_colon,
          cut_registry-path,
          h.repository_ne,
        )
        refl

-- The text of an image is read back as the image, with its registry (a host with a dot or a port)
-- or without, and with its tag or its digest, for parts without the characters that divide them
-- and without spaces.
pub parse_oci_reference-image_text :
    (is_space : ℕ → Bool) (r : OciImageRef)
    → IsImage r
    → All (λ c. is_space c ≡ false) (image_text r)
    → parse_oci_reference is_space (image_text r) ≡ ok r
unfolding parse_oci_reference
parse_oci_reference-image_text is_space r h no_space =
    ap parse_trimmed (trim_space_lem is_space (image_text r) no_space)
    ∙ parse_trimmed-parts_of (image_text r)
        (unfold image_text in ne-append _ r.repository _ h.repository_ne)
    ∙ parts_of-image_text r h
