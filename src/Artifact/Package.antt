-- ===== src/Artifact/Package.antt =====
-- parsePackageSpec of artifact/resolver.go: package specifications that are read back.
use mcptrust.Base.{
  ◌≡◌, refl, ap, inl, inr, true, [], ◌∷◌, ◌++◌, ◌==◌, arith, if◌then◌else◌, Bool-cases, is_empty,
  Bytes, ℕ, Lacks, split_first-Lacks, split_first-append, split_last-Lacks, split_last-append,
}
use mcptrust.Artifact.Reference.{cut_version, cut_scoped, parse_package_spec}

-- A package as it is written: its name, and "@" and its version where it has one.
unfoldable pub package_text : Bytes → Bytes → Bytes
package_text name version = if is_empty version then name else name ++ (b'@' ∷ version)

at→eq : (c : ℕ) → (c == b'@') ≡ true → b'@' ≡ c
at→eq c h = ground arith

-- A package, scoped or not, is read back with its version from its text: "@" stands in its name at
-- most in front, and not in its version.
pub parse_package_spec-package_text :
    (c : ℕ) (body version : Bytes)
    → Lacks b'@' body
    → Lacks b'@' version
    → parse_package_spec (package_text (c ∷ body) version) ≡ (c ∷ body, version)
unfolding parse_package_spec package_text cut_version cut_scoped
parse_package_spec-package_text c body [] b v = elim (Bool-cases (c == b'@')) [
  | inl scoped ↦ rw (scoped, split_first-Lacks b'@' body b) refl
  | inr bare ↦ rw (bare, split_last-Lacks b'@' (c ∷ body) (bare, b)) refl
]
parse_package_spec-package_text c body (d ∷ version) b v = elim (Bool-cases (c == b'@')) [
  | inl scoped ↦
      rw (scoped, split_first-append b'@' body (d ∷ version) b)
        (ap (λ x. (x ∷ body, d ∷ version)) (at→eq c scoped))
  | inr bare ↦ rw (bare, split_last-append b'@' (c ∷ body) (d ∷ version) v) refl
]
