-- ===== src/Proxy/Template/Matching.antt =====
-- The patterns of CompileTemplateMatcher (proxy/enforce.go) against a description of the URIs
-- that they stand for.
use mcptrust.Base.{
  ℕ, ◌≡◌, refl, ◌↔◌, true, inl, inr, [], ◌∷◌, ◌++◌, arith, Bytes, All, ap, Bool-cases,
}
use mcptrust.Proxy.Template.{Segment, byte, single, multi, Matcher, takes, match_string}

-- A URI is made of the literal bytes of the pattern, with a nonempty run of permitted bytes for
-- each placeholder.
pub data Expands : Matcher → Bytes → Type 0 where
  done : Expands [] []
  literal : {b : ℕ} {p : Matcher} {s : Bytes} → Expands p s → Expands (byte b ∷ p) (b ∷ s)
  run :
      {g : Segment} {p : Matcher} {u : Bytes} (c : ℕ) (w s : Bytes)
      → All (λ d. takes g d ≡ true) (c ∷ w)
      → u ≡ c ∷ (w ++ s)
      → Expands p s
      → Expands (g ∷ p) u

longer_run :
    {g : Segment} {p : Matcher} {u : Bytes} (c : ℕ)
    → takes g c ≡ true
    → Expands (g ∷ p) u
    → Expands (g ∷ p) (c ∷ u)
longer_run c h (literal e) = cc
longer_run c h (run d w s a eq e) = run c (d ∷ w) s (h, a) (ap (λ (t : Bytes). c ∷ t) eq) e

match_string→Expands : (p : Matcher) (s : Bytes) → match_string p s ≡ true → Expands p s
unfolding match_string
match_string→Expands [] [] h = done
match_string→Expands [] (c ∷ s) h = cc
match_string→Expands (g ∷ p) [] h = cc
match_string→Expands (byte b ∷ p) (c ∷ s) h =
    let e : c ≡ b = ground arith in rw e (literal (match_string→Expands p s (ground arith)))
match_string→Expands (single ∷ p) (c ∷ s) h = elim (Bool-cases (match_string p s)) [
  | inl m ↦ run c [] s (ground arith, tt) refl (match_string→Expands p s m)
  | inr m ↦ longer_run c (ground arith) (match_string→Expands (single ∷ p) s (ground arith))
]
match_string→Expands (multi ∷ p) (c ∷ s) h = elim (Bool-cases (match_string p s)) [
  | inl m ↦ run c [] s (ground arith, tt) refl (match_string→Expands p s m)
  | inr m ↦ longer_run c (ground arith) (match_string→Expands (multi ∷ p) s (ground arith))
]

match_string-run :
    (g : Segment) (p : Matcher) (c : ℕ) (w s : Bytes)
    → All (λ d. takes g d ≡ true) (c ∷ w)
    → match_string p s ≡ true
    → match_string (g ∷ p) (c ∷ (w ++ s)) ≡ true
unfolding match_string
match_string-run (byte b) p c w s a m = cc (a.0)
match_string-run single p c [] s a m = ground arith
match_string-run single p c (d ∷ w) s a m = ground (arith, match_string-run single p d w s a.1 m)
match_string-run multi p c [] s a m = ground arith
match_string-run multi p c (d ∷ w) s a m = ground (arith, match_string-run multi p d w s a.1 m)

Expands→match_string : {p : Matcher} {s : Bytes} → Expands p s → match_string p s ≡ true
unfolding match_string
Expands→match_string done = refl
Expands→match_string (literal e) = ground (arith, Expands→match_string e)
Expands→match_string (run {g} {p} c w s a eq e) =
    rw eq (match_string-run g p c w s a (Expands→match_string e))

-- The matcher accepts a URI exactly when the URI is an expansion of the pattern.
pub match_string_iff : (p : Matcher) (s : Bytes) → (match_string p s ≡ true) ↔ Expands p s
match_string_iff p s = (match_string→Expands p s, Expands→match_string)
