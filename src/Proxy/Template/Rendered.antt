-- ===== src/Proxy/Template/Rendered.antt =====
-- What CompileTemplateMatcher (proxy/enforce.go) makes of a template that is written as literal
-- texts and named placeholders.
use mcptrust.Base.{
  ℕ, suc, ◌≡◌, refl, ◌≢◌, Bool, true, false, not, Bool-cases, inl, inr, [], ◌∷◌, ◌++◌, arith, Bytes,
  ap, length, ok, sym, ◌∙◌, append-nil, map, if◌then◌else◌, is_empty, contains,
}
use mcptrust.Proxy.Template.{
  byte, single, multi, Matcher, quote_meta, is_meta, read_literal, assemble, has_placeholder,
  has_operator, compile_template_matcher,
}
use mcptrust.Proxy.Template.Pieces.{
  split_pieces-render, quote_meta-plain, IsParts, quote_meta-nil, render, NoBraces, segments,
  pieces, quote_meta-meta, Parts, is_operator,
}

read_literal-plain :
    (c : ℕ) (s : Bytes) → is_meta c ≡ false → read_literal (c ∷ s) ≡ byte c ∷ read_literal s
unfolding read_literal is_meta
read_literal-plain c [] h = refl
read_literal-plain c (d ∷ s) h = ground arith

read_literal-quote_meta : (l : Bytes) → NoBraces l → read_literal (quote_meta l) ≡ map byte l
unfolding read_literal
read_literal-quote_meta [] n = rw quote_meta-nil
read_literal-quote_meta (c ∷ l) n = elim (Bool-cases (is_meta c)) [
  | inl m ↦
      rw (quote_meta-meta c l m) (ap (λ (t : Matcher). byte c ∷ t) (read_literal-quote_meta l n.1))
  | inr m ↦ rw (quote_meta-plain c l m) (
      read_literal-plain c (quote_meta l) m
      ∙ ap (λ (t : Matcher). byte c ∷ t) (read_literal-quote_meta l n.1))
]

has_placeholder-pieces :
    (ps : Parts) (last : Bytes) → has_placeholder (pieces ps last) ≡ not (is_empty ps)
unfolding has_placeholder
has_placeholder-pieces [] last = refl
has_placeholder-pieces (p ∷ ps) last = refl

if_not :
    (p l : Matcher) (b : Bool)
    → l ++ (if not b then single else multi) ∷ p ≡ l ++ (if b then multi else single) ∷ p
if_not p l true = refl
if_not p l false = refl

assemble-pieces :
    (ps : Parts) (last : Bytes)
    → IsParts ps
    → NoBraces last
    → assemble (pieces ps last) ≡ segments ps last
unfolding assemble
assemble-pieces [] last h n = rw (read_literal-quote_meta last n, append-nil)
assemble-pieces ((l, m) ∷ ps) last h n =
    rw
      (
        read_literal-quote_meta l h.0.0,
        assemble-pieces ps last h.1 n,
        has_placeholder-pieces ps last,
      )
      (if_not _ _ (is_empty ps))

-- The two bytes of an operator do not stand in a rendered template.
contains-skip :
    (l r : Bytes) (x : ℕ)
    → NoBraces l
    → contains (l ++ r) (b'{' ∷ x ∷ []) ≡ contains r (b'{' ∷ x ∷ [])
unfolding contains
contains-skip [] r x n = refl
contains-skip (c ∷ l) r x n = ground (arith, contains-skip l r x n.1)

contains-nil : (x : ℕ) → contains [] (b'{' ∷ x ∷ []) ≡ false
unfolding contains
contains-nil x = refl

contains-open :
    (c x : ℕ) (s : Bytes)
    → c ≢ x
    → contains (b'{' ∷ c ∷ s) (b'{' ∷ x ∷ []) ≡ contains (c ∷ s) (b'{' ∷ x ∷ [])
unfolding contains
contains-open c x s h = ground arith

contains-close :
    (x : ℕ) (s : Bytes) → contains (b'}' ∷ s) (b'{' ∷ x ∷ []) ≡ contains s (b'{' ∷ x ∷ [])
unfolding contains
contains-close x s = refl

operator-ne : (c x : ℕ) → is_operator c ≡ false → is_operator x ≡ true → c ≢ x
operator-ne c x p q e = cc (ap is_operator e)

contains-render :
    (ps : Parts) (last : Bytes) (x : ℕ)
    → is_operator x ≡ true
    → IsParts ps
    → NoBraces last
    → contains (render ps last) (b'{' ∷ x ∷ []) ≡ false
contains-render [] last x o h n =
    ap (λ (t : Bytes). contains t (b'{' ∷ x ∷ [])) (sym (append-nil last))
    ∙ contains-skip last [] x n
    ∙ contains-nil x
contains-render ((l, []) ∷ ps) last x o h n = absurd h.0.1
contains-render ((l, c ∷ m) ∷ ps) last x o h n =
    contains-skip l (b'{' ∷ c ∷ (m ++ b'}' ∷ render ps last)) x h.0.0
    ∙ contains-open c x _ (operator-ne c x h.0.1.0 o)
    ∙ contains-skip (c ∷ m) (b'}' ∷ render ps last) x h.0.1.1
    ∙ contains-close x (render ps last)
    ∙ contains-render ps last x o h.1 n

has_operator-render :
    (ps : Parts) (last : Bytes) → IsParts ps → NoBraces last → has_operator (render ps last) ≡ false
unfolding has_operator
has_operator-render ps last h n = ground (
  arith,
  contains-render ps last b'+' refl h n,
  contains-render ps last b'?' refl h n,
  contains-render ps last b'#' refl h n,
  contains-render ps last b'.' refl h n,
  contains-render ps last b'/' refl h n,
  contains-render ps last b';' refl h n,
  contains-render ps last b'&' refl h n,
)

-- A template of literal texts and named placeholders is compiled to their segments, in order,
-- and is never refused.
pub compile_template_matcher-render :
    (ps : Parts) (last : Bytes)
    → IsParts ps
    → NoBraces last
    → compile_template_matcher (render ps last) ≡ ok (segments ps last)
unfolding compile_template_matcher
compile_template_matcher-render ps last h n = rw (
  has_operator-render ps last h n,
  split_pieces-render ps last (suc (length (quote_meta (render ps last)))) h n (omega arith),
  assemble-pieces ps last h n,
)
