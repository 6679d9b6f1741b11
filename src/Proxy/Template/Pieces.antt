-- ===== src/Proxy/Template/Pieces.antt =====
-- CompileTemplateMatcher of proxy/enforce.go: the pieces of a rendered template.
use Prim.Native.Nat.add
use mcptrust.Base.{
  ℕ, suc, ◌+◌, ◌-◌, ◌≤◌, ◌<◌, ◌≡◌, refl, ◌≢◌, Bool, true, false, ◌||◌, Bool-cases, inl, inr, none,
  some, List, [], ◌∷◌, ◌++◌, arith, Bytes, All, ap, subst, length, length-append, sym, ◌∙◌,
  append-nil, append_assoc, map, if◌then◌else◌, is_empty, ◌==◌,
}
use mcptrust.Proxy.Template.{
  byte, single, multi, Matcher, quote_meta, is_meta, Piece, text, placeholder, split_pieces,
  placeholder?, close_placeholder,
}

abbrev pub NoBraces : Bytes → Type 0
NoBraces = All (λ b. (b ≢ b'{') × (b ≢ b'}'))

-- The name of a placeholder does not begin with an RFC 6570 operator.
abbrev pub is_operator : ℕ → Bool
is_operator c =
    c == b'+' || c == b'?' || c == b'#' || c == b'.' || c == b'/' || c == b';' || c == b'&'

abbrev pub IsName : Bytes → Type 0
IsName [] = ⊥
IsName (c ∷ n) = (is_operator c ≡ false) × NoBraces (c ∷ n)

-- Each part is a literal text and the name of the placeholder behind it.
abbrev pub Parts : Type 0
Parts = List (Bytes × Bytes)

abbrev pub IsParts : Parts → Type 0
IsParts = All (λ p. NoBraces p.0 × IsName p.1)

abbrev pub render : Parts → Bytes → Bytes
render [] last = last
render ((l, n) ∷ ps) last = l ++ b'{' ∷ (n ++ b'}' ∷ render ps last)

-- A placeholder in the middle takes one path segment, the final one takes several.
abbrev pub segments : Parts → Bytes → Matcher
segments [] last = map byte last
segments ((l, n) ∷ ps) last =
    map byte l ++ (if is_empty ps then multi else single) ∷ segments ps last

quote_meta-append : (s t : Bytes) → quote_meta (s ++ t) ≡ quote_meta s ++ quote_meta t
unfolding quote_meta
quote_meta-append [] t = refl
quote_meta-append (c ∷ s) t = ground (arith, quote_meta-append s t)

-- The text does not begin with an opening brace.
abbrev StartsPlain : Bytes → Type 0
StartsPlain [] = Unit
StartsPlain (c ∷ s) = c ≢ b'{'

placeholder?-plain : (c : ℕ) (s : Bytes) → StartsPlain s → placeholder? (c ∷ s) ≡ none
unfolding placeholder?
placeholder?-plain c [] h = refl
placeholder?-plain c (d ∷ s) h = ground arith

quote_meta-StartsPlain :
    (l r : Bytes) → NoBraces l → StartsPlain r → StartsPlain (quote_meta l ++ r)
unfolding quote_meta
quote_meta-StartsPlain [] r n h = h
quote_meta-StartsPlain (c ∷ l) r n h = ground arith

pub quote_meta-meta :
    (c : ℕ) (s : Bytes) → is_meta c ≡ true → quote_meta (c ∷ s) ≡ 92 ∷ c ∷ quote_meta s
unfolding quote_meta
quote_meta-meta c s h = rw h

pub quote_meta-plain :
    (c : ℕ) (s : Bytes) → is_meta c ≡ false → quote_meta (c ∷ s) ≡ c ∷ quote_meta s
unfolding quote_meta
quote_meta-plain c s h = rw h

split_pieces-skip :
    (fuel : ℕ) (acc : Bytes) (c : ℕ) (s : Bytes)
    → placeholder? (c ∷ s) ≡ none
    → split_pieces (suc fuel) acc (c ∷ s) ≡ split_pieces fuel (acc ++ c ∷ []) s
unfolding split_pieces
split_pieces-skip fuel acc c s h = rw (h, split_pieces)

split_pieces-placeholder :
    (fuel : ℕ) (acc : Bytes) (c : ℕ) (s rest : Bytes)
    → placeholder? (c ∷ s) ≡ some rest
    → split_pieces (suc fuel) acc (c ∷ s) ≡ text acc ∷ placeholder ∷ split_pieces fuel [] rest
unfolding split_pieces
split_pieces-placeholder fuel acc c s rest h = rw (h, split_pieces)

split_pieces-end : (fuel : ℕ) (acc : Bytes) → split_pieces (suc fuel) acc [] ≡ text acc ∷ []
unfolding split_pieces
split_pieces-end fuel acc = refl

pub quote_meta-nil : quote_meta [] ≡ []
unfolding quote_meta
quote_meta-nil = refl

-- Escaped literal text is read into the accumulator byte by byte.
split_pieces-quote_meta :
    (l r acc : Bytes) (fuel : ℕ)
    → NoBraces l
    → StartsPlain r
    → split_pieces (length (quote_meta l) + fuel) acc (quote_meta l ++ r)
      ≡ split_pieces fuel (acc ++ quote_meta l) r
split_pieces-quote_meta [] r acc fuel n h = rw (quote_meta-nil, append-nil, add.zero)
split_pieces-quote_meta (c ∷ l) r acc fuel n h = elim (Bool-cases (is_meta c)) [
  | inl m ↦
      rw (quote_meta-meta c l m, add.suc, add.suc)
        (split_pieces-skip _ acc 92 _ (placeholder?-plain 92 _ n.0.0)
          ∙ split_pieces-skip _ _ c _ (placeholder?-plain c _ (quote_meta-StartsPlain l r n.1 h))
          ∙ split_pieces-quote_meta l r ((acc ++ 92 ∷ []) ++ c ∷ []) fuel n.1 h
          ∙ simp append_assoc)
  | inr m ↦
      rw (quote_meta-plain c l m, add.suc)
        (split_pieces-skip _ acc c _ (placeholder?-plain c _ (quote_meta-StartsPlain l r n.1 h))
          ∙ split_pieces-quote_meta l r (acc ++ c ∷ []) fuel n.1 h
          ∙ simp append_assoc)
]

split_pieces-last :
    (l : Bytes) (fuel : ℕ)
    → NoBraces l
    → length (quote_meta l) < fuel
    → split_pieces fuel [] (quote_meta l) ≡ text (quote_meta l) ∷ []
split_pieces-last l fuel n h =
    let e : fuel ≡ length (quote_meta l) + suc (fuel - suc (length (quote_meta l))) = omega arith in
    subst (λ (k : ℕ). split_pieces k [] (quote_meta l) ≡ text (quote_meta l) ∷ []) (sym e)
      (subst
        (λ (t : Bytes).
          split_pieces (length (quote_meta l) + suc (fuel - suc (length (quote_meta l)))) [] t
          ≡ text (quote_meta l) ∷ [])
        (append-nil (quote_meta l))
        (split_pieces-quote_meta l [] [] _ n tt ∙ split_pieces-end _ (quote_meta l)))

close_placeholder-name :
    (w r : Bytes) (n : ℕ) (e : Bool)
    → NoBraces w
    → 1 ≤ n + length w
    → close_placeholder n e (quote_meta w ++ 92 ∷ b'}' ∷ r) ≡ some r
unfolding close_placeholder
close_placeholder-name [] r n e h p = rw quote_meta-nil (ground arith)
close_placeholder-name (c ∷ w) r n e h p = elim (Bool-cases (is_meta c)) [
  | inl m ↦
      rw (quote_meta-meta c w m)
        (ground (arith, close_placeholder-name w r (suc (suc n)) (c == 92) h.1))
  | inr m ↦
      rw (quote_meta-plain c w m) (ground (arith, close_placeholder-name w r (suc n) (c == 92) h.1))
]

placeholder?-name :
    (c : ℕ) (w r : Bytes)
    → NoBraces (c ∷ w)
    → placeholder? (92 ∷ b'{' ∷ (quote_meta (c ∷ w) ++ 92 ∷ b'}' ∷ r)) ≡ some r
unfolding placeholder?
placeholder?-name c w r h = close_placeholder-name (c ∷ w) r 0 false h (omega arith)

split_pieces-part :
    (l n r : Bytes) (fuel : ℕ)
    → NoBraces l
    → IsName n
    → split_pieces
        (length (quote_meta l) + suc fuel)
        []
        (quote_meta l ++ 92 ∷ b'{' ∷ (quote_meta n ++ 92 ∷ b'}' ∷ r))
      ≡ text (quote_meta l) ∷ placeholder ∷ split_pieces fuel [] r
split_pieces-part l [] r fuel h k = absurd k
split_pieces-part l (c ∷ w) r fuel h k =
    split_pieces-quote_meta l _ [] (suc fuel) h (omega arith)
    ∙ split_pieces-placeholder fuel (quote_meta l) 92 _ r (placeholder?-name c w r k.1)

abbrev pub pieces : Parts → Bytes → List Piece
pieces [] last = text (quote_meta last) ∷ []
pieces ((l, n) ∷ ps) last = text (quote_meta l) ∷ placeholder ∷ pieces ps last

quote_meta-brace : (s : Bytes) → quote_meta (b'{' ∷ s) ≡ 92 ∷ b'{' ∷ quote_meta s
unfolding quote_meta
quote_meta-brace s = refl

quote_meta-close : (s : Bytes) → quote_meta (b'}' ∷ s) ≡ 92 ∷ b'}' ∷ quote_meta s
unfolding quote_meta
quote_meta-close s = refl

quote_meta-part :
    (l n r : Bytes)
    → quote_meta (l ++ b'{' ∷ (n ++ b'}' ∷ r))
      ≡ quote_meta l ++ 92 ∷ b'{' ∷ (quote_meta n ++ 92 ∷ b'}' ∷ quote_meta r)
quote_meta-part l n r = simp (quote_meta-append, quote_meta-brace, quote_meta-close)

pub split_pieces-render :
    (ps : Parts) (last : Bytes) (fuel : ℕ)
    → IsParts ps
    → NoBraces last
    → length (quote_meta (render ps last)) < fuel
    → split_pieces fuel [] (quote_meta (render ps last)) ≡ pieces ps last
split_pieces-render [] last fuel h n k = split_pieces-last last fuel n k
split_pieces-render ((l, m) ∷ ps) last fuel h n k =
    let rest : Bytes = quote_meta (render ps last) in
    let left : ℕ = fuel - suc (length (quote_meta l)) in
    let size : length (quote_meta l ++ 92 ∷ b'{' ∷ (quote_meta m ++ 92 ∷ b'}' ∷ rest))
        ≡ length (quote_meta l) + (2 + (length (quote_meta m) + (2 + length rest))) =
      omega (
        arith,
        length-append (quote_meta l) (92 ∷ b'{' ∷ (quote_meta m ++ 92 ∷ b'}' ∷ rest)),
        length-append (quote_meta m) (92 ∷ b'}' ∷ rest),
      ) in
    let short : length (quote_meta l ++ 92 ∷ b'{' ∷ (quote_meta m ++ 92 ∷ b'}' ∷ rest)) < fuel =
      subst (λ (t : Bytes). length t < fuel) (quote_meta-part l m (render ps last)) k in
    let e : fuel ≡ length (quote_meta l) + suc left = omega arith in
    rw quote_meta-part (
      subst
        (λ (f : ℕ).
          split_pieces f [] (quote_meta l ++ 92 ∷ b'{' ∷ (quote_meta m ++ 92 ∷ b'}' ∷ rest))
          ≡ pieces ((l, m) ∷ ps) last)
        (sym e)
        (split_pieces-part l m rest left h.0.0 h.0.1
          ∙ ap (λ (t : List Piece). text (quote_meta l) ∷ placeholder ∷ t)
              (split_pieces-render ps last left h.1 n (omega arith))))
