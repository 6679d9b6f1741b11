-- ===== src/Runner/Command/Safety.antt =====
-- ValidateCommandSafety of runner/sanitize.go, on a command that is written as words.
use mcptrust.Base.{
  ℕ, ◌≡◌, refl, ◌∙◌, ap, sym, subst, ◌↔◌, Bool, true, false, List, [], ◌∷◌, ◌++◌, append_assoc,
  append-nil, arith, ◌==◌, Bytes, codes, contains, All, Bool-cases, inl, inr, ok, Result-cases,
}
use mcptrust.Runner.Command.{
  single_quote, double_quote, Scan, safety_step, safety_run, scan_start, find_in, shell_patterns,
  validate_command_safety,
}
use mcptrust.Runner.Command.Words.{
  Quoted, literal, shielded, Piece, bare, backslashed, in_single, in_double, render_quoted,
  render_piece, Word, render_word, render_words, IsQuoted, IsPiece, IsBlank, AreWords,
}

-- The code points that stand outside quotes and behind no backslash.
abbrev pub visible_piece : Piece → Bytes
visible_piece (bare c) = c ∷ []
visible_piece (backslashed c) = []
visible_piece (in_single s) = []
visible_piece (in_double qs) = []

abbrev pub visible_word : Word → Bytes
visible_word [] = []
visible_word (p ∷ ps) = visible_piece p ++ visible_word ps

abbrev pub visible : List (Word × Bytes) → Word → Bytes
visible [] last = visible_word last
visible ((w, blanks) ∷ ws) last = visible_word w ++ (blanks ++ visible ws last)

abbrev plain_scan : Bytes → ℕ → Scan
plain_scan text q = record { in_quote = false; quote_char = q; escaped = false; unquoted = text }

abbrev quoted_scan : Bytes → ℕ → Scan
quoted_scan text q = record { in_quote = true; quote_char = q; escaped = false; unquoted = text }

scan-single :
    (text s rest : Bytes)
    → All (λ c. (c == single_quote) ≡ false) s
    → safety_run (quoted_scan text single_quote) (s ++ (single_quote ∷ rest))
      ≡ safety_run (plain_scan text single_quote) rest
unfolding safety_run safety_step
scan-single text [] rest h = refl
scan-single text (c ∷ s) rest h = ground (arith, scan-single text s rest)

scan-double :
    (text : Bytes) (qs : List Quoted) (rest : Bytes)
    → All IsQuoted qs
    → safety_run (quoted_scan text double_quote) (render_quoted qs (double_quote ∷ rest))
      ≡ safety_run (plain_scan text double_quote) rest
unfolding safety_run safety_step
scan-double text [] rest h = refl
scan-double text (literal c ∷ qs) rest h = ground (arith, scan-double text qs rest)
scan-double text (shielded c ∷ qs) rest h = scan-double text qs rest h.1

abbrev scan_quote : Piece → ℕ → ℕ
scan_quote (bare c) q = q
scan_quote (backslashed c) q = q
scan_quote (in_single s) q = single_quote
scan_quote (in_double qs) q = double_quote

abbrev word_quote : Word → ℕ → ℕ
word_quote [] q = q
word_quote (p ∷ ps) q = word_quote ps (scan_quote p q)

module _ (is_space : ℕ → Bool) where
  scan-piece :
      (text : Bytes) (q : ℕ) (p : Piece) (rest : Bytes)
      → IsPiece is_space p
      → safety_run (plain_scan text q) (render_piece p rest)
        ≡ safety_run (plain_scan (text ++ visible_piece p) (scan_quote p q)) rest
  unfolding safety_run safety_step
  scan-piece text q (bare c) rest h = ground arith
  scan-piece text q (backslashed c) rest h = rw (append-nil text) refl
  scan-piece text q (in_single s) rest h = rw (append-nil text) (scan-single text s rest h)
  scan-piece text q (in_double qs) rest h = rw (append-nil text) (scan-double text qs rest h)

  scan-word :
      (text : Bytes) (q : ℕ) (w : Word) (rest : Bytes)
      → All (IsPiece is_space) w
      → safety_run (plain_scan text q) (render_word w rest)
        ≡ safety_run (plain_scan (text ++ visible_word w) (word_quote w q)) rest
  scan-word text q [] rest h = rw (append-nil text) refl
  scan-word text q (p ∷ ps) rest h =
      scan-piece text q p (render_word ps rest) h.0
      ∙ scan-word (text ++ visible_piece p) (scan_quote p q) ps rest h.1
      ∙ rw (append_assoc text (visible_piece p) (visible_word ps)) refl

  scan-blanks :
      (text : Bytes) (q : ℕ) (blanks rest : Bytes)
      → All (IsBlank is_space) blanks
      → safety_run (plain_scan text q) (blanks ++ rest)
        ≡ safety_run (plain_scan (text ++ blanks) q) rest
  unfolding safety_run safety_step
  scan-blanks text q [] rest h = rw (append-nil text) refl
  scan-blanks text q (c ∷ blanks) rest h =
      ground
        (arith, append_assoc text (c ∷ []) blanks, scan-blanks (text ++ (c ∷ [])) q blanks rest)

  scan-words :
      (text : Bytes) (q : ℕ) (ws : List (Word × Bytes)) (last : Word)
      → AreWords is_space ws
      → All (IsPiece is_space) last
      → (safety_run (plain_scan text q) (render_words ws last)).unquoted ≡ text ++ visible ws last
  unfolding safety_run
  scan-words text q [] last h l = ap (λ (s : Scan). s.unquoted) (scan-word text q last [] l)
  scan-words text q ((w, blanks) ∷ ws) last h l =
      ap (λ (s : Scan). s.unquoted)
        (scan-word text q w (blanks ++ render_words ws last) h.0
          ∙ scan-blanks (text ++ visible_word w) (word_quote w q) blanks (render_words ws last) h.1)
      ∙ scan-words ((text ++ visible_word w) ++ blanks) (word_quote w q) ws last h.3 l
      ∙ rw
          (
            append_assoc (text ++ visible_word w) blanks (visible ws last),
            append_assoc text (visible_word w) (blanks ++ visible ws last),
          )
          refl

find_in-none :
    (s : Bytes) (ds : List Bytes) → (find_in s ds ≡ ok tt) ↔ All (λ d. contains s d ≡ false) ds
unfolding find_in
find_in-none s [] = (λ h. tt, λ h. refl)
find_in-none s (d ∷ ds) = elim (Bool-cases (contains s d)) [
  | inl t ↦ (λ h. ground arith, λ h. ground arith)
  | inr f ↦
      (λ h. (f, (find_in-none s ds).0 (ground arith)), λ h. rw (f) ((find_in-none s ds).1 h.1))
]

validate_command_safety-eq-ok :
    (command : Bytes)
    → (validate_command_safety command ≡ ok tt) ↔ (
        (contains command (codes "`") ≡ false)
        × (find_in (safety_run scan_start command).unquoted shell_patterns ≡ ok tt))
unfolding validate_command_safety
validate_command_safety-eq-ok command = elim (Bool-cases (contains command (codes "`"))) [
  | inl t ↦ (λ h. ground arith, λ h. ground arith)
  | inr f ↦ elim (Result-cases (find_in (safety_run scan_start command).unquoted shell_patterns)) [
    | inl (u, e) ↦ (λ h. (f, e), λ h. ground arith)
    | inr (d, e) ↦ (λ h. ground arith, λ h. ground arith)
  ]
]

-- An operator counts where a space stands on both of its sides.
abbrev pub spaced_operators : List Bytes
spaced_operators =
    codes " | "
    ∷ codes " && "
    ∷ codes " || "
    ∷ codes " ; "
    ∷ codes " > "
    ∷ codes " >> "
    ∷ codes " < "
    ∷ []

module _ (is_space : ℕ → Bool) where
  -- A command that is written as words is accepted exactly when it holds no backtick anywhere and, in
  -- the text that stands outside quotes and behind no backslash, none of |, &&, ||, ;, >, >> and <
  -- with a space on both sides. An operator without these spaces, and a single &, is accepted.
  pub validate_command_safety-render_words :
      (blanks : Bytes) (ws : List (Word × Bytes)) (last : Word)
      → All (IsBlank is_space) blanks
      → AreWords is_space ws
      → All (IsPiece is_space) last
      → (validate_command_safety (blanks ++ render_words ws last) ≡ ok tt) ↔ (
          (contains (blanks ++ render_words ws last) (codes "`") ≡ false)
          × All (λ p. contains (blanks ++ visible ws last) p ≡ false) spaced_operators)
  validate_command_safety-render_words blanks ws last b h l =
      let whole = validate_command_safety-eq-ok (blanks ++ render_words ws last) in
      let patterns = find_in-none (blanks ++ visible ws last) shell_patterns in
      let seen : (safety_run scan_start (blanks ++ render_words ws last)).unquoted
          ≡ blanks ++ visible ws last =
        ap (λ (s : Scan). s.unquoted) (scan-blanks is_space [] 0 blanks (render_words ws last) b)
        ∙ scan-words is_space blanks 0 ws last h l in
      (
        λ passed. (
          (whole.0 passed).0,
          patterns.0 (subst (λ u. find_in u shell_patterns ≡ ok tt) seen (whole.0 passed).1),
        ),
        λ clean. whole.1 (
          clean.0,
          subst (λ u. find_in u shell_patterns ≡ ok tt) (sym seen) (patterns.1 clean.1),
        ),
      )
