-- ===== src/Runner/Command/Split.antt =====
-- ParseServerCommand of runner/sanitize.go: the arguments of a command that is written as words.
use mcptrust.Base.{
  ℕ, ◌≡◌, refl, ◌∙◌, ap, Bool, true, false, List, [], ◌∷◌, ◌++◌, append_assoc, append-nil, arith,
  ◌==◌, if◌then◌else◌, is_empty, Bytes, All, Result, ok, err,
}
use mcptrust.Runner.Command.{
  single_quote, double_quote, CommandError, no_arguments, Splitter, flush, split_step, split_run,
  split_end, parse_server_command,
}
use mcptrust.Runner.Command.Words.{
  Quoted, literal, shielded, Piece, bare, backslashed, in_single, in_double, render_quoted,
  quoted_text, render_piece, text_of, Word, render_word, value, render_words, keep_word, arguments,
  IsQuoted, IsPiece, IsBlank, AreWords,
}

-- The states outside and inside a quotation.
abbrev outside : List Bytes → Bytes → ℕ → Splitter
outside args current q = record {
  args = args;
  current = current;
  in_quote = false;
  quote_char = q;
  escaped = false;
}

abbrev inside : List Bytes → Bytes → ℕ → Splitter
inside args current q = record {
  args = args;
  current = current;
  in_quote = true;
  quote_char = q;
  escaped = false;
}

-- The quote that the splitter saw last.
abbrev quote_after : Piece → ℕ → ℕ
quote_after (bare c) q = q
quote_after (backslashed c) q = q
quote_after (in_single s) q = single_quote
quote_after (in_double qs) q = double_quote

abbrev word_quote : Word → ℕ → ℕ
word_quote [] q = q
word_quote (p ∷ ps) q = word_quote ps (quote_after p q)

module _ (is_space : ℕ → Bool) where
  run-single :
      (args : List Bytes) (current s rest : Bytes)
      → All (λ c. (c == single_quote) ≡ false) s
      → split_run is_space (inside args current single_quote) (s ++ (single_quote ∷ rest))
        ≡ split_run is_space (outside args (current ++ s) single_quote) rest
  unfolding split_run split_step
  run-single args current [] rest h = rw (append-nil current) refl
  run-single args current (c ∷ s) rest h =
      ground (arith, append_assoc current (c ∷ []) s, run-single args (current ++ (c ∷ [])) s rest)

  run-double :
      (args : List Bytes) (current : Bytes) (qs : List Quoted) (rest : Bytes)
      → All IsQuoted qs
      → split_run is_space
          (inside args current double_quote)
          (render_quoted qs (double_quote ∷ rest))
        ≡ split_run is_space (outside args (current ++ quoted_text qs) double_quote) rest
  unfolding split_run split_step
  run-double args current [] rest h = rw (append-nil current) refl
  run-double args current (literal c ∷ qs) rest h = ground (
    arith,
    append_assoc current (c ∷ []) (quoted_text qs),
    run-double args (current ++ (c ∷ [])) qs rest,
  )
  run-double args current (shielded c ∷ qs) rest h = ground (
    arith,
    append_assoc current (c ∷ []) (quoted_text qs),
    run-double args (current ++ (c ∷ [])) qs rest,
  )

  run-piece :
      (args : List Bytes) (current : Bytes) (q : ℕ) (p : Piece) (rest : Bytes)
      → IsPiece is_space p
      → split_run is_space (outside args current q) (render_piece p rest)
        ≡ split_run is_space (outside args (current ++ text_of p) (quote_after p q)) rest
  unfolding split_run split_step
  run-piece args current q (bare c) rest h = ground arith
  run-piece args current q (backslashed c) rest h = refl
  run-piece args current q (in_single s) rest h = run-single args current s rest h
  run-piece args current q (in_double qs) rest h = run-double args current qs rest h

  run-word :
      (args : List Bytes) (current : Bytes) (q : ℕ) (w : Word) (rest : Bytes)
      → All (IsPiece is_space) w
      → split_run is_space (outside args current q) (render_word w rest)
        ≡ split_run is_space (outside args (current ++ value w) (word_quote w q)) rest
  run-word args current q [] rest h = rw (append-nil current) refl
  run-word args current q (p ∷ ps) rest h =
      run-piece args current q p (render_word ps rest) h.0
      ∙ run-word args (current ++ text_of p) (quote_after p q) ps rest h.1
      ∙ rw (append_assoc current (text_of p) (value ps)) refl

  run-blank :
      (args : List Bytes) (current : Bytes) (q c : ℕ) (rest : Bytes)
      → IsBlank is_space c
      → split_run is_space (outside args current q) (c ∷ rest)
        ≡ split_run is_space (flush (outside args current q)) rest
  unfolding split_run split_step
  run-blank args current q c rest h = ground arith

  run-blanks :
      (args : List Bytes) (q : ℕ) (blanks rest : Bytes)
      → All (IsBlank is_space) blanks
      → split_run is_space (outside args [] q) (blanks ++ rest)
        ≡ split_run is_space (outside args [] q) rest
  unfolding flush
  run-blanks args q [] rest h = refl
  run-blanks args q (c ∷ blanks) rest h =
      run-blank args [] q c (blanks ++ rest) h.0 ∙ run-blanks args q blanks rest h.1

  flush-outside :
      (args : List Bytes) (current : Bytes) (q : ℕ)
      → flush (outside args current q) ≡ outside (args ++ keep_word current []) [] q
  unfolding flush
  flush-outside args [] q = rw (append-nil args) refl
  flush-outside args (c ∷ current) q = refl

  -- The end of a word: the blanks behind it.
  run-end_of_word :
      (args : List Bytes) (current : Bytes) (q : ℕ) (blanks rest : Bytes)
      → All (IsBlank is_space) blanks
      → is_empty blanks ≡ false
      → split_run is_space (outside args current q) (blanks ++ rest)
        ≡ split_run is_space (outside (args ++ keep_word current []) [] q) rest
  run-end_of_word args current q [] rest h e = cc
  run-end_of_word args current q (c ∷ blanks) rest h e =
      run-blank args current q c (blanks ++ rest) h.0
      ∙ rw (flush-outside args current q)
          (run-blanks (args ++ keep_word current []) q blanks rest h.1)

  ending : List Bytes → Result CommandError (List Bytes)
  ending args = if is_empty args then err no_arguments else ok args

  end-outside :
      (args : List Bytes) (current : Bytes) (q : ℕ)
      → split_end (outside args current q) ≡ ending (args ++ keep_word current [])
  unfolding split_end ending
  end-outside args current q = rw (flush-outside args current q) refl

  append-keep_word :
      (args : List Bytes) (w : Bytes) (rest : List Bytes)
      → (args ++ keep_word w []) ++ rest ≡ args ++ keep_word w rest
  append-keep_word args [] rest = rw (append-nil args) refl
  append-keep_word args (c ∷ w) rest = append_assoc args ((c ∷ w) ∷ []) rest

  run-words :
      (args : List Bytes) (q : ℕ) (ws : List (Word × Bytes)) (last : Word)
      → AreWords is_space ws
      → All (IsPiece is_space) last
      → split_end (split_run is_space (outside args [] q) (render_words ws last))
        ≡ ending (args ++ arguments ws last)
  unfolding split_run
  run-words args q [] last h l =
      ap split_end (run-word args [] q last [] l)
      ∙ end-outside args (value last) (word_quote last q)
  run-words args q ((w, blanks) ∷ ws) last h l =
      ap split_end (
        run-word args [] q w (blanks ++ render_words ws last) h.0
        ∙ run-end_of_word args (value w) (word_quote w q) blanks (render_words ws last) h.1 h.2)
      ∙ run-words (args ++ keep_word (value w) []) (word_quote w q) ws last h.3 l
      ∙ ap ending (append-keep_word args (value w) (arguments ws last))

  -- A command that is written as words of bare, escaped and quoted pieces, with blanks before and
  -- between them, is split into the texts of its words. Empty words are left out, and a command with
  -- no other words is refused.
  pub parse_server_command-render_words :
      (blanks : Bytes) (ws : List (Word × Bytes)) (last : Word)
      → All (IsBlank is_space) blanks
      → AreWords is_space ws
      → All (IsPiece is_space) last
      → is_empty (blanks ++ render_words ws last) ≡ false
      → parse_server_command is_space (blanks ++ render_words ws last)
        ≡ (if is_empty (arguments ws last) then err no_arguments else ok (arguments ws last))
  unfolding parse_server_command ending
  parse_server_command-render_words blanks ws last b h l e =
      rw (e) (
        ap split_end (run-blanks [] 0 blanks (render_words ws last) b) ∙ run-words [] 0 ws last h l)
