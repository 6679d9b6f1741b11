-- ===== src/Runner/Command/Words.antt =====
-- How a command line may be written, for runner/sanitize.go: words of bare, escaped and quoted
-- pieces with blanks between them.
use mcptrust.Base.{
  ℕ, ◌≡◌, Bool, true, false, List, [], ◌∷◌, ◌++◌, ◌==◌, if◌then◌else◌, is_empty, Bytes, All,
}
use mcptrust.Runner.Command.{backslash, single_quote, double_quote}

-- A code point between double quotes, written with a backslash or without.
pub data Quoted : Type 0 where
  literal shielded : ℕ → Quoted

pub data Piece : Type 0 where
  bare backslashed : ℕ → Piece
  in_single : Bytes → Piece
  in_double : List Quoted → Piece

abbrev pub render_quoted : List Quoted → Bytes → Bytes
render_quoted [] rest = rest
render_quoted (literal c ∷ qs) rest = c ∷ render_quoted qs rest
render_quoted (shielded c ∷ qs) rest = backslash ∷ c ∷ render_quoted qs rest

abbrev pub quoted_text : List Quoted → Bytes
quoted_text [] = []
quoted_text (literal c ∷ qs) = c ∷ quoted_text qs
quoted_text (shielded c ∷ qs) = c ∷ quoted_text qs

-- The piece as it is written, with what follows it.
abbrev pub render_piece : Piece → Bytes → Bytes
render_piece (bare c) rest = c ∷ rest
render_piece (backslashed c) rest = backslash ∷ c ∷ rest
render_piece (in_single s) rest = single_quote ∷ (s ++ (single_quote ∷ rest))
render_piece (in_double qs) rest = double_quote ∷ render_quoted qs (double_quote ∷ rest)

abbrev pub text_of : Piece → Bytes
text_of (bare c) = c ∷ []
text_of (backslashed c) = c ∷ []
text_of (in_single s) = s
text_of (in_double qs) = quoted_text qs

abbrev pub Word : Type 0
Word = List Piece

abbrev pub render_word : Word → Bytes → Bytes
render_word [] rest = rest
render_word (p ∷ ps) rest = render_piece p (render_word ps rest)

abbrev pub value : Word → Bytes
value [] = []
value (p ∷ ps) = text_of p ++ value ps

-- Words, each with the blanks behind it, and a last word with nothing behind it.
abbrev pub render_words : List (Word × Bytes) → Word → Bytes
render_words [] last = render_word last []
render_words ((w, blanks) ∷ ws) last = render_word w (blanks ++ render_words ws last)

-- An empty word is no argument.
abbrev pub keep_word : Bytes → List Bytes → List Bytes
keep_word w rest = if is_empty w then rest else w ∷ rest

abbrev pub arguments : List (Word × Bytes) → Word → List Bytes
arguments [] last = keep_word (value last) []
arguments ((w, blanks) ∷ ws) last = keep_word (value w) (arguments ws last)

-- No backslash and no quote.
abbrev pub IsPlain : ℕ → Type 0
IsPlain c =
    ((c == backslash) ≡ false) × ((c == double_quote) ≡ false) × ((c == single_quote) ≡ false)

abbrev pub IsQuoted : Quoted → Type 0
IsQuoted (literal c) = ((c == backslash) ≡ false) × ((c == double_quote) ≡ false)
IsQuoted (shielded c) = Unit

module _ (is_space : ℕ → Bool) where
  abbrev pub IsPiece : Piece → Type 0
  IsPiece (bare c) = IsPlain c × (is_space c ≡ false)
  IsPiece (backslashed c) = Unit
  IsPiece (in_single s) = All (λ c. (c == single_quote) ≡ false) s
  IsPiece (in_double qs) = All IsQuoted qs

  abbrev pub IsBlank : ℕ → Type 0
  IsBlank c = IsPlain c × (is_space c ≡ true)

  abbrev pub AreWords : List (Word × Bytes) → Type 0
  AreWords [] = Unit
  AreWords ((w, blanks) ∷ ws) =
      All IsPiece w × All IsBlank blanks × (is_empty blanks ≡ false) × AreWords ws
