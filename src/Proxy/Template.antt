-- ===== src/Proxy/Template.antt =====
-- proxy/enforce.go, CompileTemplateMatcher: a URI template becomes an anchored pattern. Of package
-- regexp the code uses QuoteMeta, the search for \\{([^}]+)\\} and the matching of a pattern that
-- is made of literals, ([^/]+) and (.+); these are modelled here over bytes.
use mcptrust.Base.{
  ℕ, zero, suc, Bool, true, false, ◌&&◌, ◌||◌, Option, none, some, List, [], ◌∷◌, ◌++◌, map, ◌==◌,
  if◌then◌else◌, leb, length, Bytes, codes, contains, Result, ok, err, not,
}
pub mod Matching
pub mod Pieces
pub mod Rendered

pub data TemplateError : Type 0 where
  unsupported_operator : TemplateError

-- A literal byte, ([^/]+) or (.+).
pub data Segment : Type 0 where
  byte : ℕ → Segment
  single multi : Segment

abbrev pub Matcher : Type 0
Matcher = List Segment

pub is_meta : ℕ → Bool
is_meta c =
    c == 92
    || c == b'.'
    || c == b'+'
    || c == b'*'
    || c == b'?'
    || c == b'('
    || c == b')'
    || c == b'|'
    || c == b'['
    || c == b']'
    || c == b'{'
    || c == b'}'
    || c == b'^'
    || c == b'$'

-- regexp.QuoteMeta.
unfoldable pub quote_meta : Bytes → Bytes
unfolding is_meta
quote_meta [] = []
quote_meta (c ∷ s) = if is_meta c then 92 ∷ c ∷ quote_meta s else c ∷ quote_meta s

-- The rest of \\{([^}]+)\\} behind its opening: `n` bytes other than } are read, and `escaped`
-- tells whether the last of them is a backslash. The result is what follows the match.
close_placeholder : ℕ → Bool → Bytes → Option Bytes
close_placeholder n escaped [] = none
close_placeholder n escaped (c ∷ s) =
    let more = close_placeholder (suc n) (c == 92) s in
    if c == b'}' then (if escaped && leb 2 n then some s else none) else more

-- A match of \\{([^}]+)\\} at the head of the text.
unfoldable pub placeholder? : Bytes → Option Bytes
unfolding close_placeholder
placeholder? (a ∷ b ∷ s) = if a == 92 && b == b'{' then close_placeholder 0 false s else none
placeholder? _ = none

-- The escaped template cut at its placeholders: FindAllStringIndex and the loop over its matches.
pub data Piece : Type 0 where
  text : Bytes → Piece
  placeholder : Piece

unfoldable pub split_pieces : ℕ → Bytes → Bytes → List Piece
split_pieces zero acc s = text (acc ++ s) ∷ []
split_pieces (suc fuel) acc [] = text acc ∷ []
split_pieces (suc fuel) acc (c ∷ s) = elim (placeholder? (c ∷ s)) [
  | some rest ↦ text acc ∷ placeholder ∷ split_pieces fuel [] rest
  | none ↦ split_pieces fuel (acc ++ c ∷ []) s
]

-- How a regular expression reads escaped text: a backslash stands for the byte behind it.
unfoldable pub read_literal : Bytes → Matcher
read_literal [] = []
read_literal (c ∷ []) = byte c ∷ []
read_literal (c ∷ d ∷ s) =
    let escape = byte d ∷ read_literal s in
    let plain = byte c ∷ read_literal (d ∷ s) in if c == 92 then escape else plain

has_placeholder : List Piece → Bool
has_placeholder [] = false
has_placeholder (text t ∷ ps) = has_placeholder ps
has_placeholder (placeholder ∷ ps) = true

-- The final placeholder becomes (.+), the others ([^/]+).
unfoldable pub assemble : List Piece → Matcher
unfolding has_placeholder
assemble [] = []
assemble (text t ∷ ps) = read_literal t ++ assemble ps
assemble (placeholder ∷ ps) = (if has_placeholder ps then single else multi) ∷ assemble ps

unfoldable pub has_operator : Bytes → Bool
has_operator template =
    contains template (codes "{+")
    || contains template (codes "{?")
    || contains template (codes "{#")
    || contains template (codes "{.")
    || contains template (codes "{/")
    || contains template (codes "{;")
    || contains template (codes "{&")

unfoldable pub compile_template_matcher : Bytes → Result TemplateError Matcher
unfolding has_operator quote_meta split_pieces placeholder? assemble read_literal
compile_template_matcher template =
    if has_operator template
    then err unsupported_operator
    else let escaped = quote_meta template in
      ok (assemble (split_pieces (suc (length escaped)) [] escaped))

-- A class of bytes that a placeholder takes: a dot is any byte but a newline.
abbrev pub takes : Segment → ℕ → Bool
takes (byte b) c = false
takes single c = not (c == b'/')
takes multi c = not (c == 10)

-- regexp.MatchString for an anchored pattern of such segments.
unfoldable pub match_string : Matcher → Bytes → Bool
match_string [] [] = true
match_string [] (c ∷ s) = false
match_string (g ∷ p) [] = false
match_string (byte b ∷ p) (c ∷ s) = let rest = match_string p s in c == b && rest
match_string (single ∷ p) (c ∷ s) = elim (takes single c) [
  | false ↦ false
  | true ↦ elim (match_string p s) [ true ↦ true | false ↦ match_string (single ∷ p) s ]
]
match_string (multi ∷ p) (c ∷ s) = elim (takes multi c) [
  | false ↦ false
  | true ↦ elim (match_string p s) [ true ↦ true | false ↦ match_string (multi ∷ p) s ]
]
