-- ===== src/Proxy/Limits/Lines.antt =====
-- What LimitedLineReader.ReadLine (proxy/limits.go) returns, and where it leaves the stream.
use mcptrust.Base.{
  ℕ, ◌+◌, ◌≤◌, ◌<◌, ◌≡◌, refl, ap, inl, inr, ◌==◌, Bool-cases, ◌∙◌, ◌≢◌, [], ◌∷◌, ◌++◌, sym,
  append_assoc, append-nil, arith, length, length-append, All, Bytes, Result, ok, err,
}
use mcptrust.Proxy.Limits.{
  End, eof, failure, ReadError, too_long, Stream, discard_line, strip_cr, at_end, read_loop,
  read_line,
}

abbrev pub NoNewline : Bytes → Type 0
NoNewline = All (λ b. b ≢ 10)

read_loop-line :
    (m : ℕ) (last : End) (line rest buf : Bytes)
    → length buf + length line < m
    → NoNewline line
    → read_loop m (line ++ 10 ∷ rest) last buf ≡ (ok (strip_cr (buf ++ line)), rest)
unfolding read_loop
read_loop-line m last [] rest buf h n = ground (arith, append-nil buf)
read_loop-line m last (b ∷ line) rest buf h n = ground (
  arith,
  append_assoc buf (b ∷ []) line,
  length-append buf (b ∷ []),
  read_loop-line m last line rest (buf ++ b ∷ []),
)

-- How a line ends: with a carriage return and a newline, or with a newline where no carriage return
-- stands in front of it.
pub data IsEnding (line : Bytes) : Bytes → Type 0 where
  crlf : IsEnding line (13 ∷ 10 ∷ [])
  newline : ((front : Bytes) → line ≢ front ++ 13 ∷ []) → IsEnding line (10 ∷ [])

strip_cr-cr : (line : Bytes) → strip_cr (line ++ 13 ∷ []) ≡ line
unfolding strip_cr
strip_cr-cr [] = refl
strip_cr-cr (b ∷ []) = refl
strip_cr-cr (b ∷ c ∷ line) = ap (λ t. b ∷ t) (strip_cr-cr (c ∷ line))

strip_cr-plain : (line : Bytes) → ((front : Bytes) → line ≢ front ++ 13 ∷ []) → strip_cr line ≡ line
unfolding strip_cr
strip_cr-plain [] n = refl
strip_cr-plain (b ∷ []) n = elim (Bool-cases (b == 13)) [
  | inl cr ↦ (let e : b ≡ 13 = ground arith in absurd (n [] (ap (λ c. c ∷ []) e)))
  | inr other ↦ rw other refl
]
strip_cr-plain (b ∷ c ∷ line) n =
    ap (λ t. b ∷ t) (strip_cr-plain (c ∷ line) (λ front e. n (b ∷ front) (ap (λ t. b ∷ t) e)))

NoNewline-cr : (line : Bytes) → NoNewline line → NoNewline (line ++ 13 ∷ [])
NoNewline-cr [] n = (λ e. omega (arith, e), tt)
NoNewline-cr (b ∷ line) n = (n.0, NoNewline-cr line n.1)

read_line-stripped :
    (max_size : ℕ) (last : End) (line rest : Bytes)
    → length line < max_size
    → NoNewline line
    → read_line max_size (record { bytes = line ++ 10 ∷ rest; last = last })
      ≡ (ok (strip_cr line), record { bytes = rest; last = last })
unfolding read_line
read_line-stripped m last line rest h n = ground (arith, read_loop-line m last line rest [])

-- A line that takes at most max_size bytes with its ending, a newline or a carriage return and a
-- newline, is returned whole without the ending, and the stream stands behind it.
pub read_line-line :
    (max_size : ℕ) (last : End) (line ending rest : Bytes)
    → IsEnding line ending
    → length line + length ending ≤ max_size
    → NoNewline line
    → read_line max_size (record { bytes = line ++ (ending ++ rest); last = last })
      ≡ (ok line, record { bytes = rest; last = last })
read_line-line m last line ending rest crlf h n =
    let long : length (line ++ 13 ∷ []) < m = omega (arith, length-append line (13 ∷ []), h) in
    ap (λ (s : Bytes). read_line m (record { bytes = s; last = last }))
      (sym (append_assoc line (13 ∷ []) (10 ∷ rest)))
    ∙ read_line-stripped m last (line ++ 13 ∷ []) rest long (NoNewline-cr line n)
    ∙ rw (strip_cr-cr line) refl
read_line-line m last line ending rest (newline plain) h n =
    read_line-stripped m last line rest (omega (arith, h)) n ∙ rw (strip_cr-plain line plain) refl

discard_line-newline :
    (line rest : Bytes) → NoNewline line → discard_line (line ++ 10 ∷ rest) ≡ rest
unfolding discard_line
discard_line-newline [] rest n = refl
discard_line-newline (b ∷ line) rest n = ground (arith, discard_line-newline line rest n.1)

read_loop-too_long :
    (m : ℕ) (last : End) (line rest buf : Bytes)
    → m ≤ length buf + length line
    → NoNewline line
    → read_loop m (line ++ 10 ∷ rest) last buf ≡ (err too_long, rest)
unfolding read_loop
read_loop-too_long m last [] rest buf h n = ground (arith, discard_line-newline [] rest tt)
read_loop-too_long m last (b ∷ line) rest buf h n = ground (
  arith,
  length-append buf (b ∷ []),
  discard_line-newline (b ∷ line) rest n,
  read_loop-too_long m last line rest (buf ++ b ∷ []),
)

-- A line of max_size bytes or more is refused as too long, and the stream stands behind its
-- newline: nothing of it is read as a further line.
pub read_line-too_long :
    (max_size : ℕ) (last : End) (line rest : Bytes)
    → max_size ≤ length line
    → NoNewline line
    → read_line max_size (record { bytes = line ++ 10 ∷ rest; last = last })
      ≡ (err too_long, record { bytes = rest; last = last })
unfolding read_line
read_line-too_long m last line rest h n = ground (arith, read_loop-too_long m last line rest [])

length-strip_cr-le : (s : Bytes) → length (strip_cr s) ≤ length s
unfolding strip_cr
length-strip_cr-le [] = omega arith
length-strip_cr-le (b ∷ []) = ground arith
length-strip_cr-le (b ∷ c ∷ s) = omega (arith, length-strip_cr-le (c ∷ s))

-- The result of a read is bounded.
abbrev pub Bounded : ℕ → Result ReadError Bytes → Type 0
Bounded m (ok line) = length line < m
Bounded m (err e) = Unit

at_end-Bounded : (m : ℕ) (last : End) (buf : Bytes) → length buf < m → Bounded m (at_end last buf)
unfolding at_end
at_end-Bounded m eof [] h = tt
at_end-Bounded m eof (b ∷ s) h = h
at_end-Bounded m failure s h = tt

read_loop-Bounded :
    (m : ℕ) (s : Bytes) (last : End) (buf : Bytes) → Bounded m (read_loop m s last buf).0
unfolding read_loop
read_loop-Bounded m [] last buf = ground (arith, at_end-Bounded m last buf)
read_loop-Bounded m (b ∷ s) last buf =
    ground (arith, length-strip_cr-le buf, read_loop-Bounded m s last (buf ++ b ∷ []))

-- Whatever the stream holds, a line that is returned has fewer than max_size bytes.
pub read_line-Bounded : (max_size : ℕ) (s : Stream) → Bounded max_size (read_line max_size s).0
unfolding read_line
read_line-Bounded m s = read_loop-Bounded m s.bytes s.last []
