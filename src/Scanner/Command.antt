-- ===== src/Scanner/Command.antt =====
-- parseCommand of scanner/engine.go, which splits the command that a scan starts.
use mathlib.Core.Bool.{and-false}
use mcptrust.Base.{
  ℕ, ◌≡◌, inl, inr, Bool, true, false, not, ◌&&◌, ◌||◌, List, [], ◌∷◌, ◌++◌, ◌==◌, if◌then◌else◌,
  Bool-cases, is_empty, Bytes, All, ok,
}
use mcptrust.Runner.Command.{
  Splitter, flush, split_step, split_run, split_end, split_start, parse_server_command, backslash,
}

-- The variables of the loop.
pub record WordReader : Type 0 where
  pub parts : List Bytes
  pub current : Bytes
  pub in_quotes : Bool
  pub quote_char : ℕ

unfoldable pub end_word : WordReader → WordReader
end_word w =
    if is_empty w.current then w else record w { parts = w.parts ++ (w.current ∷ []); current = [] }

unfoldable pub read_rune : WordReader → ℕ → WordReader
unfolding end_word
read_rune w r =
    if (r == 34 || r == 39) && not w.in_quotes
    then record w { in_quotes = true; quote_char = r }
    else if r == w.quote_char && w.in_quotes
    then record w { in_quotes = false; quote_char = 0 }
    else if r == 32 && not w.in_quotes
    then end_word w
    else record w { current = w.current ++ (r ∷ []) }

unfoldable pub read_runes : WordReader → Bytes → WordReader
unfolding read_rune
read_runes w [] = w
read_runes w (r ∷ rs) = read_runes (read_rune w r) rs

unfoldable pub parse_command : Bytes → List Bytes
unfolding end_word read_runes
parse_command command =
    (end_word (
      read_runes (record { parts = []; current = []; in_quotes = false; quote_char = 0 })
        command)).parts

abbrev reader : List Bytes → Bytes → Bool → ℕ → WordReader
reader args current quoted q = record {
  parts = args;
  current = current;
  in_quotes = quoted;
  quote_char = q;
}

abbrev splitter : List Bytes → Bytes → Bool → ℕ → Splitter
splitter args current quoted q = record {
  args = args;
  current = current;
  in_quote = quoted;
  quote_char = q;
  escaped = false;
}

-- The two loops have read the same.
data Agree : Splitter → WordReader → Type 0 where
  outside :
      (args : List Bytes) (current : Bytes) (q k : ℕ)
      → Agree (splitter args current false q) (reader args current false k)
  inside :
      (args : List Bytes) (current : Bytes) (q : ℕ)
      → Agree (splitter args current true q) (reader args current true q)

flush-Agree :
    (args : List Bytes) (current : Bytes) (q k : ℕ)
    → Agree (flush (splitter args current false q)) (end_word (reader args current false k))
unfolding flush end_word
flush-Agree args [] q k = outside args [] q k
flush-Agree args (c ∷ current) q k = outside (args ++ ((c ∷ current) ∷ [])) [] q k

-- The ends of the two functions on what was read.
end-eq :
    (args : List Bytes) (current : Bytes) (q k : ℕ) (result : List Bytes)
    → split_end (splitter args current false q) ≡ ok result
    → (end_word (reader args current false k)).parts ≡ result
unfolding split_end flush end_word
end-eq [] [] q k result h = cc
end-eq (a ∷ args) [] q k result h = cc
end-eq [] (c ∷ current) q k result h = cc
end-eq (a ∷ args) (c ∷ current) q k result h = cc

Agree-eq :
    (s : Splitter) (w : WordReader) (result : List Bytes)
    → Agree s w
    → split_end s ≡ ok result
    → (end_word w).parts ≡ result
unfolding split_end
Agree-eq s w result (outside args current q k) h = end-eq args current q k result h
Agree-eq s w result (inside args current q) h = cc

module _ (is_space : ℕ → Bool) where
  -- A code point that is no backslash, and no space but ' '.
  abbrev IsCommon : ℕ → Type 0
  IsCommon c = ((c == backslash) ≡ false) × (is_space c ≡ (c == 32))

  outside-Agree :
      (args : List Bytes) (current : Bytes) (q k c : ℕ)
      → IsCommon c
      → Agree
          (split_step is_space (splitter args current false q) c)
          (read_rune (reader args current false k) c)
  unfolding split_step read_rune
  outside-Agree args current q k c h = elim (Bool-cases (c == 34)) [
    | inl e ↦ rw (h.0, e) (inside args current c)
    | inr e ↦ elim (Bool-cases (c == 39)) [
      | inl f ↦ rw (h.0, e, f) (inside args current c)
      | inr f ↦ elim (Bool-cases (c == 32)) [
        | inl g ↦ rw (h.0, e, f, h.1, g, and-false (c == k)) (flush-Agree args current q k)
        | inr g ↦
            rw (h.0, e, f, h.1, g, and-false (c == k)) (outside args (current ++ (c ∷ [])) q k)
      ]
    ]
  ]

  step-Agree :
      (s : Splitter) (w : WordReader) (c : ℕ)
      → IsCommon c
      → Agree s w
      → Agree (split_step is_space s c) (read_rune w c)
  unfolding split_step read_rune
  step-Agree s w c h (outside args current q k) = outside-Agree args current q k c h
  step-Agree s w c h (inside args current q) = elim (Bool-cases (c == q)) [
    | inl e ↦ rw (h.0, e, and-false (c == 34 || c == 39)) (outside args current q 0)
    | inr e ↦
        rw (h.0, e, and-false (c == 34 || c == 39), and-false (c == 32))
          (inside args (current ++ (c ∷ [])) q)
  ]

  run-Agree :
      (s : Splitter) (w : WordReader) (cs : Bytes)
      → All IsCommon cs
      → Agree s w
      → Agree (split_run is_space s cs) (read_runes w cs)
  unfolding split_run read_runes
  run-Agree s w [] h a = a
  run-Agree s w (c ∷ cs) h a =
      run-Agree (split_step is_space s c) (read_rune w c) cs h.1 (step-Agree s w c h.0 a)

  -- A command without backslashes and without spaces other than ' ', which the run command accepts,
  -- is split into the same arguments by the scan.
  pub parse_command-parse_server_command :
      (command : Bytes) (args : List Bytes)
      → All IsCommon command
      → parse_server_command is_space command ≡ ok args
      → parse_command command ≡ args
  unfolding parse_server_command parse_command
  parse_command-parse_server_command [] args h e = cc
  parse_command-parse_server_command (c ∷ command) args h e =
      Agree-eq _ _ args
        (run-Agree split_start (reader [] [] false 0) (c ∷ command) h (outside [] [] 0 0)) e
