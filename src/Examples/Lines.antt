-- ===== src/Examples/Lines.antt =====
-- proxy/limits.go on short lines and a limit of eight bytes.
use mcptrust.Base.{◌≡◌, refl, [], ◌∷◌, ◌++◌, arith, codes, ok, err}
use mcptrust.Proxy.Limits.{eof, too_long, Stream, read_line}
use mcptrust.Proxy.Limits.Lines.{crlf, read_line-line, read_line-too_long}

abbrev two_lines : Stream
two_lines = record { bytes = codes "abc" ++ 13 ∷ 10 ∷ codes "de"; last = eof }

reads_first : read_line 8 two_lines ≡ (ok (codes "abc"), record { bytes = codes "de"; last = eof })
unfolding read_line
reads_first = refl

-- At the end of the input a line needs no newline.
reads_last :
    read_line 8 (record { bytes = codes "de"; last = eof })
    ≡ (ok (codes "de"), record { bytes = []; last = eof })
unfolding read_line
reads_last = refl

read_line-line_example :
    read_line 8 (record { bytes = codes "abc" ++ 13 ∷ 10 ∷ codes "de"; last = eof })
    ≡ (ok (codes "abc"), record { bytes = codes "de"; last = eof })
read_line-line_example =
    read_line-line 8 eof (codes "abc") (13 ∷ 10 ∷ []) (codes "de") crlf (omega arith) (omega arith)

read_line-too_long_example :
    read_line 3 (record { bytes = codes "abc" ++ 10 ∷ codes "de"; last = eof })
    ≡ (err too_long, record { bytes = codes "de"; last = eof })
read_line-too_long_example =
    read_line-too_long 3 eof (codes "abc") (codes "de") (omega arith) (omega arith)
