-- ===== src/Proxy/Limits.antt =====
-- proxy/limits.go: the resource limits, the validation of host IDs and the bounded line reader.
use mcptrust.Base.{
  ℕ, ◌+◌, ◌*◌, Bool, true, false, Option, none, some, List, [], ◌∷◌, ◌++◌, if◌then◌else◌, leb, ltb,
  ◌==◌, ◌&&◌, length, Bytes, Result, ok, err,
}
use mcptrust.Json.{Value, null, str, number, float64, int, int64}
pub mod Lines

abbrev pub max_ndjson_line_size : ℕ
max_ndjson_line_size = 10 * 1024 * 1024

abbrev pub max_pending_requests : ℕ
max_pending_requests = 1024

abbrev pub max_recent_used_ids : ℕ
max_recent_used_ids = 4096

-- 60 seconds in the nanoseconds of time.Duration.
abbrev pub used_id_ttl : ℕ
used_id_ttl = 60 * 1000000000

abbrev pub max_host_id_bytes : ℕ
max_host_id_bytes = 256

-- The errors of limits.go, and the two that Register makes itself.
pub data ProxyError : Type 0 where
  line_too_long pending_map_full host_id_too_large host_id_invalid_type no_unique_id : ProxyError
  rng_failed : Bytes → ProxyError

-- The nil error is `none`.
unfoldable pub validate_host_id : Value → Option ProxyError
validate_host_id null = none
validate_host_id (str v) = if ltb max_host_id_bytes (length v) then some host_id_too_large else none
validate_host_id (number v) =
    if ltb max_host_id_bytes (length v) then some host_id_too_large else none
validate_host_id (float64 _) = none
validate_host_id (int _) = none
validate_host_id (int64 _) = none
validate_host_id _ = some host_id_invalid_type

-- What a reader has left: its bytes, and then io.EOF or another error.
pub data End : Type 0 where
  eof failure : End

pub data ReadError : Type 0 where
  too_long : ReadError
  ended : End → ReadError

pub record Stream : Type 0 where
  pub bytes : Bytes
  pub last : End

-- The inner loop of ReadLine: skip to the next newline, or to the end.
unfoldable pub discard_line : Bytes → Bytes
discard_line [] = []
discard_line (b ∷ s) = let rest = discard_line s in if b == 10 then s else rest

-- result[:len(result)-1] where the result ends in '\r'.
unfoldable pub strip_cr : Bytes → Bytes
strip_cr [] = []
strip_cr (b ∷ []) = if b == 13 then [] else b ∷ []
strip_cr (b ∷ c ∷ s) = b ∷ strip_cr (c ∷ s)

-- ReadByte failed: at io.EOF a line that has bytes is returned without its newline.
unfoldable pub at_end : End → Bytes → Result ReadError Bytes
at_end eof [] = err (ended eof)
at_end eof (b ∷ s) = ok (b ∷ s)
at_end failure s = err (ended failure)

-- ReadLine's loop, over the bytes left and the buffer read so far.
unfoldable pub read_loop : ℕ → Bytes → End → Bytes → Result ReadError Bytes × Bytes
read_loop max_size [] last buf =
    if leb max_size (length buf) then (err too_long, []) else (at_end last buf, [])
read_loop max_size (b ∷ s) last buf =
    let rest = read_loop max_size s last (buf ++ b ∷ []) in
    if leb max_size (length buf)
    then (err too_long, discard_line (b ∷ s))
    else if b == 10
    then (ok (strip_cr buf), s)
    else rest

unfoldable pub read_line : ℕ → Stream → Result ReadError Bytes × Stream
unfolding read_loop strip_cr discard_line at_end
read_line max_size stream =
    let (line, rest) = read_loop max_size stream.bytes stream.last [] in
    (line, record stream { bytes = rest })
