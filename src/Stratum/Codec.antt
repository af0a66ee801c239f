-- ===== src/Stratum/Codec.antt =====
-- internal/stratum/protocol/codec.go: `Reader.Read` over bufio.Scanner, of which the documented
-- behaviour is used: it hands out the lines one by one, and an error, also that of a line that does
-- not fit its buffer, ends it for good. JSON is the decoder that is passed in.
use mathlib.Core.List.{reverse}
use icminers_stratum_v.Prelude.{
  ℕ, ◌+◌, max, List, [], ◌∷◌, Bool, ltb, leb, ◌==◌, ◌||◌, if◌then◌else◌, length, Option, none, some,
  Str,
}
use icminers_stratum_v.Stratum.Handler.{Request}

pub data ScanError : Type 0 where
  too_long io_failed : ScanError

-- The lines to come, without their newlines; what ends the stream, `none` for its end; and the error
-- of the scanner.
pub record Stream : Type 0 where
  pub lines : List Str
  pub ending : Option ScanError
  pub failed : Option ScanError

pub data Scanned : Type 0 where
  token : Str → Scanned
  stopped : Option ScanError → Scanned

-- `NewReader`: the buffer holds a line with its newline, and never less than the first 4096 bytes.
abbrev pub buffer_size : ℕ → ℕ
buffer_size max_line = max (max_line + 1) 4096

-- `bufio.ScanLines` drops one carriage return.
unfoldable drop_cr : Str → Str
drop_cr [] = []
drop_cr (b ∷ []) = if b == 13 then [] else b ∷ []
drop_cr (b ∷ c ∷ s) = b ∷ drop_cr (c ∷ s)

unfoldable pub next_line : ℕ → Option ScanError → List Str → Stream → Stream × Scanned
unfolding drop_cr
next_line size (some e) lines s = (s, stopped (some e))
next_line size none [] s = (record s { failed = s.ending }, stopped s.ending)
next_line size none (line ∷ lines) s =
    if leb size (length line)
    then (record s { failed = some too_long }, stopped (some too_long))
    else (record s { lines = lines }, token (drop_cr line))

unfoldable pub scan : ℕ → Stream → Stream × Scanned
unfolding next_line
scan size s = next_line size s.failed s.lines s

pub data ReadResult : Type 0 where
  received : Request → ReadResult
  blank line_too_long malformed transport eof : ReadResult

abbrev is_space : ℕ → Bool
is_space c = c == 32 || (c == 9 || (c == 13 || c == 10))

unfoldable skip_space : Str → Str
skip_space [] = []
skip_space (c ∷ s) = if is_space c then skip_space s else c ∷ s

unfoldable pub trim_space : Str → Str
unfolding skip_space
trim_space s = reverse (skip_space (reverse (skip_space s)))

module _ (decode : Str → Option Request) (max_line : ℕ) where
  unfoldable pub read_scanned : Scanned → ReadResult
  unfolding trim_space
  read_scanned (stopped none) = eof
  read_scanned (stopped (some too_long)) = line_too_long
  read_scanned (stopped (some io_failed)) = transport
  read_scanned (token line) =
      if ltb max_line (length line)
      then line_too_long
      else if leb (length (trim_space line)) 0
      then blank
      else elim (decode line) [ none ↦ malformed | some req ↦ received req ]

  unfoldable pub read : Stream → Stream × ReadResult
  unfolding scan read_scanned
  read s = let (s', r) = scan (buffer_size max_line) s in (s', read_scanned r)
