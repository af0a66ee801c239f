-- ===== src/Spool.antt =====
-- internal/spool/spool.go: a queue of records in a file of JSON lines. The JSON codec is a
-- parameter, and so is the type of the records, which the spool only passes on. What the file
-- system answers is an argument of each operation.
mod Tests
pub mod Queue
pub mod Torn
pub mod Runs
pub mod Drains
use icminers_stratum_v.Prelude.{
  ℕ, zero, suc, ◌+◌, List, [], ◌∷◌, ◌++◌, Bool, true, false, ltb, leb, ◌==◌, if◌then◌else◌, length,
  take, drop, Option, none, some, Result, ok, err, any, ◌≡◌, ◌<◌, All, ◌≢◌,
}

-- A line feed ends a line, and the scanner drops a carriage return before it.
abbrev pub line_feed : ℕ
line_feed = 10

-- The longest line that the scanner takes is shorter than its buffer of 16 MiB.
abbrev pub max_line : ℕ
max_line = 16777216

pub record Codec (R : Type 0) : Type 0 where
  pub encode : R → List ℕ
  pub decode : List ℕ → Option R

-- `DefaultMaxBytes`.
abbrev pub default_max_bytes : ℕ
default_max_bytes = 268435456

pub record Spool : Type 0 where
  pub file : List ℕ
  pub size : ℕ
  pub max : ℕ

-- `Open` of a file; a bound that is not positive is 0.
unfoldable pub open_spool : List ℕ → ℕ → Spool
open_spool file max_bytes = record {
  file = file;
  size = length file;
  max = if leb max_bytes 0 then default_max_bytes else max_bytes;
}

pub data SpoolError : Type 0 where
  full write_failed scan_failed rewrite_failed replay_failed : SpoolError

-- What the file system does with a write: all of it, only so many bytes, or all without a sync.
pub data Write : Type 0 where
  whole unsynced : Write
  torn : ℕ → Write

-- What it does with a rewrite: the new file stands, the old one stays, or the new one stands but is
-- not opened again.
pub data Rewrite : Type 0 where
  replaced kept not_reopened : Rewrite

-- The scanner's lines.
unfoldable pub put_first : ℕ → List (List ℕ) → List (List ℕ)
put_first b [] = (b ∷ []) ∷ []
put_first b (l ∷ ls) = (b ∷ l) ∷ ls

unfoldable pub split_lines : List ℕ → List (List ℕ)
unfolding put_first
split_lines [] = []
split_lines (b ∷ bs) = if b == line_feed then [] ∷ split_lines bs else put_first b (split_lines bs)

unfoldable pub drop_cr : List ℕ → List ℕ
drop_cr [] = []
drop_cr (b ∷ []) = if b == 13 then [] else b ∷ []
drop_cr (b ∷ c ∷ bs) = b ∷ drop_cr (c ∷ bs)

module _ {R S : Type 0} where
  -- One record after the other until the consumer refuses one: its state, what is left, and
  -- whether it refused.
  unfoldable pub replay : (S → R → S × Bool) → S → List R → S × (List R × Bool)
  replay fn s [] = (s, ([], true))
  replay fn s (r ∷ rs) =
      let rest = replay fn (fn s r).0 rs in
      if (fn s r).1 then rest else ((fn s r).0, (r ∷ rs, false))

  -- Batch after batch; each round takes at least one record.
  unfoldable pub commit_batches : ℕ → ℕ → (S → List R → S × Bool) → S → List R → S × (List R × Bool)
  commit_batches zero n fn s rs = (s, (rs, true))
  commit_batches (suc fuel) n fn s [] = (s, ([], true))
  commit_batches (suc fuel) n fn s (r ∷ rs) =
      let batch = take n (r ∷ rs) in
      let rest = commit_batches fuel n fn (fn s batch).0 (drop n (r ∷ rs)) in
      if (fn s batch).1 then rest else ((fn s batch).0, (r ∷ rs, false))

module _ {R : Type 0} (codec : Codec R) where
  abbrev pub line_of : R → List ℕ
  line_of r = codec.encode r ++ (line_feed ∷ [])

  unfoldable pub write_line : Write → List ℕ → Spool → Spool × Result SpoolError (Unit {0})
  write_line whole line s = (record s { file = s.file ++ line; size = s.size + length line }, ok tt)
  write_line unsynced line s =
      (record s { file = s.file ++ line; size = s.size + length line }, err write_failed)
  write_line (torn n) line s = (
    record s { file = s.file ++ take n line; size = s.size + length (take n line) },
    err write_failed,
  )

  unfoldable pub append : Write → R → Spool → Spool × Result SpoolError (Unit {0})
  unfolding write_line
  append w r s =
      if ltb s.max (s.size + length (line_of r)) then (s, err full) else write_line w (line_of r) s

  -- The records of the lines: blank lines and lines that do not decode are skipped.
  unfoldable pub decode_lines : List (List ℕ) → List R
  unfolding drop_cr
  decode_lines [] = []
  decode_lines (l ∷ ls) =
      let rest = decode_lines ls in
      elim (codec.decode (drop_cr l)) [
        | none ↦ rest
        | some r ↦ if leb (length (drop_cr l)) 0 then rest else r ∷ rest
      ]

  unfoldable pub read_all : List ℕ → Result SpoolError (List R)
  unfolding split_lines decode_lines
  read_all file =
      if any (λ l. leb max_line (length l)) (split_lines file)
      then err scan_failed
      else ok (decode_lines (split_lines file))

  unfoldable pub render : List R → List ℕ
  render [] = []
  render (r ∷ rs) = line_of r ++ render rs

  unfoldable pub rewrite_locked : Rewrite → List R → Spool → Spool × Result SpoolError (Unit {0})
  unfolding render
  rewrite_locked replaced rs s = (record s { file = render rs; size = length (render rs) }, ok tt)
  rewrite_locked kept rs s = (s, err rewrite_failed)
  rewrite_locked not_reopened rs s = (record s { file = render rs }, err rewrite_failed)

  module _ {S : Type 0} where
    -- The spool keeps what is left; the consumer's refusal is the error.
    unfoldable pub keep_rest :
        Rewrite → Spool → S × (List R × Bool) → (S × Spool) × Result SpoolError (Unit {0})
    unfolding rewrite_locked
    keep_rest w sp (s, (rest, finished)) =
        let after = rewrite_locked w rest sp in
        elim after.1 [
          | err e ↦ ((s, after.0), err e)
          | ok u ↦ ((s, after.0), (if finished then ok tt else err replay_failed))
        ]

    -- The records of the file handed to a consumer.
    unfoldable pub drain_with :
        Rewrite
        → (S → List R → S × (List R × Bool))
        → S
        → Spool
        → (S × Spool) × Result SpoolError (Unit {0})
    unfolding read_all keep_rest
    drain_with w consume s sp = if sp.size == 0 then ((s, sp), ok tt) else elim (read_all sp.file) [
      | err e ↦ ((s, sp), err e)
      | ok rs ↦ keep_rest w sp (consume s rs)
    ]

    unfoldable pub drain :
        Rewrite → (S → R → S × Bool) → S → Spool → (S × Spool) × Result SpoolError (Unit {0})
    unfolding drain_with replay
    drain w fn s sp = drain_with w (replay fn) s sp

    -- A batch size that is not positive is 0.
    unfoldable pub drain_batch :
        Rewrite
        → ℕ
        → (S → List R → S × Bool)
        → S
        → Spool
        → (S × Spool) × Result SpoolError (Unit {0})
    unfolding drain_with commit_batches
    drain_batch w batch_size fn s sp =
        let n = if leb batch_size 0 then 1000 else batch_size in
        drain_with w (λ t rs. commit_batches (length rs) n fn t rs) s sp
