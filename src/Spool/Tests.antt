-- ===== src/Spool/Tests.antt =====
-- Numbers spooled by a codec of two bytes.
use icminers_stratum_v.Prelude.{
  ℕ, ◌+◌, ◌-◌, List, [], ◌∷◌, ◌++◌, ◌≡◌, refl, arith, true, false, some, none, Option, ok, ap,
}
use icminers_stratum_v.Spool.Queue.{Holds, IsCodec}
use icminers_stratum_v.Spool.{
  drop_cr, append, Codec, Spool, render, write_line, read_all, whole, torn,
}
use icminers_stratum_v.Spool.Runs.{
  Op, World, push, drain_batches, FitsOp, run, all_acknowledged, run-Holds,
}
use icminers_stratum_v.Spool.Torn.{append-torn}

unfoldable decode_pair : List ℕ → Option ℕ
decode_pair [] = none
decode_pair (a ∷ []) = none
decode_pair (a ∷ b ∷ []) = some (a - 14)
decode_pair (a ∷ b ∷ c ∷ cs) = none

abbrev pairs : Codec ℕ
pairs = record { encode = λ n. (n + 14) ∷ 0 ∷ []; decode = decode_pair }

pairs-IsCodec : IsCodec pairs
unfolding drop_cr decode_pair
pairs-IsCodec r = (
  ((λ e. absurd (omega (arith, e))), ((λ e. absurd (omega (arith, e))), tt)),
  refl,
  ap some (omega arith),
  omega arith,
)

abbrev small : Spool
small = record { file = []; size = 0; max = 100 }

abbrev world : World ℕ
world = record { spool = small; consumer = record { answers = true ∷ false ∷ []; delivered = [] } }

abbrev ops : List (Op ℕ)
ops = push 1 ∷ push 2 ∷ push 3 ∷ drain_batches 2 ∷ push 4 ∷ []

run-Holds_example :
    (rest : List ℕ) × Holds pairs (run pairs ops world).spool rest
    × ((run pairs ops world).consumer.delivered ++ rest
        ≡ [] ++ ([] ++ all_acknowledged pairs ops world))
unfolding Holds render FitsOp
run-Holds_example =
    run-Holds pairs pairs-IsCodec ops world []
      (omega arith, (omega arith, (omega arith, (tt, (omega arith, tt))))) (refl, refl, tt)

append-torn_example :
    read_all pairs (append pairs whole 6 (append pairs (torn 1) 5 small).0).0.file ≡ ok []
unfolding append write_line decode_pair drop_cr
append-torn_example =
    append-torn pairs pairs-IsCodec small 5 6 1 refl (omega arith) refl (omega arith) refl refl
