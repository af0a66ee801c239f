-- ===== src/Coins/VarInt.antt =====
-- `appendVarInt` and the fixed-width appends of internal/coins/bitcoinbase/coinbase.go.
use icminers_stratum_v.Prelude.{
  append_assoc, inr, length-append, false, inl, Bool-cases, ℕ, ◌^◌, ◌<◌, ◌≡◌, [], ◌∷◌, ◌++◌, Option,
  none, some, arith, ltb, leb, ◌==◌, if◌then◌else◌, take, drop, length, take-append, drop-append,
}
use icminers_stratum_v.Coins.Bytes.{
  IsBytes, le_value-le_bytes, length-le_bytes, Bytes, le_bytes, le_value,
}

unfoldable pub append_uint32_le : Bytes → ℕ → Bytes
append_uint32_le b v = b ++ le_bytes 4 v

unfoldable pub append_uint64_le : Bytes → ℕ → Bytes
append_uint64_le b v = b ++ le_bytes 8 v

unfoldable pub append_var_int : Bytes → ℕ → Bytes
append_var_int b v =
    if ltb v 0xfd
    then b ++ v ∷ []
    else if leb v 0xffff
    then (b ++ 0xfd ∷ []) ++ le_bytes 2 v
    else if leb v 0xffffffff
    then (b ++ 0xfe ∷ []) ++ le_bytes 4 v
    else (b ++ 0xff ∷ []) ++ le_bytes 8 v

-- Bitcoin's CompactSize, as the protocol's own description reads it: a value and what follows.
pub read_wide : ℕ → Bytes → Option (ℕ × Bytes)
read_wide n bs = if ltb (length bs) n then none else some (le_value (take n bs), drop n bs)

pub read_var_int : Bytes → Option (ℕ × Bytes)
read_var_int [] = none
read_var_int (tag ∷ bs) =
    if ltb tag 0xfd
    then some (tag, bs)
    else if tag == 0xfd
    then read_wide 2 bs
    else if tag == 0xfe
    then read_wide 4 bs
    else read_wide 8 bs

read_wide-le_bytes :
    (n v : ℕ) (rest : Bytes) → v < 256 ^ n → read_wide n (le_bytes n v ++ rest) ≡ some (v, rest)
unfolding read_wide
read_wide-le_bytes n v rest h =
    let size = length-le_bytes n v in
    let fits : ltb (length (le_bytes n v ++ rest)) n ≡ false =
      ground (arith, length-append (le_bytes n v) rest, size) in
    let low : take n (le_bytes n v ++ rest) ≡ le_bytes n v =
      rw size at (take-append (le_bytes n v) rest) in
    let high : drop n (le_bytes n v ++ rest) ≡ rest =
      rw size at (drop-append (le_bytes n v) rest) in
    rw (fits, low, high, le_value-le_bytes n v h)

-- A count below 2^64 is written in the form that the protocol reads back, whatever follows it.
pub read_var_int-append_var_int :
    (v : ℕ) (rest : Bytes)
    → v < 2 ^ 64
    → read_var_int (append_var_int [] v ++ rest) ≡ some (v, rest)
unfolding read_var_int append_var_int
read_var_int-append_var_int v rest h = elim (Bool-cases (ltb v 0xfd)) [
  | inl small ↦ rw small (rw small)
  | inr wide ↦ rw wide (elim (Bool-cases (leb v 0xffff)) [
    | inl two ↦ rw two (read_wide-le_bytes 2 v rest (ground arith))
    | inr more ↦ rw more (elim (Bool-cases (leb v 0xffffffff)) [
      | inl four ↦ rw four (read_wide-le_bytes 4 v rest (ground arith))
      | inr eight ↦ rw eight (read_wide-le_bytes 8 v rest h)
    ])
  ])
]

pub append_var_int-append : (b : Bytes) (v : ℕ) → append_var_int b v ≡ b ++ append_var_int [] v
unfolding append_var_int
append_var_int-append b v = elim (Bool-cases (ltb v 0xfd)) [
  | inl small ↦ rw small
  | inr wide ↦ rw wide (elim (Bool-cases (leb v 0xffff)) [
    | inl two ↦ rw two (append_assoc b (0xfd ∷ []) (le_bytes 2 v))
    | inr more ↦ rw more (elim (Bool-cases (leb v 0xffffffff)) [
      | inl four ↦ rw four (append_assoc b (0xfe ∷ []) (le_bytes 4 v))
      | inr eight ↦ rw eight (append_assoc b (0xff ∷ []) (le_bytes 8 v))
    ])
  ])
]

pub append_var_int-IsBytes : (v : ℕ) → IsBytes (append_var_int [] v)
unfolding append_var_int
append_var_int-IsBytes v = elim (Bool-cases (ltb v 0xfd)) [
  | inl small ↦ rw small (ground arith)
  | inr wide ↦ rw wide (elim (Bool-cases (leb v 0xffff)) [
    | inl two ↦ rw two (omega arith)
    | inr more ↦ rw more (elim (Bool-cases (leb v 0xffffffff)) [
      | inl four ↦ rw four (omega arith)
      | inr eight ↦ rw eight (omega arith)
    ])
  ])
]
