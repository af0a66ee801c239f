-- ===== src/Coins/Height.antt =====
-- The BIP34 height push of internal/coins/bitcoinbase/coinbase.go. A height is the int64's value,
-- which is positive where the source calls these functions; eight rounds of its loop are enough
-- for every int64 (`minimal_le-value`). `v & 0xff` is the remainder by 256 and `v >> 8` the
-- quotient. Decoded heights are 64-bit patterns.
use native.Mathlib.Nat.{pow-suc}
use icminers_stratum_v.Prelude.{
  inr, false, length-append, inl, ℕ, zero, suc, ◌+◌, ◌*◌, ◌/◌, ◌%◌, ◌^◌, ◌≤◌, ◌<◌, ◌≡◌, refl, ◌∙◌,
  [], ◌∷◌, ◌++◌, arith, ltb, leb, ◌==◌, if◌then◌else◌, ◌||◌, take, length, take-append, Result, ok,
  err, Bool-cases,
}
use icminers_stratum_v.Coins.Bytes.{Bytes, IsBytes, le_value}
use mathlib.Core.List.{reverse-cons, reverse}

pub data HeightError : Type 0 where
  empty_script invalid_push : HeightError

-- `for v > 0 { le = append(le, byte(v&0xff)); v >>= 8 }`
minimal_le : ℕ → ℕ → Bytes
minimal_le zero v = []
minimal_le (suc fuel) v =
    let rest = minimal_le fuel (v / 256) in if ltb 0 v then (v % 256) ∷ rest else []

-- `le[len(le)-1]`; the source calls it on a positive height, where the list is not empty.
last_byte : Bytes → ℕ
last_byte [] = 0
last_byte (b ∷ []) = b
last_byte (b ∷ c ∷ bs) = last_byte (c ∷ bs)

-- `le[len(le)-1]&0x80 != 0`, on a byte.
pad_sign : Bytes → Bytes
pad_sign le = if leb 0x80 (last_byte le) then le ++ 0 ∷ [] else le

unfoldable pub encode_height_bip34 : ℕ → Bytes
unfolding minimal_le last_byte pad_sign
encode_height_bip34 height =
    if height == 0 then 0 ∷ [] else (let le = pad_sign (minimal_le 8 height) in length le ∷ le)

-- `for i := n - 1; i >= 0; i-- { h = h<<8 | int64(script[1+i]) }`, over the bytes last to first.
decode_loop : ℕ → Bytes → ℕ
decode_loop h [] = h
decode_loop h (b ∷ bs) = decode_loop ((h * 256 + b) % 2 ^ 64) bs

unfoldable pub decode_height_bip34 : Bytes → Result HeightError (ℕ × ℕ)
unfolding decode_loop
decode_height_bip34 [] = err empty_script
decode_height_bip34 (n ∷ rest) =
    if n == 0 || ltb 8 n || ltb (length (n ∷ rest)) (1 + n)
    then err invalid_push
    else ok (decode_loop 0 (reverse (take n rest)), 1 + n)

-- Enough rounds: the value is kept, the bytes are bytes, and no round is spent for nothing.
minimal_le-value : (fuel v : ℕ) → v < 256 ^ fuel → le_value (minimal_le fuel v) ≡ v
unfolding minimal_le
minimal_le-value zero v h = omega arith
minimal_le-value (suc fuel) v h =
    let below : v / 256 < 256 ^ fuel = omega (arith, pow-suc 256 fuel) in
    ground (arith, minimal_le-value fuel (v / 256) below)

minimal_le-IsBytes : (fuel v : ℕ) → IsBytes (minimal_le fuel v)
unfolding minimal_le
minimal_le-IsBytes zero v = tt
minimal_le-IsBytes (suc fuel) v = ground (arith, minimal_le-IsBytes fuel (v / 256))

length-minimal_le : (fuel v : ℕ) → length (minimal_le fuel v) ≤ fuel
unfolding minimal_le
length-minimal_le zero v = omega arith
length-minimal_le (suc fuel) v = ground (arith, length-minimal_le fuel (v / 256))

minimal_le-pos : (fuel v : ℕ) → 0 < v → 0 < length (minimal_le (suc fuel) v)
unfolding minimal_le
minimal_le-pos fuel v h = ground arith

last_byte-cons : (b : ℕ) (bs : Bytes) → 0 < length bs → last_byte (b ∷ bs) ≡ last_byte bs
unfolding last_byte
last_byte-cons b [] h = elim h [ ]
last_byte-cons b (c ∷ bs) h = refl

-- The top byte of a height that needs all bytes of an int64 has its high bit clear.
last_byte-lt :
    (fuel v : ℕ)
    → v < 128 * 256 ^ fuel
    → length (minimal_le (suc fuel) v) ≡ suc fuel
    → last_byte (minimal_le (suc fuel) v) < 128
unfolding minimal_le last_byte
last_byte-lt zero v h e = ground arith
last_byte-lt (suc fuel) v h e = elim (Bool-cases (ltb 0 v)) [
  | inl more ↦
      let tail : length (minimal_le (suc fuel) (v / 256)) ≡ suc fuel = ground arith in
      let below : v / 256 < 128 * 256 ^ fuel = omega (arith, pow-suc 256 fuel) in
      rw more (
        rw (last_byte-cons (v % 256) (minimal_le (suc fuel) (v / 256)) (rw tail (omega arith)))
          (last_byte-lt fuel (v / 256) below tail))
  | inr stop ↦ rw stop (omega arith)
]

le_value-append_zero : (bs : Bytes) → le_value (bs ++ 0 ∷ []) ≡ le_value bs
le_value-append_zero [] = refl
le_value-append_zero (b ∷ bs) = rw (le_value-append_zero bs)

decode_loop-append :
    (acc : ℕ) (xs : Bytes) (b : ℕ)
    → decode_loop acc (xs ++ b ∷ []) ≡ (decode_loop acc xs * 256 + b) % 2 ^ 64
unfolding decode_loop
decode_loop-append acc [] b = refl
decode_loop-append acc (x ∷ xs) b = decode_loop-append ((acc * 256 + x) % 2 ^ 64) xs b

decode_loop-reverse : (bs : Bytes) → le_value bs < 2 ^ 64 → decode_loop 0 (reverse bs) ≡ le_value bs
decode_loop-reverse [] h = unfold decode_loop in refl
decode_loop-reverse (b ∷ bs) h =
    rw
      (reverse-cons b bs, decode_loop-append 0 (reverse bs) b, decode_loop-reverse bs (omega arith))
      (omega arith)

pad_sign-value : (le : Bytes) → le_value (pad_sign le) ≡ le_value le
unfolding pad_sign
pad_sign-value le = ground (arith, le_value-append_zero le)

pad_sign-length :
    (v : ℕ)
    → 0 < v
    → v < 2 ^ 63
    → (0 < length (pad_sign (minimal_le 8 v))) × (length (pad_sign (minimal_le 8 v)) ≤ 8)
unfolding pad_sign
pad_sign-length v h k = ground (
  arith,
  length-minimal_le 8 v,
  minimal_le-pos 7 v h,
  length-append (minimal_le 8 v) (0 ∷ []),
  last_byte-lt 7 v,
)

-- The coinbase push of any positive int64 height decodes to that height, whatever script follows,
-- and consumes exactly the push.
pub decode_height_bip34-encode_height_bip34 :
    (height : ℕ) (rest : Bytes)
    → 0 < height
    → height < 2 ^ 63
    → decode_height_bip34 (encode_height_bip34 height ++ rest)
      ≡ ok (height, length (encode_height_bip34 height))
unfolding decode_height_bip34 encode_height_bip34
decode_height_bip34-encode_height_bip34 height rest pos h =
    let le = pad_sign (minimal_le 8 height) in
    let zero? : (height == 0) ≡ false = ground arith in
    let bounds = pad_sign-length height pos h in
    let guard : (length le == 0
          || ltb 8 (length le)
          || ltb (suc (length (le ++ rest))) (1 + length le))
        ≡ false =
      ground (arith, bounds, length-append le rest) in
    let value : le_value le ≡ height =
      pad_sign-value (minimal_le 8 height) ∙ minimal_le-value 8 height (omega arith) in
    let decoded : decode_loop 0 (reverse le) ≡ height =
      decode_loop-reverse le (rw value (omega arith)) ∙ value in
    let size : 1 + length le ≡ suc (length le) = omega arith in
    rw (zero?, guard, take-append le rest, decoded, size)
