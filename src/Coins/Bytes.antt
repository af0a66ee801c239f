-- ===== src/Coins/Bytes.antt =====
-- Byte strings as lists of numbers below 256, and the fixed-width integers of encoding/binary.
use icminers_stratum_v.Prelude.{take, drop}
use icminers_stratum_v.Prelude.{
  ℕ, zero, suc, ◌+◌, ◌*◌, ◌/◌, ◌%◌, ◌^◌, ◌<◌, ◌≡◌, refl, ap, List, [], ◌∷◌, arith, All, length,
  length-append, subst, ltb, leb, ◌&&◌, if◌then◌else◌, Str, Option, some, none, ◌-◌,
}
use native.Mathlib.Nat.{pow-suc}
use mathlib.Core.List.{reverse, reverse-cons}

abbrev pub Bytes : Type 0
Bytes = List ℕ

abbrev pub IsBytes : Bytes → Type 0
IsBytes = All (λ b. b < 256)

-- binary.LittleEndian.PutUint16/32/64: the low n bytes of v, lowest first.
abbrev pub le_bytes : ℕ → ℕ → Bytes
le_bytes zero v = []
le_bytes (suc n) v = (v % 256) ∷ le_bytes n (v / 256)

abbrev pub le_value : Bytes → ℕ
le_value [] = 0
le_value (b ∷ bs) = b + 256 * le_value bs

-- binary.BigEndian.
abbrev pub be_from : ℕ → Bytes → ℕ
be_from acc [] = acc
be_from acc (b ∷ bs) = be_from (acc * 256 + b) bs

abbrev pub be_value : Bytes → ℕ
be_value = be_from 0

pub length-le_bytes : (n v : ℕ) → length (le_bytes n v) ≡ n
length-le_bytes zero v = refl
length-le_bytes (suc n) v = ap suc (length-le_bytes n (v / 256))

pub le_bytes-IsBytes : (n v : ℕ) → IsBytes (le_bytes n v)
le_bytes-IsBytes zero v = tt
le_bytes-IsBytes (suc n) v = (omega arith, le_bytes-IsBytes n (v / 256))

pub le_value-le_bytes : (n v : ℕ) → v < 256 ^ n → le_value (le_bytes n v) ≡ v
le_value-le_bytes zero v h = omega arith
le_value-le_bytes (suc n) v h =
    let below : v / 256 < 256 ^ n = omega (arith, pow-suc 256 n) in
    omega (arith, le_value-le_bytes n (v / 256) below)

pub le_value-lt : (bs : Bytes) → IsBytes bs → le_value bs < 256 ^ length bs
le_value-lt [] h = omega arith
le_value-lt (b ∷ bs) h = omega (arith, h.0, le_value-lt bs h.1, pow-suc 256 (length bs))

-- bytes.ReverseBytes
pub length-reverse {ℓ} : {A : Type ℓ} (xs : List A) → length (reverse xs) ≡ length xs
length-reverse [] = refl
length-reverse (x ∷ xs) =
    rw (reverse-cons x xs) (omega (arith, length-append (reverse xs) (x ∷ []), length-reverse xs))

-- encoding/hex: two lowercase digits for each byte; decoding takes both cases.
abbrev pub hex_digit : ℕ → ℕ
hex_digit d = if ltb d 10 then 48 + d else 87 + d

unfoldable pub hex_encode : Bytes → Str
hex_encode [] = []
hex_encode (b ∷ bs) = hex_digit (b / 16) ∷ hex_digit (b % 16) ∷ hex_encode bs

abbrev pub hex_value : ℕ → Option ℕ
hex_value c =
    if leb 48 c && leb c 57
    then some (c - 48)
    else if leb 97 c && leb c 102
    then some (c - 87)
    else if leb 65 c && leb c 70
    then some (c - 55)
    else none

abbrev pub join_digits : Option ℕ → Option ℕ → Option Bytes → Option Bytes
join_digits (some hi) (some lo) (some bs) = some ((hi * 16 + lo) ∷ bs)
join_digits _ _ _ = none

unfoldable pub hex_decode : Str → Option Bytes
hex_decode [] = some []
hex_decode (c ∷ []) = none
hex_decode (c ∷ d ∷ s) = join_digits (hex_value c) (hex_value d) (hex_decode s)

hex_value-hex_digit : (d : ℕ) → d < 16 → hex_value (hex_digit d) ≡ some d
hex_value-hex_digit d h = ground arith

pub hex_decode-hex_encode : (bs : Bytes) → IsBytes bs → hex_decode (hex_encode bs) ≡ some bs
unfolding hex_encode hex_decode
hex_decode-hex_encode [] h = refl
hex_decode-hex_encode (b ∷ bs) h =
    let hi : b / 16 < 16 = omega (arith, h.0) in
    let lo : b % 16 < 16 = omega arith in
    let whole : b / 16 * 16 + b % 16 ≡ b = omega arith in
    rw (
      hex_value-hex_digit (b / 16) hi,
      hex_value-hex_digit (b % 16) lo,
      hex_decode-hex_encode bs h.1,
      whole,
    )

abbrev Digit : Option ℕ → Type 0
Digit none = Unit
Digit (some d) = d < 16

abbrev Decoded : Option Bytes → Type 0
Decoded none = Unit
Decoded (some bs) = IsBytes bs

hex_value-Digit : (c : ℕ) → Digit (hex_value c)
hex_value-Digit c = ground arith

join_digits-Decoded :
    (hi lo : Option ℕ) (r : Option Bytes)
    → Digit hi
    → Digit lo
    → Decoded r
    → Decoded (join_digits hi lo r)
join_digits-Decoded (some hi) (some lo) (some bs) h l d = (omega arith, d)
join_digits-Decoded (some hi) (some lo) none h l d = tt
join_digits-Decoded (some hi) none r h l d = tt
join_digits-Decoded none lo r h l d = tt

hex_decode-Decoded : (s : Str) → Decoded (hex_decode s)
unfolding hex_decode
hex_decode-Decoded [] = tt
hex_decode-Decoded (c ∷ []) = tt
hex_decode-Decoded (c ∷ d ∷ s) =
    join_digits-Decoded (hex_value c) (hex_value d) (hex_decode s) (hex_value-Digit c)
      (hex_value-Digit d) (hex_decode-Decoded s)

-- Decoded text is a byte string.
pub hex_decode-IsBytes : (s : Str) {bs : Bytes} → hex_decode s ≡ some bs → IsBytes bs
hex_decode-IsBytes s e = subst Decoded e (hex_decode-Decoded s)

pub take-IsBytes : (n : ℕ) (bs : Bytes) → IsBytes bs → IsBytes (take n bs)
take-IsBytes zero bs h = tt
take-IsBytes (suc n) [] h = tt
take-IsBytes (suc n) (b ∷ bs) h = (h.0, take-IsBytes n bs h.1)

pub drop-IsBytes : (n : ℕ) (bs : Bytes) → IsBytes bs → IsBytes (drop n bs)
drop-IsBytes zero bs h = h
drop-IsBytes (suc n) [] h = tt
drop-IsBytes (suc n) (b ∷ bs) h = drop-IsBytes n bs h.1
