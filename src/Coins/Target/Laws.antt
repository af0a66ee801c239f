-- ===== src/Coins/Target/Laws.antt =====
-- The byte orders of a block hash agree, and targets survive their encoding.
use icminers_stratum_v.Coins.Bytes.{take-IsBytes, drop-IsBytes}
use mathlib.Core.List.{reverse, reverse-append, reverse-cons}
use native.Mathlib.Nat.{pow-le-pow_right, div-le_self}
use icminers_stratum_v.Prelude.{
  ◌/◌, ◌-◌, ◌%◌, leb, ℕ, zero, suc, ◌+◌, ◌*◌, ◌^◌, ◌≤◌, ◌<◌, ◌≡◌, refl, ap, ◌∙◌, [], ◌∷◌, ◌++◌,
  some, arith, length, take, drop, length-append, length-take, length-drop, All-append, take-add,
  take-length, ok, ◌>>=◌, Str, Option-cases, Bool-cases, inl, inr, ◌==◌, ==_iff, lt→ltb,
}
use icminers_stratum_v.Coins.Bytes.{
  Bytes, IsBytes, hex_decode, hex_decode-IsBytes, length-le_bytes, hex_encode, be_value, be_from,
  le_bytes, le_value, length-reverse, hex_decode-hex_encode, le_value-le_bytes,
}
use icminers_stratum_v.Coins.Target.{
  compact_to_target, target_to_bytes, hash_le_from_display_hex, prev_hash_to_stratum,
  stratum_prev_hash_to_le, swap_words, swap_bytes, reverse_bytes,
}

swap_words-IsBytes : (n : ℕ) (bs : Bytes) → IsBytes bs → IsBytes (swap_words n bs)
unfolding swap_words
swap_words-IsBytes zero bs h = tt
swap_words-IsBytes (suc n) bs h =
    All-append _ (take 4 (drop (4 * n) bs)) (swap_words n bs)
      (take-IsBytes 4 (drop (4 * n) bs) (drop-IsBytes (4 * n) bs h)) (swap_words-IsBytes n bs h)

length-swap_words : (n : ℕ) (bs : Bytes) → 4 * n ≤ length bs → length (swap_words n bs) ≡ 4 * n
unfolding swap_words
length-swap_words zero bs h = refl
length-swap_words (suc n) bs h = omega (
  arith,
  length-append (take 4 (drop (4 * n) bs)) (swap_words n bs),
  length-take 4 (drop (4 * n) bs),
  length-drop (4 * n) bs,
  length-swap_words n bs (omega arith),
)

swap_bytes-append :
    (w rest : Bytes) → length w ≡ 4 → swap_bytes (w ++ rest) ≡ reverse w ++ swap_bytes rest
unfolding swap_bytes
swap_bytes-append [] rest e = absurd (omega arith)
swap_bytes-append (a ∷ []) rest e = absurd (omega arith)
swap_bytes-append (a ∷ b ∷ []) rest e = absurd (omega arith)
swap_bytes-append (a ∷ b ∷ c ∷ []) rest e = absurd (omega arith)
swap_bytes-append (a ∷ b ∷ c ∷ d ∷ []) rest e = refl
swap_bytes-append (a ∷ b ∷ c ∷ d ∷ x ∷ w) rest e = absurd (omega arith)

-- Turning the bytes of each word round after the words' order turns the whole round.
swap_bytes-swap_words :
    (n : ℕ) (bs : Bytes)
    → 4 * n ≤ length bs
    → swap_bytes (swap_words n bs) ≡ reverse (take (4 * n) bs)
unfolding swap_words
swap_bytes-swap_words zero bs h = unfold swap_bytes in refl
swap_bytes-swap_words (suc n) bs h =
    let next : 4 * suc n ≡ 4 * n + 4 = omega arith in
    let word : length (take 4 (drop (4 * n) bs)) ≡ 4 =
      omega (arith, length-take 4 (drop (4 * n) bs), length-drop (4 * n) bs) in
    rw (next, take-add (4 * n) 4 bs, reverse-append (take (4 * n) bs) (take 4 (drop (4 * n) bs)))
      (swap_bytes-append (take 4 (drop (4 * n) bs)) (swap_words n bs) word
        ∙ ap (◌++◌ (reverse (take 4 (drop (4 * n) bs)))) (swap_bytes-swap_words n bs (omega arith)))

decoded_hash :
    (raw : Bytes)
    → IsBytes raw
    → length raw ≡ 32
    → stratum_prev_hash_to_le (hex_encode (swap_words 8 raw)) ≡ ok (reverse_bytes raw)
unfolding stratum_prev_hash_to_le reverse_bytes
decoded_hash raw b e =
    let size : length (swap_words 8 raw) ≡ 32 = length-swap_words 8 raw (omega arith) in
    rw (
      hex_decode-hex_encode (swap_words 8 raw) (swap_words-IsBytes 8 raw b),
      size,
      swap_bytes-swap_words 8 raw (omega arith),
      ← e,
      take-length raw,
    )

-- For every text, sending a block hash to miners in stratum's word order and reading that back
-- gives the same bytes as reading the daemon's display order directly, and a text that is not the
-- hex of 32 bytes is the same error on both ways.
pub stratum_prev_hash_to_le-prev_hash_to_stratum :
    (display_hex : Str)
    → (prev_hash_to_stratum display_hex >>= stratum_prev_hash_to_le)
      ≡ hash_le_from_display_hex display_hex
unfolding prev_hash_to_stratum hash_le_from_display_hex
stratum_prev_hash_to_le-prev_hash_to_stratum display_hex =
    elim (Option-cases (hex_decode display_hex)) [
      | inl bad ↦ rw bad
      | inr (raw, e) ↦ rw e (elim (Bool-cases (length raw == 32)) [
        | inl size ↦
            rw size (decoded_hash raw (hex_decode-IsBytes display_hex e) ((==_iff _ _).0 size))
        | inr other ↦ rw other
      ])
    ]

be_from-append : (acc : ℕ) (xs ys : Bytes) → be_from acc (xs ++ ys) ≡ be_from (be_from acc xs) ys
be_from-append acc [] ys = refl
be_from-append acc (x ∷ xs) ys = be_from-append (acc * 256 + x) xs ys

be_value-reverse : (bs : Bytes) → be_value (reverse bs) ≡ le_value bs
be_value-reverse [] = refl
be_value-reverse (b ∷ bs) =
    rw (reverse-cons b bs, be_from-append 0 (reverse bs) (b ∷ []))
      (omega (arith, be_value-reverse bs))

-- A target of at most 256 bits is written in 32 bytes that read back as the target.
pub be_value-target_to_bytes :
    (target : ℕ)
    → target < 2 ^ 256
    → (b : Bytes) × (target_to_bytes target ≡ some b) × (length b ≡ 32) × (be_value b ≡ target)
unfolding target_to_bytes
be_value-target_to_bytes target h = (
  reverse (le_bytes 32 target),
  rw (lt→ltb target (2 ^ 256) h),
  length-reverse (le_bytes 32 target) ∙ length-le_bytes 32 target,
  be_value-reverse (le_bytes 32 target) ∙ le_value-le_bytes 32 target h,
)

scaled-lt : (m p : ℕ) → m < 2 ^ 23 → p ≤ 2 ^ 232 → m * p < 2 ^ 256
scaled-lt m p h k = let big : m * p ≤ m * 2 ^ 232 = grind arith in omega arith

compact_to_target-lt : (compact : ℕ) → compact / 2 ^ 24 ≤ 32 → compact_to_target compact < 2 ^ 256
unfolding compact_to_target
compact_to_target-lt compact h =
    let exponent = compact / 2 ^ 24 in
    let mantissa = compact % 2 ^ 23 in
    let power : 2 ^ (8 * (exponent - 3)) ≤ 2 ^ 232 =
      pow-le-pow_right {n = 2} (omega arith) {j = 232} (omega arith) in
    elim (Bool-cases (leb exponent 3)) [
      | inl small ↦ rw small (omega (arith, div-le_self mantissa (2 ^ (8 * (3 - exponent)))))
      | inr large ↦ rw large (scaled-lt mantissa (2 ^ (8 * (exponent - 3))) (omega arith) power)
    ]

-- A compact target whose exponent byte is at most 32 expands to a target of at most 256 bits, so
-- writing it in 32 bytes does not panic, and the bytes read back as the expanded target.
pub target_to_bytes-compact_to_target :
    (compact : ℕ)
    → compact / 2 ^ 24 ≤ 32
    → (b : Bytes) × (target_to_bytes (compact_to_target compact) ≡ some b)
      × (length b ≡ 32)
      × (be_value b ≡ compact_to_target compact)
target_to_bytes-compact_to_target compact h =
    be_value-target_to_bytes (compact_to_target compact) (compact_to_target-lt compact h)

pub length-hash_le_from_display_hex :
    (s : Str) {le : Bytes} → hash_le_from_display_hex s ≡ ok le → length le ≡ 32
unfolding hash_le_from_display_hex reverse_bytes
length-hash_le_from_display_hex s e = elim (Option-cases (hex_decode s)) [
  | inl bad ↦ absurd (ground (arith, bad))
  | inr (raw, d) ↦ ground (arith, d, length-reverse raw)
]
