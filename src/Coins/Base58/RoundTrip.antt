-- ===== src/Coins/Base58/RoundTrip.antt =====
-- The base58check strings that wallets write are read back. `base58_encode` is the coding as its
-- description has it: a '1' for each leading zero byte, and the digits of the rest as one number.
use native.Mathlib.Nat.{div-lt_self}
use icminers_stratum_v.Prelude.{
  ℕ, zero, suc, ◌+◌, ◌*◌, ◌/◌, ◌%◌, ◌<◌, ◌≤◌, ◌≡◌, refl, sym, ap, ◌∙◌, arith, List, [], ◌∷◌, ◌++◌,
  Option, none, some, Bool, true, false, ◌&&◌, ◌||◌, not, inl, inr, get_elem?, map, take, Str,
  replicate, ◌==◌, ==_iff, Bool-cases, ltb, append-nil, ltb→lt, length, ok, length-append,
  length-take, All-append, ◌-◌, list_beq, list_beq_iff, take-append, drop-append,
}
use icminers_stratum_v.Coins.Base58.{
  leading, emit_digits, number_from, full_bytes, number_bytes, index_of, b58_alphabet,
  base58_check_decode,
}
use icminers_stratum_v.Coins.Bytes.{Bytes, IsBytes, be_from, be_value, take-IsBytes}
use icminers_stratum_v.Coins.Merkle.{double_sha256}

unfoldable pub every_digit : (ℕ → Bool) → ℕ → Bool
every_digit test zero = true
every_digit test (suc bound) = every_digit test bound && test bound

pub every_digit_lem :
    (test : ℕ → Bool) (bound : ℕ)
    → every_digit test bound ≡ true
    → {d : ℕ} → d < bound
    → test d ≡ true
unfolding every_digit
every_digit_lem test zero passed below = absurd (omega (arith, below))
every_digit_lem test (suc bound) passed {d} below = elim (Bool-cases (d == bound)) [
  | inl here ↦ ap test ((==_iff d bound).0 here) ∙ ground (arith, passed)
  | inr elsewhere ↦
      every_digit_lem test bound (ground (arith, passed)) (ground (arith, below, elsewhere))
]

abbrev pub b58_char : ℕ → ℕ
b58_char d = elim (get_elem? b58_alphabet d) [ none ↦ 0 | some c ↦ c ]

unfoldable pub base58_encode : Bytes → Str
base58_encode bs =
    replicate (leading 0 bs) b'1' ++ map b58_char (emit_digits 58 (be_value bs) (be_value bs) [])

-- Every digit has a character of its own, and only 0 has '1'.
abbrev is_index : ℕ → Option ℕ → Bool
is_index d none = false
is_index d (some i) = i == d

is_index-some : (d : ℕ) (o : Option ℕ) → is_index d o ≡ true → o ≡ some d
is_index-some d none h = cc
is_index-some d (some i) h = ap some ((==_iff i d).0 h)

index_of-b58_char : (d : ℕ) → d < 58 → index_of (b58_char d) b58_alphabet ≡ some d
index_of-b58_char d h = is_index-some d (index_of (b58_char d) b58_alphabet) (
    every_digit_lem (λ i. is_index i (index_of (b58_char i) b58_alphabet)) 58
      (unfold every_digit index_of in refl) h)

one_is_zero : (d : ℕ) → d < 58 → 0 < d → (b58_char d == b'1') ≡ false
one_is_zero d h pos =
    let table =
      every_digit_lem (λ i. i == 0 || not (b58_char i == b'1')) 58 (unfold every_digit in refl) h in
    ground (arith, table, pos)

positive : (n : ℕ) → ltb 0 (suc n) ≡ true
positive n = ground arith

nonzero : (n : ℕ) → (suc n == 0) ≡ false
nonzero n = ground arith

module _ (base : ℕ) (big : 1 < base) where
  emit_digits-zero : (k : ℕ) (out : List ℕ) → emit_digits base k 0 out ≡ out
  unfolding emit_digits
  emit_digits-zero zero out = refl
  emit_digits-zero (suc k) out = refl

  emit_digits-fuel :
      (k m n : ℕ) (out : List ℕ)
      → n ≤ k
      → n ≤ m
      → emit_digits base k n out ≡ emit_digits base m n out
  unfolding emit_digits
  emit_digits-fuel zero m zero out a b = sym (emit_digits-zero m out)
  emit_digits-fuel zero m (suc n) out a b = absurd (omega (arith, a))
  emit_digits-fuel (suc k) zero zero out a b = refl
  emit_digits-fuel (suc k) zero (suc n) out a b = absurd (omega (arith, b))
  emit_digits-fuel (suc k) (suc m) zero out a b = refl
  emit_digits-fuel (suc k) (suc m) (suc n) out a b =
      let less = div-lt_self {n = suc n} {k = base} (omega arith) big in
      rw (positive n) (
        emit_digits-fuel k m (suc n / base) ((suc n % base) ∷ out) (omega (arith, less, a))
          (omega (arith, less, b)))

  digits_step :
      (k n : ℕ) (out : List ℕ)
      → 0 < n
      → n ≤ k
      → emit_digits base k n out ≡ emit_digits base (n / base) (n / base) ((n % base) ∷ out)
  unfolding emit_digits
  digits_step zero n out pos fits = absurd (omega (arith, pos, fits))
  digits_step (suc k) zero out pos fits = absurd (omega (arith, pos))
  digits_step (suc k) (suc n) out pos fits =
      let less = div-lt_self {n = suc n} {k = base} (omega arith) big in
      rw (positive n) (
        emit_digits-fuel k (suc n / base) (suc n / base) ((suc n % base) ∷ out)
          (omega (arith, less, fits)) (omega arith))

be_from_pos : (acc : ℕ) (bs : Bytes) → 0 < acc → 0 < be_from acc bs
be_from_pos acc [] h = h
be_from_pos acc (b ∷ bs) h = be_from_pos (acc * 256 + b) bs (omega (arith, h))

-- The bytes of a number that was read from bytes.
digits-be_from :
    (acc : ℕ) (bs out : Bytes)
    → 0 < acc
    → IsBytes bs
    → emit_digits 256 (be_from acc bs) (be_from acc bs) out ≡ emit_digits 256 acc acc (bs ++ out)
digits-be_from acc [] out pos h = refl
digits-be_from acc (b ∷ bs) out pos h =
    let quotient : (acc * 256 + b) / 256 ≡ acc = omega (arith, h.0) in
    let remainder : (acc * 256 + b) % 256 ≡ b = omega (arith, h.0) in
    digits-be_from (acc * 256 + b) bs out (omega (arith, pos)) h.1
    ∙ digits_step 256 (omega arith) (acc * 256 + b) (acc * 256 + b) (bs ++ out) (omega (arith, pos))
        (omega arith)
    ∙ rw (quotient, remainder) refl

zeros-number_bytes :
    (bs : Bytes) → IsBytes bs → replicate (leading 0 bs) 0 ++ number_bytes (be_value bs) ≡ bs
unfolding leading number_bytes emit_digits
zeros-number_bytes [] h = refl
zeros-number_bytes (zero ∷ bs) h = ap (λ xs. 0 ∷ xs) (zeros-number_bytes bs h.1)
zeros-number_bytes (suc b ∷ bs) h =
    let low : suc b / 256 ≡ 0 = omega (arith, h.0) in
    let whole : suc b % 256 ≡ suc b = omega (arith, h.0) in
    let start : 0 + suc b ≡ suc b = omega arith in
    rw (nonzero b, start)
      (digits-be_from (suc b) bs [] (omega arith) h.1
        ∙ digits_step 256 (omega arith) (suc b) (suc b) (bs ++ []) (omega arith) (omega arith)
        ∙ rw (low, whole, append-nil bs) refl)

number_from_step :
    (num c d : ℕ) (s : Str)
    → index_of c b58_alphabet ≡ some d
    → number_from num (c ∷ s) ≡ number_from (num * 58 + d) s
unfolding number_from
number_from_step num c d s h = rw (h, number_from) refl

number_from-digits :
    (k n : ℕ) (out : List ℕ)
    → n ≤ k
    → number_from 0 (map b58_char (emit_digits 58 k n out)) ≡ number_from n (map b58_char out)
unfolding emit_digits number_from
number_from-digits k zero out h =
    ap (λ ds. number_from 0 (map b58_char ds)) (emit_digits-zero 58 (omega arith) k out)
number_from-digits zero (suc n) out h = absurd (omega (arith, h))
number_from-digits (suc k) (suc n) out h =
    let below : suc n % 58 < 58 = omega arith in
    let whole : suc n / 58 * 58 + suc n % 58 ≡ suc n = omega arith in
    rw (positive n) (
      number_from-digits k (suc n / 58) ((suc n % 58) ∷ out) (omega (arith, h))
      ∙ number_from_step (suc n / 58) (b58_char (suc n % 58)) (suc n % 58) (map b58_char out)
          (index_of-b58_char (suc n % 58) below)
      ∙ ap (λ v. number_from v (map b58_char out)) whole)

number_from-ones : (k : ℕ) (s : Str) → number_from 0 (replicate k b'1' ++ s) ≡ number_from 0 s
unfolding number_from index_of
number_from-ones zero s = refl
number_from-ones (suc k) s = number_from-ones k s

leading-digits :
    (k n : ℕ) (out : List ℕ)
    → 0 < n
    → n ≤ k
    → leading b'1' (map b58_char (emit_digits 58 k n out)) ≡ 0
unfolding emit_digits leading
leading-digits zero n out pos h = absurd (omega (arith, pos, h))
leading-digits (suc k) zero out pos h = absurd (omega (arith, pos))
leading-digits (suc k) (suc n) out pos h = elim (Bool-cases (ltb 0 (suc n / 58))) [
  | inl more ↦
      rw (positive n)
        (leading-digits k (suc n / 58) ((suc n % 58) ∷ out) (ltb→lt _ _ more) (omega (arith, h)))
  | inr last ↦
      let low : suc n / 58 ≡ 0 = ground (arith, last) in
      let digit = one_is_zero (suc n % 58) (omega arith) (omega (arith, low)) in
      rw (positive n, low, emit_digits-zero 58 (omega arith) k ((suc n % 58) ∷ out), leading, digit)
        refl
]

leading-ones : (k : ℕ) (s : Str) → leading b'1' s ≡ 0 → leading b'1' (replicate k b'1' ++ s) ≡ k
unfolding leading
leading-ones zero s h = h
leading-ones (suc k) s h = ap suc (leading-ones k s h)

leading-number : (n : ℕ) → leading b'1' (map b58_char (emit_digits 58 n n [])) ≡ 0
leading-number zero = unfold emit_digits leading in refl
leading-number (suc n) = leading-digits (suc n) (suc n) [] (omega arith) (omega arith)

full_bytes-some :
    (s : Str) (num : ℕ)
    → number_from 0 s ≡ some num
    → full_bytes s ≡ some (replicate (leading b'1' s) 0 ++ number_bytes num)
unfolding full_bytes
full_bytes-some s num h = rw (h, full_bytes) refl

pub full_bytes-base58_encode : (bs : Bytes) → IsBytes bs → full_bytes (base58_encode bs) ≡ some bs
unfolding base58_encode number_from
full_bytes-base58_encode bs h =
    let n = be_value bs in
    let digits = map b58_char (emit_digits 58 n n []) in
    let ones = leading-ones (leading 0 bs) digits (leading-number n) in
    full_bytes-some (base58_encode bs) n
      (number_from-ones (leading 0 bs) digits ∙ number_from-digits n n [] (omega arith))
    ∙ ap (λ k. some (replicate k 0 ++ number_bytes n)) ones
    ∙ ap some (zeros-number_bytes bs h)

module _ (sha256 : Bytes → Bytes) where
  abbrev pub checksum_of : Bytes → Bytes
  checksum_of body = take 4 (double_sha256 sha256 body)

  unfoldable pub base58_check_encode : ℕ → Bytes → Str
  base58_check_encode version payload =
      base58_encode ((version ∷ payload) ++ checksum_of (version ∷ payload))

  check_passes :
      (s : Str) (version : ℕ) (payload : Bytes)
      → length (checksum_of (version ∷ payload)) ≡ 4
      → full_bytes s ≡ some ((version ∷ payload) ++ checksum_of (version ∷ payload))
      → base58_check_decode sha256 s ≡ ok (version, payload)
  unfolding base58_check_decode
  check_passes s version payload four e =
      let body = version ∷ payload in
      let tail = checksum_of body in
      let size : length (body ++ tail) ≡ length body + 4 =
        length-append body tail ∙ omega (arith, four) in
      let enough : ltb (length (body ++ tail)) 5 ≡ false = ground (arith, size) in
      let cut : length (body ++ tail) - 4 ≡ length body = omega (arith, size) in
      let same : list_beq tail tail ≡ true = (list_beq_iff tail tail).1 refl in
      rw
        (
          e,
          enough,
          cut,
          take-append body tail,
          drop-append body tail,
          same,
          take-append payload tail,
        )
        refl

  -- What a wallet writes for a version and a payload is read as these, for every hash of 32 bytes.
  pub base58_check_decode-base58_check_encode :
      (version : ℕ) (payload : Bytes)
      → ((b : Bytes) → (length (sha256 b) ≡ 32) × IsBytes (sha256 b))
      → IsBytes (version ∷ payload)
      → base58_check_decode sha256 (base58_check_encode version payload) ≡ ok (version, payload)
  unfolding base58_check_encode double_sha256
  base58_check_decode-base58_check_encode version payload hash h =
      let body = version ∷ payload in
      let twice = hash (sha256 body) in
      check_passes (base58_check_encode version payload) version payload
        (length-take 4 (double_sha256 sha256 body) ∙ omega (arith, twice.0))
        (full_bytes-base58_encode (body ++ checksum_of body) (
          All-append (λ b. b < 256) body (checksum_of body) h
            (take-IsBytes 4 (double_sha256 sha256 body) twice.1)))
