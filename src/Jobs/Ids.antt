-- ===== src/Jobs/Ids.antt =====
-- `strconv.FormatUint(counter, 16)` of internal/jobs/manager.go. Sixteen rounds are enough for a
-- uint64 (`read_id-job_id`).
use icminers_stratum_v.Prelude.{ltb→lt}
use native.Mathlib.Nat.{pow-suc}
use icminers_stratum_v.Prelude.{
  ◌-◌, ℕ, zero, suc, ◌+◌, ◌*◌, ◌/◌, ◌%◌, ◌^◌, ◌<◌, ◌≡◌, [], ◌∷◌, arith, ltb, if◌then◌else◌, Str,
  Bool-cases, inl, inr, lt→ltb, true, ap, ◌∙◌,
}
use icminers_stratum_v.Coins.Bytes.{hex_digit}

unfoldable pub format_loop : ℕ → ℕ → Str → Str
format_loop zero n acc = acc
format_loop (suc fuel) n acc =
    let more = format_loop fuel (n / 16) (hex_digit (n % 16) ∷ acc) in
    if ltb n 16 then hex_digit n ∷ acc else more

unfoldable pub job_id : ℕ → Str
unfolding format_loop
job_id n = format_loop 16 n []

-- The number that lowercase hexadecimal digits stand for.
abbrev pub digit_value : ℕ → ℕ
digit_value c = if ltb c 58 then c - 48 else c - 87

unfoldable pub read_from : ℕ → Str → ℕ
read_from acc [] = acc
read_from acc (c ∷ s) = read_from (acc * 16 + digit_value c) s

unfoldable pub read_id : Str → ℕ
read_id s = read_from 0 s

digit_value-hex_digit : (d : ℕ) → d < 16 → digit_value (hex_digit d) ≡ d
digit_value-hex_digit d h = ground arith

read_from-format_loop :
    (fuel n : ℕ) (acc : Str)
    → n < 16 ^ suc fuel
    → read_from 0 (format_loop (suc fuel) n acc) ≡ read_from n acc
unfolding format_loop read_from
read_from-format_loop zero n acc h =
    let small : ltb n 16 ≡ true = lt→ltb n 16 h in
    let value : 0 * 16 + digit_value (hex_digit n) ≡ n = omega (arith, digit_value-hex_digit n h) in
    rw small (ap (λ v. read_from v acc) value)
read_from-format_loop (suc fuel) n acc h = elim (Bool-cases (ltb n 16)) [
  | inl small ↦
      let value : 0 * 16 + digit_value (hex_digit n) ≡ n =
        omega (arith, digit_value-hex_digit n (ltb→lt n 16 small)) in
      rw small (ap (λ v. read_from v acc) value)
  | inr large ↦
      let below : n / 16 < 16 ^ suc fuel = omega (arith, pow-suc 16 (suc fuel)) in
      let low : n % 16 < 16 = omega arith in
      let whole : n / 16 * 16 + digit_value (hex_digit (n % 16)) ≡ n =
        omega (arith, digit_value-hex_digit (n % 16) low) in
      rw large (
        read_from-format_loop fuel (n / 16) (hex_digit (n % 16) ∷ acc) below
        ∙ ap (λ v. read_from v acc) whole)
]

-- Reading a job's id gives back its counter, so no two counters share an id.
pub read_id-job_id : (n : ℕ) → n < 2 ^ 64 → read_id (job_id n) ≡ n
unfolding read_id job_id read_from
read_id-job_id n h = read_from-format_loop 15 n [] h
