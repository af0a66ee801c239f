-- ===== src/Coins/Bech32/Regroup.antt =====
-- A witness program's bytes, cut into groups of five bits by `convertBits` with padding, are what
-- `convertBits` makes of these groups.
use icminers_stratum_v.Prelude.{
  ℕ, ◌+◌, ◌*◌, ◌%◌, ◌<◌, ◌≡◌, refl, ap, ◌∙◌, arith, [], ◌∷◌, ◌++◌, true, false, ◌^◌, ok, err, ◌>>=◌,
  ◌==◌,
}
use icminers_stratum_v.Coins.Bech32.{prepend, convert_bits, convert_from, flush}
use icminers_stratum_v.Coins.Bytes.{Bytes, IsBytes}
use icminers_stratum_v.Coins.Bech32.Rounds.{
  cut, Out, group_at, join, after_group, after_byte, byte_at, cut_0, join_5, join_7, join_4, join_6,
  join_0, cut_3, join_2, cut_1, cut_4, join_1, cut_2, join_3,
}

-- What follows the cutting sees the groups that were prepended.
glue :
    (xs : Bytes) (rest all : Out) (k k' : Bytes → Out) (end end' : Bytes)
    → all ≡ prepend xs rest
    → (rest >>= k) ≡ ok end
    → ((gs : Bytes) → k gs ≡ ok end → k' (xs ++ gs) ≡ ok end')
    → (all >>= k') ≡ ok end'
glue xs (ok gs) all k k' end end' e h step = rw e (step gs h)
glue xs (err error) all k k' end end' e h step = absurd (cc)

-- The byte whose first bits are left in one word and whose last bits in the other.
abbrev straddling : ℕ → ℕ → ℕ → ℕ
straddling c a bits = (c * 2 ^ bits + a % 2 ^ bits) % 256

small_group : (acc k : ℕ) → group_at acc k < 32
small_group acc k = omega arith

end_3 : (a c : ℕ) → (cut a 3 [] >>= join c 5) ≡ ok (straddling c a 3 ∷ [])
unfolding convert_from flush
end_3 a c =
    let g = a * 2 ^ 2 % 2 ^ 5 % 256 in
    let zeros : (after_group c g * 2 ^ 6 % 2 ^ 8 == 0) ≡ true = ground arith in
    let whole : byte_at (after_group c g) 2 ≡ straddling c a 3 = omega arith in
    join_5 c g [] (omega arith) ∙ rw (zeros, whole) refl

end_1 : (a c : ℕ) → (cut a 1 [] >>= join c 7) ≡ ok (straddling c a 1 ∷ [])
unfolding convert_from flush
end_1 a c =
    let g = a * 2 ^ 4 % 2 ^ 5 % 256 in
    let zeros : (after_group c g * 2 ^ 4 % 2 ^ 8 == 0) ≡ true = ground arith in
    let whole : byte_at (after_group c g) 4 ≡ straddling c a 1 = omega arith in
    join_7 c g [] (omega arith) ∙ rw (zeros, whole) refl

end_4 : (a c : ℕ) → (cut a 4 [] >>= join c 4) ≡ ok (straddling c a 4 ∷ [])
unfolding convert_from flush
end_4 a c =
    let g = a * 2 ^ 1 % 2 ^ 5 % 256 in
    let zeros : (after_group c g * 2 ^ 7 % 2 ^ 8 == 0) ≡ true = ground arith in
    let whole : byte_at (after_group c g) 1 ≡ straddling c a 4 = omega arith in
    join_4 c g [] (omega arith) ∙ rw (zeros, whole) refl

end_2 : (a c : ℕ) → (cut a 2 [] >>= join c 6) ≡ ok (straddling c a 2 ∷ [])
unfolding convert_from flush
end_2 a c =
    let g = a * 2 ^ 3 % 2 ^ 5 % 256 in
    let zeros : (after_group c g * 2 ^ 5 % 2 ^ 8 == 0) ≡ true = ground arith in
    let whole : byte_at (after_group c g) 3 ≡ straddling c a 2 = omega arith in
    join_6 c g [] (omega arith) ∙ rw (zeros, whole) refl

end_0 : (a c : ℕ) → (cut a 0 [] >>= join c 0) ≡ ok []
unfolding convert_from flush
end_0 a c = let zeros : (c * 2 ^ 8 % 2 ^ 8 == 0) ≡ true = ground arith in rw zeros refl

mutual
  phase_0 : (a c : ℕ) (bs : Bytes) → IsBytes bs → (cut a 0 bs >>= join c 0) ≡ ok bs
  phase_0 a c [] h = end_0 a c
  phase_0 a c (b ∷ bs) h =
      let a' = after_byte a b in
      let g = group_at a' 3 in
      let c' = after_group c g in
      let whole : straddling c' a' 3 ≡ b = omega (arith, h.0) in
      glue (g ∷ []) (cut a' 3 bs) (cut a 0 (b ∷ bs)) (join c' 5) (join c 0)
        (straddling c' a' 3 ∷ bs) (b ∷ bs) (cut_0 a b bs h.0) (phase_3 a' c' bs h.1)
        (λ gs e. join_0 c g gs (small_group a' 3) ∙ e ∙ ap (λ x. ok (x ∷ bs)) whole)

  phase_3 :
      (a c : ℕ) (bs : Bytes) → IsBytes bs → (cut a 3 bs >>= join c 5) ≡ ok (straddling c a 3 ∷ bs)
  phase_3 a c [] h = end_3 a c
  phase_3 a c (b ∷ bs) h =
      let a' = after_byte a b in
      let g = group_at a' 6 in
      let f = group_at a' 1 in
      let c' = after_group c g in
      let d' = after_group c' f in
      let first : byte_at c' 2 ≡ straddling c a 3 = omega arith in
      let whole : straddling d' a' 1 ≡ b = omega (arith, h.0) in
      glue (g ∷ f ∷ []) (cut a' 1 bs) (cut a 3 (b ∷ bs)) (join d' 7) (join c 5)
        (straddling d' a' 1 ∷ bs) (straddling c a 3 ∷ b ∷ bs) (cut_3 a b bs h.0)
        (phase_1 a' d' bs h.1)
        (λ gs e.
          join_5 c g (f ∷ gs) (small_group a' 6)
          ∙ ap (prepend (byte_at c' 2 ∷ [])) (join_2 c' f gs (small_group a' 1) ∙ e)
          ∙ rw (first, whole) refl)

  phase_1 :
      (a c : ℕ) (bs : Bytes) → IsBytes bs → (cut a 1 bs >>= join c 7) ≡ ok (straddling c a 1 ∷ bs)
  phase_1 a c [] h = end_1 a c
  phase_1 a c (b ∷ bs) h =
      let a' = after_byte a b in
      let g = group_at a' 4 in
      let c' = after_group c g in
      let first : byte_at c' 4 ≡ straddling c a 1 = omega arith in
      let whole : straddling c' a' 4 ≡ b = omega (arith, h.0) in
      glue (g ∷ []) (cut a' 4 bs) (cut a 1 (b ∷ bs)) (join c' 4) (join c 7)
        (straddling c' a' 4 ∷ bs) (straddling c a 1 ∷ b ∷ bs) (cut_1 a b bs h.0)
        (phase_4 a' c' bs h.1)
        (λ gs e.
          join_7 c g gs (small_group a' 4)
          ∙ ap (prepend (byte_at c' 4 ∷ [])) e
          ∙ rw (first, whole) refl)

  phase_4 :
      (a c : ℕ) (bs : Bytes) → IsBytes bs → (cut a 4 bs >>= join c 4) ≡ ok (straddling c a 4 ∷ bs)
  phase_4 a c [] h = end_4 a c
  phase_4 a c (b ∷ bs) h =
      let a' = after_byte a b in
      let g = group_at a' 7 in
      let f = group_at a' 2 in
      let c' = after_group c g in
      let d' = after_group c' f in
      let first : byte_at c' 1 ≡ straddling c a 4 = omega arith in
      let whole : straddling d' a' 2 ≡ b = omega (arith, h.0) in
      glue (g ∷ f ∷ []) (cut a' 2 bs) (cut a 4 (b ∷ bs)) (join d' 6) (join c 4)
        (straddling d' a' 2 ∷ bs) (straddling c a 4 ∷ b ∷ bs) (cut_4 a b bs h.0)
        (phase_2 a' d' bs h.1)
        (λ gs e.
          join_4 c g (f ∷ gs) (small_group a' 7)
          ∙ ap (prepend (byte_at c' 1 ∷ [])) (join_1 c' f gs (small_group a' 2) ∙ e)
          ∙ rw (first, whole) refl)

  phase_2 :
      (a c : ℕ) (bs : Bytes) → IsBytes bs → (cut a 2 bs >>= join c 6) ≡ ok (straddling c a 2 ∷ bs)
  phase_2 a c [] h = end_2 a c
  phase_2 a c (b ∷ bs) h =
      let a' = after_byte a b in
      let g = group_at a' 5 in
      let f = group_at a' 0 in
      let c' = after_group c g in
      let d' = after_group c' f in
      let first : byte_at c' 3 ≡ straddling c a 2 = omega arith in
      let whole : byte_at d' 0 ≡ b = omega (arith, h.0) in
      glue (g ∷ f ∷ []) (cut a' 0 bs) (cut a 2 (b ∷ bs)) (join d' 0) (join c 6) bs
        (straddling c a 2 ∷ b ∷ bs) (cut_2 a b bs h.0) (phase_0 a' d' bs h.1)
        (λ gs e.
          join_6 c g (f ∷ gs) (small_group a' 5)
          ∙ ap (prepend (byte_at c' 3 ∷ []))
              (join_3 c' f gs (small_group a' 0) ∙ ap (prepend (byte_at d' 0 ∷ [])) e)
          ∙ rw (first, whole) refl)

-- Bytes of any number, cut into groups of five bits with padding, are joined again to the same bytes,
-- and without an error.
pub convert_bits-convert_bits :
    (bs : Bytes)
    → IsBytes bs
    → (convert_bits bs 8 5 true >>= λ gs. convert_bits gs 5 8 false) ≡ ok bs
unfolding convert_bits
convert_bits-convert_bits bs h = phase_0 0 0 bs h
