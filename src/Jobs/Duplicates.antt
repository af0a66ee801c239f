-- ===== src/Jobs/Duplicates.antt =====
-- Duplicate shares: what a submission does to the seen shares, and keys that do not collide.
use icminers_stratum_v.Prelude.{
  ℕ, suc, ◌+◌, ◌≡◌, refl, ap, [], ◌∷◌, ◌++◌, true, arith, ◌==◌, if◌then◌else◌, some, Str, str_eq,
  Result, err,
}
use icminers_stratum_v.Prelude.Floats.{Floats}
use icminers_stratum_v.Adapter.{MiningJob, ShareSubmit, ShareResult, ShareError}
use icminers_stratum_v.Jobs.Manager.{Manager, get}
use icminers_stratum_v.Jobs.Submit.{
  mark, submit_share, submit_found, dup_key, key_fields, join, duplicate_share,
}

pub mark-get : (m : Manager) (id key j : Str) → get (mark m id key).0 j ≡ get m j
unfolding mark get
mark-get m id key j = ground arith

module _ (fl : Floats)
    (validate : MiningJob → ShareSubmit fl.F → Result ShareError (ShareResult fl.F)) (m : Manager)
    (s : ShareSubmit fl.F) (now : ℕ) where
  pub submit_share-mark :
      (job : MiningJob)
      → get m s.job_id ≡ some job
      → (submit_share fl validate m s now).0 ≡ (mark m s.job_id (dup_key s)).0
  unfolding submit_share submit_found
  submit_share-mark job found = rw (found, submit_share) (ground arith)

  pub submit_share-duplicate :
      (job : MiningJob)
      → get m s.job_id ≡ some job
      → mark m s.job_id (dup_key s) ≡ (m, true)
      → submit_share fl validate m s now ≡ (m, [], err duplicate_share)
  unfolding submit_share submit_found
  submit_share-duplicate job found dup = rw (found, submit_share) (rw (dup, submit_found))

-- The number of separators in a text.
colons : Str → ℕ
colons [] = 0
colons (c ∷ s) = if c == b':' then suc (colons s) else colons s

colons-append : (xs ys : Str) → colons (xs ++ ys) ≡ colons xs + colons ys
unfolding colons
colons-append [] ys = omega arith
colons-append (x ∷ xs) ys = ground (arith, colons-append xs ys)

-- Two texts without a separator are told apart where the first one stands.
cut :
    (xs ys r s : Str)
    → colons xs ≡ 0
    → colons ys ≡ 0
    → xs ++ b':' ∷ r ≡ ys ++ b':' ∷ s
    → (xs ≡ ys) × (r ≡ s)
unfolding colons
cut [] [] r s p q e = (refl, cc)
cut [] (y ∷ ys) r s p q e = absurd (ground arith)
cut (x ∷ xs) [] r s p q e = absurd (ground arith)
cut (x ∷ xs) (y ∷ ys) r s p q e =
    let (tails, rest) = cut xs ys r s (ground arith) (ground arith) (cc) in
    (ground (arith, tails), rest)

-- Of texts joined by four separators, with no separator inside the first five.
joined :
    (a b c d e : Str)
    → colons (join (a ∷ b ∷ c ∷ d ∷ e ∷ []))
      ≡ colons a + colons b + colons c + colons d + colons e + 4
unfolding join colons
joined a b c d e = omega (
  arith,
  colons-append a (b':' ∷ (b ++ b':' ∷ (c ++ b':' ∷ (d ++ b':' ∷ e)))),
  colons-append b (b':' ∷ (c ++ b':' ∷ (d ++ b':' ∷ e))),
  colons-append c (b':' ∷ (d ++ b':' ∷ e)),
  colons-append d (b':' ∷ e),
)

-- No key field holds a separator, as for every field that is hexadecimal.
unfoldable pub IsPlain : {F : Type 0} → ShareSubmit F → Type 0
unfolding colons
IsPlain s =
    (colons s.extra_nonce1 ≡ 0)
    × (colons s.extra_nonce2 ≡ 0)
    × (colons s.n_time ≡ 0)
    × (colons s.nonce ≡ 0)
    × (colons s.version_bits ≡ 0)

-- A share whose fields hold no colon has a key of its own: any share with the same key, even one
-- with malformed fields, agrees with it in all five fields that change the header.
pub dup_key-injective :
    {F : Type 0} (s t : ShareSubmit F)
    → IsPlain s
    → dup_key s ≡ dup_key t
    → key_fields s ≡ key_fields t
unfolding dup_key join IsPlain
dup_key-injective s t p e =
    let count_s = joined s.extra_nonce1 s.extra_nonce2 s.n_time s.nonce s.version_bits in
    let count_t = joined t.extra_nonce1 t.extra_nonce2 t.n_time t.nonce t.version_bits in
    let total = ap colons e in
    let (p0, p1, p2, p3, p4) = p in
    let (a, e1) =
      cut s.extra_nonce1 t.extra_nonce1 _ _ p0 (omega (arith, count_s, count_t, total)) e in
    let (b, e2) =
      cut s.extra_nonce2 t.extra_nonce2 _ _ p1 (omega (arith, count_s, count_t, total)) e1 in
    let (c, e3) = cut s.n_time t.n_time _ _ p2 (omega (arith, count_s, count_t, total)) e2 in
    let (d, e4) = cut s.nonce t.nonce _ _ p3 (omega (arith, count_s, count_t, total)) e3 in
    cc (a, b, c, d, e4)
