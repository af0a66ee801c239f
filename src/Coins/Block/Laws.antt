-- ===== src/Coins/Block/Laws.antt =====
-- Headers and blocks read back.
use icminers_stratum_v.Prelude.{All-append}
use icminers_stratum_v.Coins.Bytes.{IsBytes, take-IsBytes, drop-IsBytes}
use icminers_stratum_v.Coins.Target.Laws.{length-hash_le_from_display_hex}
use icminers_stratum_v.Prelude.{[], replicate, take-append, drop-append}
use icminers_stratum_v.Prelude.{
  take-append-drop, ap, length-take, take-append, drop-append, length-drop, suc, ◌∷◌, inl, inr,
  Result-cases, ◌-◌, ◌^◌, ◌<◌, ℕ, ◌+◌, ◌≡◌, ◌∙◌, refl, ◌++◌, arith, length, take, drop,
  take-append_eq, drop-append_add, length-append, append_assoc,
}
use icminers_stratum_v.Coins.Bytes.{le_value-le_bytes, le_value, Bytes, le_bytes}
use icminers_stratum_v.Coins.Block.{
  replicate, header_version, header_bits, bad_version, parse_hex_uint32_be,
  hash_le_from_display_hex, build_header, SubmitFields, ok, witnessify_coinbase, Job, layout_header,
}

-- `header[off:off+n]`
abbrev pub slice : ℕ → ℕ → Bytes → Bytes
slice off n bs = take n (drop off bs)

flat :
    (version : ℕ) (prev root : Bytes) (n_time bits nonce : ℕ)
    → layout_header version prev root n_time bits nonce
      ≡ le_bytes 4 version
        ++ (prev ++ (root ++ (le_bytes 4 n_time ++ (le_bytes 4 bits ++ le_bytes 4 nonce))))
unfolding layout_header
flat version prev root n_time bits nonce = simp append_assoc

module _ (version : ℕ) (prev root : Bytes) (n_time bits nonce : ℕ) (p : length prev ≡ 32)
    (r : length root ≡ 32) where
  length-layout_header : length (layout_header version prev root n_time bits nonce) ≡ 80
  length-layout_header = rw (flat version prev root n_time bits nonce) (
      omega (
        arith,
        length-append prev (root ++ (le_bytes 4 n_time ++ (le_bytes 4 bits ++ le_bytes 4 nonce))),
        length-append root (le_bytes 4 n_time ++ (le_bytes 4 bits ++ le_bytes 4 nonce)),
        p,
        r,
      ))

  tail : Bytes
  tail = le_bytes 4 n_time ++ (le_bytes 4 bits ++ le_bytes 4 nonce)

  behind : (k : ℕ) → drop (32 + (32 + k)) (prev ++ (root ++ tail)) ≡ drop k tail
  behind k = drop-append_add prev (root ++ tail) 32 (32 + k) p ∙ drop-append_add root tail 32 k r

  slices :
      let h = layout_header version prev root n_time bits nonce in
      (slice 0 4 h ≡ le_bytes 4 version)
      × (slice 4 32 h ≡ prev)
      × (slice 36 32 h ≡ root)
      × (slice 68 4 h ≡ le_bytes 4 n_time)
      × (slice 72 4 h ≡ le_bytes 4 bits)
      × (slice 76 4 h ≡ le_bytes 4 nonce)
  unfolding tail
  slices = rw (flat version prev root n_time bits nonce) (
    refl,
    take-append_eq prev (root ++ tail) 32 p,
    rw (drop-append_add prev (root ++ tail) 32 0 p) (take-append_eq root tail 32 r),
    rw (behind 0),
    rw (behind 4),
    rw (behind 8),
  )

-- What a header is made of.
built :
    (job : Job) (root : Bytes) (f : SubmitFields) (mask : ℕ) {h : Bytes}
    → build_header job root f mask ≡ ok h
    → (prev : Bytes) × (base : ℕ) × (bits : ℕ) × (hash_le_from_display_hex job.prev_hash_display
        ≡ ok prev)
      × (parse_hex_uint32_be bad_version job.version_hex ≡ ok base)
      × (header_bits job ≡ ok bits)
      × (length root ≡ 32)
      × (h ≡ layout_header (header_version base f mask) prev root f.n_time bits f.nonce)
built job root f mask e = elim (Result-cases (hash_le_from_display_hex job.prev_hash_display)) [
  | inr (x, bad) ↦ absurd (unfold build_header in ground (arith, bad))
  | inl (prev, p) ↦ elim (Result-cases (parse_hex_uint32_be bad_version job.version_hex)) [
    | inr (x, bad) ↦ absurd (unfold build_header in ground (arith, p, bad))
    | inl (base, v) ↦ elim (Result-cases (header_bits job)) [
      | inr (x, bad) ↦ absurd (unfold build_header in ground (arith, p, v, bad))
      | inl (bits, b) ↦
          unfold build_header in
          (prev, base, bits, p, v, b, ground (arith, p, v, b), ground (arith, p, v, b))
    ]
  ]
]

-- Every header that `BuildHeader` returns is 80 bytes, and at the protocol's offsets stand the
-- version (the template's, with the rolled bits under the mask), the previous block's hash, the
-- merkle root, the miner's time, the template's bits and the miner's nonce; time and nonce read
-- back as submitted.
pub build_header-slices :
    (job : Job) (root : Bytes) (f : SubmitFields) (mask : ℕ) (h : Bytes)
    → f.n_time < 2 ^ 32
    → f.nonce < 2 ^ 32
    → build_header job root f mask ≡ ok h
    → (base : ℕ) × (bits : ℕ) × (parse_hex_uint32_be bad_version job.version_hex ≡ ok base)
      × (header_bits job ≡ ok bits)
      × (length h ≡ 80)
      × (slice 0 4 h ≡ le_bytes 4 (header_version base f mask))
      × (hash_le_from_display_hex job.prev_hash_display ≡ ok (slice 4 32 h))
      × (slice 36 32 h ≡ root)
      × (le_value (slice 68 4 h) ≡ f.n_time)
      × (slice 72 4 h ≡ le_bytes 4 bits)
      × (le_value (slice 76 4 h) ≡ f.nonce)
build_header-slices job root f mask h time nonce e =
    let (prev, base, bits, p, v, b, r, whole) = built job root f mask e in
    let size = length-hash_le_from_display_hex job.prev_hash_display p in
    let version = header_version base f mask in
    let (s0, s4, s36, s68, s72, s76) = slices version prev root f.n_time bits f.nonce size r in
    (
      base,
      bits,
      v,
      b,
      rw whole (length-layout_header version prev root f.n_time bits f.nonce size r),
      rw whole s0,
      rw (whole, s4) p,
      rw whole s36,
      rw (whole, s68) (le_value-le_bytes 4 f.n_time time),
      rw whole s72,
      rw (whole, s76) (le_value-le_bytes 4 f.nonce nonce),
    )

-- The part of this that does not depend on the sizes of time and nonce.
pub build_header-layout :
    (job : Job) (root : Bytes) (f : SubmitFields) (mask : ℕ) {h : Bytes}
    → build_header job root f mask ≡ ok h
    → (length h ≡ 80)
      × (hash_le_from_display_hex job.prev_hash_display ≡ ok (slice 4 32 h))
      × (slice 36 32 h ≡ root)
build_header-layout job root f mask e =
    let (prev, base, bits, p, v, b, r, whole) = built job root f mask e in
    let size = length-hash_le_from_display_hex job.prev_hash_display p in
    let version = header_version base f mask in
    let (s0, s4, s36, s68, s72, s76) = slices version prev root f.n_time bits f.nonce size r in
    (
      rw whole (length-layout_header version prev root f.n_time bits f.nonce size r),
      rw (whole, s4) p,
      rw whole s36,
    )

-- A transaction without the two marker bytes and the 34 bytes of witness: what its txid is
-- defined over.
pub strip_witness : Bytes → Bytes
strip_witness tx = take 4 tx ++ (take (length tx - 44) (drop 6 tx) ++ drop (length tx - 4) tx)

abbrev witness : Bytes
witness = 0x01 ∷ 0x20 ∷ replicate 32 0

stripped :
    (a b c d : ℕ) (mid last : Bytes)
    → length last ≡ 4
    → let tx = a ∷ b ∷ c ∷ d ∷ 0 ∷ 1 ∷ ((mid ++ witness) ++ last) in
      (length tx ≡ length mid + 44) × (strip_witness tx ≡ a ∷ b ∷ c ∷ d ∷ (mid ++ last))
unfolding strip_witness
stripped a b c d mid last e =
    let body = length-append (mid ++ witness) last in
    let inner = length-append mid witness in
    let total : suc (suc (suc (suc (suc (suc (length ((mid ++ witness) ++ last)))))))
        ≡ length mid + 44 =
      omega (arith, body, inner, e) in
    let middle : length mid + 44 - 44 ≡ length mid = omega arith in
    let before : length mid + 44 - 4 ≡ suc (suc (suc (suc (suc (suc (length (mid ++ witness))))))) =
      omega (arith, inner) in
    (
      total,
      rw (total, middle, before, drop-append (mid ++ witness) last, append_assoc mid witness last)
          (rw (take-append mid (witness ++ last))),
    )

-- The source's five pieces.
abbrev pieces : Bytes → Bytes
pieces legacy =
    take 4 legacy
    ++ (0x00 ∷ 0x01 ∷ [])
    ++ drop 4 (take (length legacy - 4) legacy)
    ++ witness
    ++ drop (length legacy - 4) legacy

joined :
    (legacy : Bytes) {tx : Bytes}
    → witnessify_coinbase legacy ≡ ok tx
    → (50 < length legacy) × (tx ≡ pieces legacy)
unfolding witnessify_coinbase
joined legacy e = ground arith

pub witnessify_coinbase-IsBytes :
    (legacy : Bytes) {tx : Bytes} → IsBytes legacy → witnessify_coinbase legacy ≡ ok tx → IsBytes tx
witnessify_coinbase-IsBytes legacy h e =
    let front = take-IsBytes 4 legacy h in
    let middle = drop-IsBytes 4 _ (take-IsBytes (length legacy - 4) legacy h) in
    let back = drop-IsBytes (length legacy - 4) legacy h in
    rw (joined legacy e).1 (
      All-append _ _ _
        (All-append _ _ _ (All-append _ _ _ (All-append _ _ _ front (omega arith)) middle)
          (omega arith))
        back)

-- Witness serialization changes no byte of the coinbase: without marker, flag and witness it is
-- the legacy serialization again, and it is exactly 36 bytes longer.
pub strip_witness-witnessify_coinbase :
    (legacy : Bytes) (tx : Bytes)
    → witnessify_coinbase legacy ≡ ok tx
    → (length tx ≡ length legacy + 36) × (strip_witness tx ≡ legacy)
strip_witness-witnessify_coinbase (a ∷ b ∷ c ∷ d ∷ m) tx e =
    let k = length m - 4 in
    let (long, pieced) = joined (a ∷ b ∷ c ∷ d ∷ m) e in
    let cut : suc (suc (suc (suc (length m)))) - 4 ≡ suc (suc (suc (suc k))) =
      omega (arith, long) in
    let last : length (drop k m) ≡ 4 = omega (arith, long, length-drop k m) in
    let (size, same) = stripped a b c d (take k m) (drop k m) last in
    let whole : tx ≡ a ∷ b ∷ c ∷ d ∷ 0 ∷ 1 ∷ ((take k m ++ witness) ++ drop k m) =
      rw cut at pieced in
    rw whole (
      omega (arith, long, size, length-take k m),
      same ∙ ap (λ r. a ∷ b ∷ c ∷ d ∷ r) (take-append-drop k m),
    )
strip_witness-witnessify_coinbase [] tx e = absurd (omega (arith, joined [] e))
strip_witness-witnessify_coinbase (a ∷ []) tx e = absurd (omega (arith, joined (a ∷ []) e))
strip_witness-witnessify_coinbase (a ∷ b ∷ []) tx e = absurd (omega (arith, joined (a ∷ b ∷ []) e))
strip_witness-witnessify_coinbase (a ∷ b ∷ c ∷ []) tx e =
    absurd (omega (arith, joined (a ∷ b ∷ c ∷ []) e))
