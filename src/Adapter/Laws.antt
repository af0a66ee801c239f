-- ===== src/Adapter/Laws.antt =====
-- What an accepted share is.
use icminers_stratum_v.Prelude.{
  ◌≢◌, >>=-eq-ok, or_fail, or_fail-eq-ok, map_err-eq-ok, ◌+◌, ◌≤◌, ◌<◌, ◌≡◌, arith, true, leb,
  length, some, ok, Result-cases, inl, inr,
}
use icminers_stratum_v.Coins.Block.Laws.{build_header-layout, slice}
use icminers_stratum_v.Prelude.Floats.{Floats}
use icminers_stratum_v.Coins.Bytes.{Bytes, be_value, le_value, hex_encode}
use icminers_stratum_v.Coins.Merkle.{double_sha256, fold_branch}
use icminers_stratum_v.Coins.Coinbase.{assemble}
use icminers_stratum_v.Coins.Notify.{Job}
use icminers_stratum_v.Coins.Block.{SubmitFields, build_header, assemble_block, parse_submit_hex}
use icminers_stratum_v.Coins.Target.{hash_le_from_display_hex, reverse_bytes}
use icminers_stratum_v.Vardiff.Difficulty.{difficulty_to_target, hash_to_big, meets_target}
use icminers_stratum_v.Adapter.{
  Coin, MiningJob, ShareSubmit, ShareResult, no_payload, bad_submit, bad_coinbase, bad_header,
  pow_failed, identity_failed, validate_share, check_fields, judge,
}

module _ (fl : Floats) (coin : Coin) (job : MiningJob) (submit : ShareSubmit fl.F) where
  -- Everything that a result rests on.
  pub record Accepted (r : ShareResult fl.F) : Type 0 where
    pub base : Job
    pub fields : SubmitFields
    pub coinbase_tx : Bytes
    pub header : Bytes
    pub pow_le : Bytes
    pub id_le : Bytes
    pub has_base : job.base ≡ some base
    pub parsed :
        parse_submit_hex submit.extra_nonce1 submit.extra_nonce2 submit.n_time submit.nonce
          submit.version_bits coin.en2_size
        ≡ ok fields
    pub checked : check_fields fl coin base fields ≡ ok tt
    pub assembled :
        assemble base.coinbase_parts fields.extra_nonce1 fields.extra_nonce2 ≡ ok coinbase_tx
    pub has_header :
        build_header base
          (fold_branch coin.sha256 (double_sha256 coin.sha256 coinbase_tx) base.merkle_branch_le)
          fields
          coin.version_rolling_mask
        ≡ ok header
    pub hashed : coin.pow header ≡ some pow_le
    pub identified : coin.identity_hash header ≡ some id_le
    pub judged : judge fl coin job submit base coinbase_tx header pow_le id_le ≡ ok r

  pub validate_share-Accepted :
      {r : ShareResult fl.F} → validate_share fl coin job submit ≡ ok r → Accepted r
  unfolding validate_share
  validate_share-Accepted h =
      let (base, e1, h1) = >>=-eq-ok (or_fail job.base no_payload) _ h in
      let (fields, e2, h2) = >>=-eq-ok _ _ h1 in
      let (u, e3, h3) = >>=-eq-ok (check_fields fl coin base fields) _ h2 in
      let (tx, e4, h4) = >>=-eq-ok _ _ h3 in
      let (header, e5, h5) = >>=-eq-ok _ _ h4 in
      let (pow, e6, h6) = >>=-eq-ok _ _ h5 in
      let (id, e7, h7) = >>=-eq-ok _ _ h6 in
      record {
        base = base;
        fields = fields;
        coinbase_tx = tx;
        header = header;
        pow_le = pow;
        id_le = id;
        has_base = or_fail-eq-ok job.base no_payload e1;
        parsed = map_err-eq-ok bad_submit _ e2;
        checked = e3;
        assembled = map_err-eq-ok bad_coinbase _ e4;
        has_header = map_err-eq-ok bad_header _ e5;
        hashed = or_fail-eq-ok (coin.pow header) pow_failed e6;
        identified = or_fail-eq-ok (coin.identity_hash header) identity_failed e7;
        judged = h7;
      }

  checked_time :
      (base : Job) (f : SubmitFields)
      → check_fields fl coin base f ≡ ok tt
      → (base.min_time ≤ f.n_time) × (f.n_time ≤ base.cur_time + 7200)
  unfolding check_fields
  checked_time base f h = ground arith

  -- The flags and the block that `judge` reports.
  pub judged_flags :
      (base : Job) (tx header pow_le id_le : Bytes) {r : ShareResult fl.F}
      → judge fl coin job submit base tx header pow_le id_le ≡ ok r
      → (r.valid ≡ leb (be_value pow_le) (difficulty_to_target fl submit.worker_diff))
        × (r.block_candidate ≡ leb (be_value pow_le) (be_value job.network_target))
        × (r.block_candidate ≡ true
            → (assemble_block header tx base ≡ ok r.block_hex)
              × (r.block_hash ≡ hex_encode (reverse_bytes id_le)))
  unfolding judge hash_to_big meets_target
  judged_flags base tx header pow_le id_le h = elim (Result-cases (assemble_block header tx base)) [
    | inl (hex, e) ↦ (ground (arith, e), ground (arith, e), λ c. ground (arith, e))
    | inr (x, e) ↦ (ground (arith, e), ground (arith, e), λ c. ground (arith, e))
  ]

  -- Whenever a share gets a result, its header is 80 bytes, names the job's previous block and
  -- carries the merkle root of the coinbase with the session's extranonces; the submitted time lies
  -- between the template's minimum and two hours past its time; the share is valid exactly if the
  -- proof-of-work digest, read as a big-endian number, is at most the worker's target, and a block
  -- candidate exactly if that number is at most the network target.
  pub validate_share_sound :
      (r : ShareResult fl.F)
      → validate_share fl coin job submit ≡ ok r
      → (a : Accepted r) × (length a.header ≡ 80)
        × (hash_le_from_display_hex a.base.prev_hash_display ≡ ok (slice 4 32 a.header))
        × (slice 36 32 a.header
            ≡ fold_branch coin.sha256
                (double_sha256 coin.sha256 a.coinbase_tx)
                a.base.merkle_branch_le)
        × (a.base.min_time ≤ a.fields.n_time)
        × (a.fields.n_time ≤ a.base.cur_time + 7200)
        × (r.valid ≡ leb (be_value a.pow_le) (difficulty_to_target fl submit.worker_diff))
        × (r.block_candidate ≡ leb (be_value a.pow_le) (be_value job.network_target))
  validate_share_sound r h =
      let a = validate_share-Accepted h in
      let flags = judged_flags a.base a.coinbase_tx a.header a.pow_le a.id_le a.judged in
      let (size, prev, root) =
        build_header-layout a.base _ a.fields coin.version_rolling_mask a.has_header in
      let (early, late) = checked_time a.base a.fields a.checked in
      (a, size, prev, root, early, late, flags.0, flags.1)

  -- The digest is little-endian, as the source says of `PoWHash`, but is compared unreversed: for
  -- every digest that meets the network target in that byte order and misses it in the other, the
  -- reported block-candidate flag differs from the protocol's own test.
  pub validate_share_drops_block :
      (r : ShareResult fl.F) (a : Accepted r)
      → le_value a.pow_le ≤ be_value job.network_target
      → be_value job.network_target < be_value a.pow_le
      → r.block_candidate ≢ leb (le_value a.pow_le) (be_value job.network_target)
  validate_share_drops_block r a met missed same =
      let flags = judged_flags a.base a.coinbase_tx a.header a.pow_le a.id_le a.judged in
      ground (arith, flags.1)
