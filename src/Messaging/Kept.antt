-- ===== src/Messaging/Kept.antt =====
-- No published packet vanishes or is doubled: each is confirmed, queued, spooled or told to be lost.
use icminers_stratum_v.Prelude.{
  ℕ, zero, suc, ◌+◌, ◌≡◌, refl, arith, ap, List, [], ◌∷◌, ◌++◌, Bool, true, false, if◌then◌else◌,
  some, ok, err, inl, inr, Bool-cases, All, Result, All-append, Option-cases, subst,
}
use icminers_stratum_v.Spool.{Codec, Spool, append, whole, drain, replaced, SpoolError}
use icminers_stratum_v.Messaging.Publisher.{
  Packet, Act, Outbox, act, publish_one, publish, flush_spool, flush, act_all, pick, settled,
  spool_packet, settle, after_append,
}
use icminers_stratum_v.Spool.Runs.{
  take_one, perform_lem, push, FitsOp, perform, acknowledged, drain_each, World,
}
use icminers_stratum_v.Spool.Queue.{Fits, Holds, IsCodec}

module _ {P : Type 0} where
  pub count : (Packet P → Bool) → List (Packet P) → ℕ
  count p [] = 0
  count p (r ∷ rs) = if p r then count p rs + 1 else count p rs

  count-append :
      (p : Packet P → Bool) (xs ys : List (Packet P)) → count p (xs ++ ys) ≡ count p xs + count p ys
  unfolding count
  count-append p [] ys = omega arith
  count-append p (x ∷ xs) ys = ground (arith, count-append p xs ys)

  -- A packet that is taken out of some.
  count-pick :
      (p : Packet P → Bool) (n : ℕ) (xs : List (Packet P)) {r : Packet P} {rest : List (Packet P)}
      → pick n xs ≡ some (r, rest)
      → count p xs ≡ count p (r ∷ []) + count p rest
  unfolding count pick
  count-pick p n [] h = absurd (cc)
  count-pick p zero (x ∷ xs) {r} {rest} h =
      let first : x ≡ r = cc in
      let others : xs ≡ rest = cc in
      omega
        (arith, ap (λ y. count p (y ∷ [])) first, ap (count p) others, count-append p (x ∷ []) xs)
  count-pick p (suc n) (x ∷ xs) {r} {rest} h = elim (Option-cases (pick n xs)) [
    | inl gone ↦ absurd (let bad = rw gone at h in cc)
    | inr ((y, ys), found) ↦
        let there : some (y, x ∷ ys) ≡ some (r, rest) = rw found at h in
        let first : y ≡ r = cc in
        let others : x ∷ ys ≡ rest = cc in
        omega (
          arith,
          ap (λ z. count p (z ∷ [])) first,
          ap (count p) others,
          count-pick p n xs found,
          count-append p (x ∷ []) xs,
          count-append p (x ∷ []) ys,
        )
  ]

  pick-All :
      (T : Packet P → Type 0) (n : ℕ) (xs : List (Packet P)) {r : Packet P} {rest : List (Packet P)}
      → pick n xs ≡ some (r, rest)
      → All T xs
      → T r × All T rest
  unfolding pick
  pick-All T n [] h all = absurd (cc)
  pick-All T zero (x ∷ xs) {r} {rest} h all =
      let first : x ≡ r = cc in
      let others : xs ≡ rest = cc in (subst T first all.0, subst (All T) others all.1)
  pick-All T (suc n) (x ∷ xs) {r} {rest} h all = elim (Option-cases (pick n xs)) [
    | inl gone ↦ absurd (let bad = rw gone at h in cc)
    | inr ((y, ys), found) ↦
        let there : some (y, x ∷ ys) ≡ some (r, rest) = rw found at h in
        let first : y ≡ r = cc in
        let others : x ∷ ys ≡ rest = cc in
        let later = pick-All T n xs found all.1 in
        (subst T first later.0, subst (All T) others (all.0, later.1))
  ]

module _ {P : Type 0} (codec : Codec (Packet P)) where
  -- The packets that are published.
  unfoldable pub published : List (Act codec) → List (Packet P)
  published [] = []
  published (publish_one queued w r ∷ acts) = r ∷ published acts
  published (settled n confirmed w ∷ acts) = published acts
  published (flush rewrite ∷ acts) = published acts

  -- Each packet is short enough for the spool's scanner, and the file system does what it is told.
  unfoldable pub FitsAct : Act codec → Type 0
  FitsAct (publish_one queued w r) = (w ≡ whole) × Fits codec r
  FitsAct (settled n confirmed w) = w ≡ whole
  FitsAct (flush rewrite) = rewrite ≡ replaced

  -- An outbox whose spool holds these packets, and whose queued packets fit it.
  pub record IsHolding (o : Outbox P) (q : List (Packet P)) : Type 0 where
    pub spool : Spool
    pub there : o.spool ≡ some spool
    pub holds : Holds codec spool q
    pub fitting : All (Fits codec) o.in_flight

  -- How often a packet is somewhere.
  abbrev pub total : (Packet P → Bool) → Outbox P → List (Packet P) → ℕ
  total p o q = count p o.broker.delivered + count p o.in_flight + count p q + count p o.lost

  -- What an act does to the totals.
  abbrev Adds : Outbox P → List (Packet P) → List (Packet P) → Outbox P → Type 0
  Adds o q new o' =
      (rest : List (Packet P)) × IsHolding o' rest
      × ((p : Packet P → Bool) → total p o' rest ≡ total p o q + count p new)

  module _ (law : IsCodec codec) where
    -- The packets of a list that is put together in two ways.
    regroup :
        (p : Packet P → Bool) (done rest q new : List (Packet P))
        → done ++ rest ≡ done ++ (q ++ new)
        → count p rest ≡ count p q + count p new
    regroup p done rest q new h = omega (
      arith,
      count-append p done rest,
      count-append p done (q ++ new),
      count-append p q new,
      ap (count p) h,
    )

    -- What an append acknowledges.
    abbrev new_of : Packet P → Result SpoolError (Unit {0}) → List (Packet P)
    new_of r (ok u) = r ∷ []
    new_of r (err e) = []

    after_append-Adds :
        (r : Packet P) (o : Outbox P) (x : Spool × Result SpoolError (Unit {0}))
        (q rest : List (Packet P))
        → Holds codec x.0 rest
        → All (Fits codec) o.in_flight
        → ((p : Packet P → Bool) → count p rest ≡ count p q + count p (new_of r x.1))
        → Adds o q (r ∷ []) (after_append codec r o x)
    unfolding count
    after_append-Adds r o (sp, ok u) q rest holds fitting same = (
      rest,
      record { spool = sp; there = refl; holds = holds; fitting = fitting },
      λ p. omega (arith, same p),
    )
    after_append-Adds r o (sp, err e) q rest holds fitting same = (
      rest,
      record { spool = sp; there = refl; holds = holds; fitting = fitting },
      λ p. omega (arith, same p, count-append p o.lost (r ∷ [])),
    )

    spool_packet-Adds :
        (r : Packet P) (o : Outbox P) (q : List (Packet P))
        → Fits codec r
        → IsHolding o q
        → Adds o q (r ∷ []) (spool_packet codec whole r o)
    unfolding spool_packet perform acknowledged FitsOp
    spool_packet-Adds r o q f h =
        let w : World (Packet P) = record { spool = h.spool; consumer = o.broker } in
        let (rest, holds, same) = perform_lem codec law (push r) w q f h.holds in
        let new = acknowledged codec (push r) w in
        rw (h.there, spool_packet)
          (after_append-Adds r o (append codec whole r h.spool) q rest holds h.fitting
            (λ p. regroup p o.broker.delivered rest q new same))

    settle-Adds :
        (n : ℕ) (confirmed : Bool) (o : Outbox P) (q : List (Packet P))
        → IsHolding o q
        → Adds o q [] (settle codec n confirmed whole o)
    unfolding settle count
    settle-Adds n confirmed o q h = elim (Option-cases (pick n o.in_flight)) [
      | inl gone ↦ rw (settle, gone) (q, h, λ p. omega arith)
      | inr ((r, others), found) ↦
          let fitting = pick-All (Fits codec) n o.in_flight found h.fitting in
          let waiting = record o { in_flight = others } in
          let held : IsHolding waiting q = record {
            spool = h.spool;
            there = h.there;
            holds = h.holds;
            fitting = fitting.1;
          } in
          elim (Bool-cases confirmed) [
            | inl taken ↦
                rw (settle, found, taken)
                  (
                    q,
                    record {
                      spool = h.spool;
                      there = h.there;
                      holds = h.holds;
                      fitting = fitting.1;
                    },
                    λ p. omega (
                      arith,
                      count-append p o.broker.delivered (r ∷ []),
                      count-pick p n o.in_flight found,
                    ),
                  )
            | inr failed ↦
                let (rest, end, same) = spool_packet-Adds r waiting q fitting.0 held in
                rw (settle, found, failed)
                  (rest, end, λ p. omega (arith, same p, count-pick p n o.in_flight found))
          ]
    ]

    flush_spool-Adds :
        (o : Outbox P) (q : List (Packet P))
        → IsHolding o q
        → Adds o q [] (flush_spool codec replaced o)
    unfolding flush_spool perform acknowledged FitsOp count
    flush_spool-Adds o q h =
        let w : World (Packet P) = record { spool = h.spool; consumer = o.broker } in
        let (rest, holds, same) = perform_lem codec law drain_each w q tt h.holds in
        let after = (drain codec replaced take_one o.broker h.spool).0 in
        rw h.there (
          rest,
          record { spool = after.1; there = refl; holds = holds; fitting = h.fitting },
          λ p. omega (
            arith,
            count-append p after.0.delivered rest,
            count-append p o.broker.delivered (q ++ []),
            count-append p q [],
            ap (count p) same,
          ),
        )

    act_lem :
        (a : Act codec) (o : Outbox P) (q : List (Packet P))
        → FitsAct a
        → IsHolding o q
        → Adds o q (published (a ∷ [])) (act codec a o)
    unfolding act publish settle flush_spool FitsAct published
    act_lem (publish_one true w r) o q f h = (
      q,
      record {
        spool = h.spool;
        there = h.there;
        holds = h.holds;
        fitting = All-append (Fits codec) o.in_flight (r ∷ []) h.fitting (f.1, tt);
      },
      λ p. omega (arith, count-append p o.in_flight (r ∷ [])),
    )
    act_lem (publish_one false w r) o q f h = rw f.0 (spool_packet-Adds r o q f.1 h)
    act_lem (settled n confirmed w) o q f h = rw f (settle-Adds n confirmed o q h)
    act_lem (flush rewrite) o q f h = rw f (flush_spool-Adds o q h)

    published_lem :
        (p : Packet P → Bool) (a : Act codec) (acts : List (Act codec))
        → count p (published (a ∷ acts)) ≡ count p (published (a ∷ [])) + count p (published acts)
    unfolding published count
    published_lem p (publish_one queued w r) acts = count-append p (r ∷ []) (published acts)
    published_lem p (settled n confirmed w) acts = omega arith
    published_lem p (flush rewrite) acts = omega arith

    -- If the codec reads back what it wrote, every packet is short enough for the spool's reader, and
    -- every write and rewrite of the spool's file goes through: over any sequence of published events,
    -- confirmations and failures of queued packets, and flushes, whatever the broker answers, each
    -- packet is as often confirmed, queued, on the spool or among those told to be lost as it was
    -- before, and once more for each time that it was published.
    pub act_all-total :
        (acts : List (Act codec)) (o : Outbox P) (q : List (Packet P))
        → All FitsAct acts
        → IsHolding o q
        → Adds o q (published acts) (act_all codec acts o)
    unfolding act_all published count
    act_all-total [] o q f h = (q, h, λ p. omega arith)
    act_all-total (a ∷ acts) o q f h =
        let (middle, held, first) = act_lem a o q f.0 h in
        let (rest, end, later) = act_all-total acts (act codec a o) middle f.1 held in
        (rest, end, λ p. omega (arith, first p, later p, published_lem p a acts))
