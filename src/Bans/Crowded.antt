-- ===== src/Bans/Crowded.antt =====
-- internal/bans/bans.go: an address that is reported while the table of addresses is full, among the
-- reports of all the others.
use icminers_stratum_v.Prelude.{
  str_eq, ℕ, ◌≤◌, ◌≡◌, List, [], ◌∷◌, Bool, true, false, refl, ap, ◌∙◌, arith, leb, length, none,
  Str, list_beq, list_beq_iff, Bool-cases, Option-cases, inl, inr, ◌+◌,
}
use icminers_stratum_v.Prelude.Dict.{lookup, insert, lookup-insert, lookup-erase}
use icminers_stratum_v.Prelude.Floats.{Floats}
use icminers_stratum_v.Bans.{
  Counters, Manager, max_tracked_ips, is_banned, ban, tracked, put, too_many, judge_share,
  judge_count, record_share, record_malformed, record_failed_auth,
}
use icminers_stratum_v.Bans.Laws.{Report, share, malformed_line, failed_login, report, report-full}

module _ (fl : Floats) (ip other : Str) (apart : list_beq other ip ≡ false) where
  open fl use {F}

  -- What the manager holds of an address stays.
  abbrev Same : Manager F → Manager F → Type 0
  Same m n = (lookup ip n.stats ≡ lookup ip m.stats) × (lookup ip n.banned ≡ lookup ip m.banned)

  put-Same : (m : Manager F) (d : Counters) → Same m (put fl m other d)
  put-Same m d = (ground (arith, apart, lookup-insert other ip d m.stats), refl)

  ban-Same : (m : Manager F) (d : Counters) (now : ℕ) → Same m (ban fl (put fl m other d) other now)
  unfolding ban
  ban-Same m d now = elim (Bool-cases m.cfg.enabled) [
    | inl on ↦ rw on (
      ground (
        arith,
        apart,
        lookup-insert other ip d m.stats,
        lookup-erase other ip (insert other d m.stats),
      ),
      ground (arith, apart, lookup-insert other ip (now + m.cfg.ban_duration) m.banned),
    )
    | inr off ↦ rw off (put-Same m d)
  ]

  judge_count-Same :
      (m : Manager F) (d : Counters) (over : Bool) (now : ℕ)
      → Same m (judge_count fl m other d over now).0
  unfolding judge_count
  judge_count-Same m d true now = ban-Same m d now
  judge_count-Same m d false now = put-Same m d

  judge_share-Same :
      (m : Manager F) (d : Counters) (now : ℕ) → Same m (judge_share fl m other d now)
  unfolding judge_share
  judge_share-Same m d now = elim (Bool-cases (leb m.cfg.check_threshold (d.valid + d.invalid))) [
    | inr few ↦ rw (few, judge_share) (put-Same m d)
    | inl enough ↦ elim (Bool-cases (too_many fl m.cfg d)) [
      | inl bad ↦ rw (enough, judge_share, bad) (ban-Same m d now)
      | inr good ↦ rw (enough, judge_share, good) (put-Same m _)
    ]
  ]

  report-Same : (m : Manager F) (r : Report) (now : ℕ) → Same m (report fl m other r now)
  unfolding report
  report-Same m (share v) now = elim (Bool-cases m.cfg.enabled) [
    | inr off ↦ rw (report, record_share, off) (refl, refl)
    | inl on ↦ elim (Option-cases (tracked fl m other)) [
      | inl full ↦ rw (report, record_share, on, full) (refl, refl)
      | inr (c, t) ↦ rw (report, record_share, on, t) (judge_share-Same m _ now)
    ]
  ]
  report-Same m malformed_line now = elim (Bool-cases m.cfg.enabled) [
    | inr off ↦ rw (report, record_malformed, off) (refl, refl)
    | inl on ↦ elim (Option-cases (tracked fl m other)) [
      | inl full ↦ rw (report, record_malformed, on, full) (refl, refl)
      | inr (c, t) ↦ rw (report, record_malformed, on, t) (judge_count-Same m _ _ now)
    ]
  ]
  report-Same m failed_login now = elim (Bool-cases m.cfg.enabled) [
    | inr off ↦ rw (report, record_failed_auth, off) (refl, refl)
    | inl on ↦ elim (Option-cases (tracked fl m other)) [
      | inl full ↦ rw (report, record_failed_auth, on, full) (refl, refl)
      | inr (c, t) ↦ rw (report, record_failed_auth, on, t) (judge_count-Same m _ _ now)
    ]
  ]

module _ (fl : Floats) where
  open fl use {F}

  -- Reports of addresses, each with its time.
  unfoldable pub report_all : List (Str × Report × ℕ) → Manager F → Manager F
  unfolding report
  report_all [] m = m
  report_all ((ip, r, now) ∷ rs) m = report_all rs (report fl m ip r now)

  -- The table is full whenever this address is reported.
  unfoldable pub IsCrowdedOut : Str → List (Str × Report × ℕ) → Manager F → Type 0
  IsCrowdedOut ip [] m = Unit {0}
  IsCrowdedOut ip ((other, r, now) ∷ rs) m =
      (list_beq other ip ≡ true → max_tracked_ips ≤ length m.stats)
      × IsCrowdedOut ip rs (report fl m other r now)

  report_all-absent :
      (rs : List (Str × Report × ℕ)) (m : Manager F) (ip : Str)
      → lookup ip m.stats ≡ none
      → lookup ip m.banned ≡ none
      → IsCrowdedOut ip rs m
      → (lookup ip (report_all rs m).stats ≡ none) × (lookup ip (report_all rs m).banned ≡ none)
  unfolding report_all IsCrowdedOut
  report_all-absent [] m ip gone free h = (gone, free)
  report_all-absent ((other, r, now) ∷ rs) m ip gone free h =
      elim (Bool-cases (list_beq other ip)) [
        | inl same ↦
            let here : other ≡ ip = (list_beq_iff other ip).0 same in
            let still =
              ap (λ a. report fl m a r now) here ∙ report-full fl m ip r now gone (h.0 same) in
            report_all-absent rs (report fl m other r now) ip
              (ap (λ n. lookup ip n.stats) still ∙ gone) (ap (λ n. lookup ip n.banned) still ∙ free)
              h.1
        | inr apart ↦
            let kept = report-Same fl ip other apart m r now in
            report_all-absent rs (report fl m other r now) ip (kept.0 ∙ gone) (kept.1 ∙ free) h.1
      ]

  -- An address that is neither tracked nor banned, and that is reported only while the table is full,
  -- is never tracked and never banned, however often it is reported for whatever reason, and whatever
  -- is reported of the other addresses in between.
  pub is_banned-report_all :
      (rs : List (Str × Report × ℕ)) (m : Manager F) (ip : Str) (later : ℕ)
      → lookup ip m.stats ≡ none
      → lookup ip m.banned ≡ none
      → IsCrowdedOut ip rs m
      → (lookup ip (report_all rs m).stats ≡ none)
        × ((is_banned fl (report_all rs m) ip later).1 ≡ false)
  unfolding is_banned
  is_banned-report_all rs m ip later gone free h =
      let end = report_all-absent rs m ip gone free h in (end.0, ground (arith, end.1))
