-- ===== src/Bans/Laws.antt =====
-- internal/bans/bans.go: when an address is banned and for how long, the bound on the tracked
-- addresses, and what it means for those that come when the table is full.
use icminers_stratum_v.Prelude.{◌+◌, false, true, not, if◌then◌else◌}
use icminers_stratum_v.Prelude.{◌+◌}
use icminers_stratum_v.Prelude.{inl, inr, Bool-cases}
use icminers_stratum_v.Prelude.Dict.{insert}
use icminers_stratum_v.Prelude.Dict.{length-insert, length-erase, length-insert_old}
use icminers_stratum_v.Prelude.{inl, inr, Option-cases}
use icminers_stratum_v.Prelude.Dict.{lookup-insert_same}
use icminers_stratum_v.Prelude.{inl, inr, Bool-cases}
use icminers_stratum_v.Prelude.Dict.{lookup-insert_same}
use icminers_stratum_v.Prelude.{inl, inr, Bool-cases}
use icminers_stratum_v.Prelude.{
  str_eq, ℕ, ◌+◌, ◌≤◌, ◌≡◌, Bool, true, false, not, arith, leb, if◌then◌else◌, length, none, some,
  Str, Bool-cases, Option-cases, inl, inr,
}
use icminers_stratum_v.Prelude.Dict.{
  lookup, insert, lookup-insert_same, length-insert, length-erase, length-insert_old,
}
use icminers_stratum_v.Prelude.Floats.{Floats}
use icminers_stratum_v.Bans.{
  Counters, Manager, max_tracked_ips, is_banned, ban, tracked, put, too_many, judge_share,
  judge_count, record_share, record_malformed, record_failed_auth,
}

-- What the server reports of an address.
pub data Report : Type 0 where
  share : Bool → Report
  malformed_line failed_login : Report

module _ (fl : Floats) where
  open fl use {F}

  unfoldable pub report : Manager F → Str → Report → ℕ → Manager F
  unfolding record_share record_malformed record_failed_auth
  report m ip (share valid) now = record_share fl m ip valid now
  report m ip malformed_line now = (record_malformed fl m ip now).0
  report m ip failed_login now = (record_failed_auth fl m ip now).0

  -- With banning enabled, a ban made at some time holds at every later time up to and including its
  -- expiry, and at no time after it.
  is_banned-ban :
      (m : Manager F) (ip : Str) (now later : ℕ)
      → m.cfg.enabled ≡ true
      → (is_banned fl (ban fl m ip now) ip later).1 ≡ leb later (now + m.cfg.ban_duration)
  unfolding is_banned ban
  is_banned-ban m ip now later on =
      rw (on, lookup-insert_same ip (now + m.cfg.ban_duration) m.banned) (ground arith)

  untracked :
      (m : Manager F) (ip : Str)
      → lookup ip m.stats ≡ none
      → max_tracked_ips ≤ length m.stats
      → tracked fl m ip ≡ none
  unfolding tracked
  untracked m ip gone full = ground (arith, gone, full)

  -- A report of an address that is not tracked leaves the manager as it was while the table is full.
  pub report-full :
      (m : Manager F) (ip : Str) (r : Report) (now : ℕ)
      → lookup ip m.stats ≡ none
      → max_tracked_ips ≤ length m.stats
      → report m ip r now ≡ m
  unfolding report
  report-full m ip (share v) now gone full = rw (untracked m ip gone full, report) (ground arith)
  report-full m ip malformed_line now gone full =
      rw (untracked m ip gone full, report) (ground arith)
  report-full m ip failed_login now gone full = rw (untracked m ip gone full, report) (ground arith)

  -- New counters for an address fit if it is tracked or there is room.
  tracked-bounded :
      (m : Manager F) (ip : Str) (c d : Counters)
      → length m.stats ≤ max_tracked_ips
      → tracked fl m ip ≡ some c
      → length (insert ip d m.stats) ≤ max_tracked_ips
  unfolding tracked
  tracked-bounded m ip c d h t = elim (Option-cases (lookup ip m.stats)) [
    | inl gone ↦ ground (arith, gone, h, t, length-insert ip d m.stats)
    | inr (old, e) ↦ omega (arith, h, length-insert_old ip d old m.stats e)
  ]

  ban-bounded :
      (m : Manager F) (ip : Str) (d : Counters) (now : ℕ)
      → length (insert ip d m.stats) ≤ max_tracked_ips
      → length (ban fl (put fl m ip d) ip now).stats ≤ max_tracked_ips
  unfolding ban
  ban-bounded m ip d now h = ground (arith, h, length-erase ip (insert ip d m.stats))

  judge_count-bounded :
      (m : Manager F) (ip : Str) (d : Counters) (over : Bool) (now : ℕ)
      → length (insert ip d m.stats) ≤ max_tracked_ips
      → length (judge_count fl m ip d over now).0.stats ≤ max_tracked_ips
  unfolding judge_count
  judge_count-bounded m ip d true now h = ban-bounded m ip d now h
  judge_count-bounded m ip d false now h = h

  judge_share-bounded :
      (m : Manager F) (ip : Str) (d : Counters) (now : ℕ)
      → ((e : Counters) → length (insert ip e m.stats) ≤ max_tracked_ips)
      → length (judge_share fl m ip d now).stats ≤ max_tracked_ips
  unfolding judge_share
  judge_share-bounded m ip d now h =
      elim (Bool-cases (leb m.cfg.check_threshold (d.valid + d.invalid))) [
        | inr few ↦ rw (few, judge_share) (h d)
        | inl enough ↦ elim (Bool-cases (too_many fl m.cfg d)) [
          | inl bad ↦ rw (enough, judge_share, bad) (ban-bounded m ip d now (h d))
          | inr good ↦ rw (enough, judge_share, good) (h _)
        ]
      ]

  if_bounded :
      (m n : Manager F)
      → length m.stats ≤ max_tracked_ips
      → length n.stats ≤ max_tracked_ips
      → length (if not m.cfg.enabled then m else n).stats ≤ max_tracked_ips
  if_bounded m n h k = ground (arith, h, k)

  pair_bounded :
      (m : Manager F) (p : Manager F × Bool)
      → length m.stats ≤ max_tracked_ips
      → length p.0.stats ≤ max_tracked_ips
      → length (if◌then◌else◌ {A = Manager F × Bool} (not m.cfg.enabled) (m, false) p).0.stats
        ≤ max_tracked_ips
  pair_bounded m p h k = elim (Bool-cases m.cfg.enabled) [ inl on ↦ rw on k | inr off ↦ rw off h ]

  -- Every report keeps the number of tracked addresses within its bound.
  pub report-bounded :
      (m : Manager F) (ip : Str) (r : Report) (now : ℕ)
      → length m.stats ≤ max_tracked_ips
      → length (report m ip r now).stats ≤ max_tracked_ips
  unfolding report
  report-bounded m ip (share v) now h = elim (Option-cases (tracked fl m ip)) [
    | inl full ↦ rw (full, report) (ground (arith, h))
    | inr (c, t) ↦
        rw (t, report)
          (if_bounded m _ h (judge_share-bounded m ip _ now (λ e. tracked-bounded m ip c e h t)))
  ]
  report-bounded m ip malformed_line now h = elim (Option-cases (tracked fl m ip)) [
    | inl full ↦ rw (full, report) (ground (arith, h))
    | inr (c, t) ↦
        let d = record c { malformed = c.malformed + 1 } in
        let over = leb m.cfg.malformed_threshold (c.malformed + 1) in
        rw (t, report)
          (pair_bounded m (judge_count fl m ip d over now) h
            (judge_count-bounded m ip d over now (tracked-bounded m ip c d h t)))
  ]
  report-bounded m ip failed_login now h = elim (Option-cases (tracked fl m ip)) [
    | inl full ↦ rw (full, report) (ground (arith, h))
    | inr (c, t) ↦
        let d = record c { failed_auth = c.failed_auth + 1 } in
        let over = leb m.cfg.failed_auth_threshold (c.failed_auth + 1) in
        rw (t, report)
          (pair_bounded m (judge_count fl m ip d over now) h
            (judge_count-bounded m ip d over now (tracked-bounded m ip c d h t)))
  ]
