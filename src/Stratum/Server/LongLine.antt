-- ===== src/Stratum/Server/LongLine.antt =====
-- One line that does not fit the reader's buffer.
use icminers_stratum_v.Prelude.{
  ℕ, zero, suc, ◌+◌, ◌<◌, ◌≤◌, ◌≡◌, refl, ap, ◌∙◌, arith, true, false, inl, inr, Option, none, some,
  List, ◌∷◌, Str, str_eq, leb, length, Bool-cases, leb→le,
}
use icminers_stratum_v.Prelude.Floats.{Floats}
use icminers_stratum_v.Stratum.Handler.{Request}
use icminers_stratum_v.Bans.{record_malformed, tracked, judge_count, ban}
use icminers_stratum_v.Stratum.Server.{
  Moment, handle_conn, on_read, Conn, on_malformed, count_malformed, max_malformed_per_conn,
}
use icminers_stratum_v.Stratum.Codec.{
  read, scan, Stream, next_line, read_scanned, buffer_size, too_long, line_too_long,
}
use icminers_stratum_v.Prelude.Dict.{insert, lookup-insert_same, lookup, erase}
use icminers_stratum_v.Bans as Bans

module _ (decode : Str → Option Request) (max_line : ℕ) where
  read_failed :
      (s : Stream) → s.failed ≡ some too_long → read decode max_line s ≡ (s, line_too_long)
  unfolding read scan next_line read_scanned
  read_failed s h = rw h refl

  read_long :
      (s : Stream) (line : Str) (rest : List Str)
      → s.failed ≡ none
      → s.lines ≡ line ∷ rest
      → leb (buffer_size max_line) (length line) ≡ true
      → read decode max_line s ≡ (record s { failed = some too_long }, line_too_long)
  unfolding read scan next_line read_scanned
  read_long s line rest fresh here long = rw (fresh, here, long) refl

module _ (fl : Floats) where
  open fl use {F}

  -- The first ban, and the reports before it.
  last_report :
      (m : Bans.Manager F) (ip : Str) (cnt : Bans.Counters) (now : ℕ)
      → m.cfg.enabled ≡ true
      → tracked fl m ip ≡ some cnt
      → m.cfg.malformed_threshold ≤ cnt.malformed + 1
      → (m' : Bans.Manager F) × (record_malformed fl m ip now ≡ (m', true))
        × (lookup ip m'.banned ≡ some (now + m.cfg.ban_duration))
  unfolding record_malformed judge_count ban
  last_report m ip cnt now on found over =
      let counted = record cnt { malformed = cnt.malformed + 1 } in
      let enough : leb m.cfg.malformed_threshold (cnt.malformed + 1) ≡ true =
        ground (arith, over) in
      (
        record m {
          banned = insert ip (now + m.cfg.ban_duration) m.banned;
          stats = erase ip (insert ip counted m.stats);
        },
        rw (on, found, record_malformed, enough, on) refl,
        lookup-insert_same ip (now + m.cfg.ban_duration) m.banned,
      )

  early_report :
      (m : Bans.Manager F) (ip : Str) (cnt : Bans.Counters) (now : ℕ)
      → m.cfg.enabled ≡ true
      → tracked fl m ip ≡ some cnt
      → cnt.malformed + 1 < m.cfg.malformed_threshold
      → record_malformed fl m ip now ≡ (
        record m { stats = insert ip (record cnt { malformed = cnt.malformed + 1 }) m.stats },
        false,
      )
  unfolding record_malformed judge_count
  early_report m ip cnt now on found under =
      let few : leb m.cfg.malformed_threshold (cnt.malformed + 1) ≡ false = ground (arith, under) in
      ground (arith, on, found, few)

  still_tracked :
      (m : Bans.Manager F) (ip : Str) (cnt : Bans.Counters)
      → tracked fl (record m { stats = insert ip cnt m.stats }) ip ≡ some cnt
  unfolding tracked
  still_tracked m ip cnt = rw (lookup-insert_same ip cnt m.stats, tracked) refl

module _ (fl : Floats) {N : Type 0} where
  open fl use {F}

  module _ (decode : Str → Option Request) (max_line : ℕ) (world : ℕ → Moment F N)
      (running : (i : ℕ) → (world i).cancelled ≡ false)
      (alone : (i : ℕ) → (world i).others ≡ (λ m. m)) where
    -- The same error is read again and again, and each time is a malformed line.
    spin :
        (fuel round : ℕ) (s : Stream) (c : Conn F N) (m : Bans.Manager F) (cnt : Bans.Counters)
        → (read decode max_line s).1 ≡ line_too_long
        → (read decode max_line s).0.failed ≡ some too_long
        → c.bans ≡ some m
        → m.cfg.enabled ≡ true
        → tracked fl m c.session.remote_ip ≡ some cnt
        → cnt.malformed ≡ c.malformed_lines
        → c.malformed_lines < m.cfg.malformed_threshold
        → m.cfg.malformed_threshold ≤ max_malformed_per_conn
        → m.cfg.malformed_threshold ≤ fuel + c.malformed_lines
        → (end : Conn F N) × (m' : Bans.Manager F) × (last : ℕ) × (handle_conn fl decode max_line
              world fuel round s c
            ≡ some end)
          × (end.bans ≡ some m')
          × (end.effects ≡ c.effects)
          × (lookup c.session.remote_ip m'.banned ≡ some ((world last).now + m.cfg.ban_duration))
    unfolding handle_conn on_read on_malformed count_malformed
    spin zero round s c m cnt long dead bans on found same under at_most enough =
        absurd (omega (arith, under, enough))
    spin (suc fuel) round s c m cnt long dead bans on found same under at_most enough =
        let ip = c.session.remote_ip in
        let now = (world round).now in
        elim (Bool-cases (leb m.cfg.malformed_threshold (cnt.malformed + 1))) [
          | inl over ↦
              let (m', reported, banned) = last_report fl m ip cnt now on found (leb→le _ _ over) in
              (
                record c { malformed_lines = c.malformed_lines + 1; bans = some m' },
                m',
                round,
                rw (running round, alone round, bans, long, reported) refl,
                refl,
                refl,
                banned,
              )
          | inr more ↦
              let few : cnt.malformed + 1 < m.cfg.malformed_threshold = ground (arith, more) in
              let counted = record cnt { malformed = cnt.malformed + 1 } in
              let m1 = record m { stats = insert ip counted m.stats } in
              let s' = (read decode max_line s).0 in
              let c1 = record c { malformed_lines = c.malformed_lines + 1; bans = some m1 } in
              let under5 : leb max_malformed_per_conn (c.malformed_lines + 1) ≡ false =
                ground (arith, few, same, at_most) in
              let again = read_failed decode max_line s' dead in
              let (end, m', last, done, b, e, banned) =
                spin fuel (round + 1) s' c1 m1 counted (ap (λ p. p.1) again)
                  (ap (λ p. p.0.failed) again ∙ dead) refl on (still_tracked fl m ip counted)
                  (omega (arith, same)) (omega (arith, few, same)) at_most
                  (omega (arith, enough)) in
              (
                end,
                m',
                last,
                rw
                    (
                      running round,
                      alone round,
                      bans,
                      long,
                      early_report fl m ip cnt now on found few,
                      under5,
                    )
                    done,
                b,
                e,
                banned,
              )
        ]

    -- With banning enabled at a threshold of one to five lines, as the default five is, one line that
    -- does not fit the reader's buffer gets a tracked address without malformed lines banned: the line
    -- is counted until the threshold is reached, and nothing that follows it on the connection is
    -- served. The server is not shutting down, and the other connections report nothing meanwhile.
    pub handle_conn-long_line :
        (fuel round : ℕ) (s : Stream) (line : Str) (rest : List Str) (c : Conn F N)
        (m : Bans.Manager F) (cnt : Bans.Counters)
        → s.failed ≡ none
        → s.lines ≡ line ∷ rest
        → leb (buffer_size max_line) (length line) ≡ true
        → c.bans ≡ some m
        → c.malformed_lines ≡ 0
        → m.cfg.enabled ≡ true
        → 0 < m.cfg.malformed_threshold
        → m.cfg.malformed_threshold ≤ max_malformed_per_conn
        → tracked fl m c.session.remote_ip ≡ some cnt
        → cnt.malformed ≡ 0
        → max_malformed_per_conn ≤ fuel
        → (end : Conn F N) × (m' : Bans.Manager F) × (last : ℕ) × (handle_conn fl decode max_line
              world fuel round s c
            ≡ some end)
          × (end.bans ≡ some m')
          × (end.effects ≡ c.effects)
          × (lookup c.session.remote_ip m'.banned ≡ some ((world last).now + m.cfg.ban_duration))
    handle_conn-long_line fuel round s line rest c m cnt fresh here long bans none_before on some_
          at_most found zero_ enough =
        let first = read_long decode max_line s line rest fresh here long in
        spin fuel round s c m cnt (ap (λ p. p.1) first) (ap (λ p. p.0.failed) first) bans on found
          (omega (arith, none_before, zero_)) (omega (arith, none_before, some_)) at_most
          (omega (arith, at_most, enough))
