-- ===== src/Bans.antt =====
-- internal/bans/bans.go: bans of misbehaving addresses. An int or a duration that is not positive,
-- which `defaults` replaces, is 0 here; a percentage is a float of the interface. The clock is an
-- argument.
pub mod Laws
pub mod Crowded
mod Tests
use icminers_stratum_v.Prelude.{
  str_eq, ℕ, ◌+◌, List, [], ◌∷◌, Bool, true, false, not, ltb, leb, ◌==◌, if◌then◌else◌, length,
  Option, none, some, Str,
}
use icminers_stratum_v.Prelude.Dict.{Dict, lookup, insert, erase}
use icminers_stratum_v.Prelude.Floats.{Floats}

pub record Config (F : Type 0) : Type 0 where
  pub enabled : Bool
  pub invalid_percent : F
  pub check_threshold : ℕ
  pub malformed_threshold : ℕ
  pub failed_auth_threshold : ℕ
  pub ban_duration : ℕ

pub record Counters : Type 0 where
  pub valid : ℕ
  pub invalid : ℕ
  pub malformed : ℕ
  pub failed_auth : ℕ

abbrev pub no_counters : Counters
no_counters = record { valid = 0; invalid = 0; malformed = 0; failed_auth = 0 }

abbrev pub max_tracked_ips : ℕ
max_tracked_ips = 100000

pub record Manager (F : Type 0) : Type 0 where
  pub cfg : Config F
  pub banned : Dict Str ℕ
  pub stats : Dict Str Counters

abbrev or_default : ℕ → ℕ → ℕ
or_default n d = if n == 0 then d else n

module _ (fl : Floats) where
  open fl use {F, of_ℕ, mul, div, le}

  -- Ten minutes, in nanoseconds.
  unfoldable pub defaults : Config F → Config F
  defaults c = record {
    enabled = c.enabled;
    invalid_percent = if le c.invalid_percent (of_ℕ 0) then of_ℕ 50 else c.invalid_percent;
    check_threshold = or_default c.check_threshold 50;
    malformed_threshold = or_default c.malformed_threshold 5;
    failed_auth_threshold = or_default c.failed_auth_threshold 10;
    ban_duration = or_default c.ban_duration 600000000000;
  }

  unfoldable pub new_manager : Config F → Manager F
  unfolding defaults
  new_manager cfg = record { cfg = defaults cfg; banned = []; stats = [] }

  -- An expired ban is removed when it is asked for.
  unfoldable pub is_banned : Manager F → Str → ℕ → Manager F × Bool
  is_banned m ip now = if not m.cfg.enabled then (m, false) else elim (lookup ip m.banned) [
    | none ↦ (m, false)
    | some expiry ↦
        if ltb expiry now then (record m { banned = erase ip m.banned }, false) else (m, true)
  ]

  unfoldable pub ban : Manager F → Str → ℕ → Manager F
  ban m ip now =
      if m.cfg.enabled
      then record m {
        banned = insert ip (now + m.cfg.ban_duration) m.banned;
        stats = erase ip m.stats;
      }
      else m

  -- `get`: the counters of a tracked address, or new ones if there is room.
  unfoldable pub tracked : Manager F → Str → Option Counters
  tracked m ip = elim (lookup ip m.stats) [
    | some c ↦ some c
    | none ↦ if leb max_tracked_ips (length m.stats) then none else some no_counters
  ]

  abbrev pub put : Manager F → Str → Counters → Manager F
  put m ip c = record m { stats = insert ip c m.stats }

  abbrev pub count_share : Counters → Bool → Counters
  count_share c valid =
      if valid then record c { valid = c.valid + 1 } else record c { invalid = c.invalid + 1 }

  unfoldable pub too_many : Config F → Counters → Bool
  too_many cfg c =
      le cfg.invalid_percent (mul (div (of_ℕ c.invalid) (of_ℕ (c.valid + c.invalid))) (of_ℕ 100))

  unfoldable pub judge_share : Manager F → Str → Counters → ℕ → Manager F
  unfolding ban too_many
  judge_share m ip c now =
      if leb m.cfg.check_threshold (c.valid + c.invalid)
      then (if too_many m.cfg c
          then ban (put m ip c) ip now
          else put m ip (record c { valid = 0; invalid = 0 }))
      else put m ip c

  unfoldable pub record_share : Manager F → Str → Bool → ℕ → Manager F
  unfolding judge_share tracked
  record_share m ip valid now =
      if not m.cfg.enabled
      then m
      else elim (tracked m ip) [ none ↦ m | some c ↦ judge_share m ip (count_share c valid) now ]

  -- The common end of the two counts below: a ban at the threshold.
  unfoldable pub judge_count : Manager F → Str → Counters → Bool → ℕ → Manager F × Bool
  unfolding ban
  judge_count m ip c over now =
      if over then (ban (put m ip c) ip now, true) else (put m ip c, false)

  unfoldable pub record_malformed : Manager F → Str → ℕ → Manager F × Bool
  unfolding judge_count tracked
  record_malformed m ip now = if not m.cfg.enabled then (m, false) else elim (tracked m ip) [
    | none ↦ (m, false)
    | some c ↦
        judge_count m ip (record c { malformed = c.malformed + 1 })
          (leb m.cfg.malformed_threshold (c.malformed + 1)) now
  ]

  unfoldable pub record_failed_auth : Manager F → Str → ℕ → Manager F × Bool
  unfolding judge_count tracked
  record_failed_auth m ip now = if not m.cfg.enabled then (m, false) else elim (tracked m ip) [
    | none ↦ (m, false)
    | some c ↦
        judge_count m ip (record c { failed_auth = c.failed_auth + 1 })
          (leb m.cfg.failed_auth_threshold (c.failed_auth + 1)) now
  ]

  -- The bans that have not expired.
  unfoldable pub unexpired : ℕ → Dict Str ℕ → Dict Str ℕ
  unexpired now [] = []
  unexpired now ((ip, until) ∷ bans) =
      let rest = unexpired now bans in if ltb until now then rest else (ip, until) ∷ rest

  -- The count also removes the others.
  unfoldable pub banned_count : Manager F → ℕ → Manager F × ℕ
  unfolding unexpired
  banned_count m now =
      let bans = unexpired now m.banned in (record m { banned = bans }, length bans)
