-- ===== src/Bans/Tests.antt =====
-- Runs of the ban manager.
use icminers_stratum_v.Prelude.{
  str_eq, ℕ, zero, suc, Bool-cases, inl, inr, ◌==◌, none, [], ◌∷◌, ◌≡◌, refl, arith, true, false,
  length, codes, Str, list_beq, List, ◌≤◌,
}
use icminers_stratum_v.Bans.Crowded.{IsCrowdedOut, report_all, is_banned-report_all}
use icminers_stratum_v.Bans.Laws.{Report, report-full, report, share, malformed_line}
use icminers_stratum_v.Bans.{
  max_tracked_ips, Counters, no_counters, Config, Manager, new_manager, is_banned, record_malformed,
}
use icminers_stratum_v.Prelude.Dict.{Dict, lookup, insert, erase}
use icminers_stratum_v.Prelude.Floats.{ratios, frac, Ratio}

abbrev config : Config Ratio
config = record {
  enabled = true;
  invalid_percent = frac 50 1;
  check_threshold = 2;
  malformed_threshold = 2;
  failed_auth_threshold = 3;
  ban_duration = 60;
}

abbrev start : Manager Ratio
start = new_manager ratios config

abbrev ip : Str
ip = codes "10.0.0.1"

second_line : (record_malformed ratios (report ratios start ip malformed_line 5) ip 6).1 ≡ true
unfolding report new_manager record_malformed insert lookup list_beq
second_line = refl

two_bad_shares :
    (is_banned ratios
      (report ratios (report ratios start ip (share false) 5) ip (share false) 6)
      ip
      7).1
    ≡ true
unfolding report new_manager is_banned insert lookup list_beq erase
two_bad_shares = refl

-- A table of n different addresses.
unfoldable crowd : ℕ → Dict Str Counters
crowd zero = []
crowd (suc n) = ((n ∷ []), no_counters) ∷ crowd n

length-crowd : (n : ℕ) → length (crowd n) ≡ n
unfolding crowd
length-crowd zero = refl
length-crowd (suc n) = omega (arith, length-crowd n)

lookup-crowd : (c : ℕ) (s : Str) (n : ℕ) → lookup (b'1' ∷ c ∷ s) (crowd n) ≡ none
unfolding crowd lookup list_beq
lookup-crowd c s zero = refl
lookup-crowd c s (suc n) = elim (Bool-cases (n == b'1')) [
  | inl e ↦ rw e (lookup-crowd c s n)
  | inr e ↦ rw e (lookup-crowd c s n)
]

abbrev full : Manager Ratio
full = record start { stats = crowd 100000 }

abbrev neighbour : Str
neighbour = codes "10.0.0.2"

full-crowded : max_tracked_ips ≤ length full.stats
full-crowded = omega (arith, length-crowd 100000)

unmoved : report ratios full ip malformed_line 5 ≡ full
unmoved = report-full ratios full ip malformed_line 5 (lookup-crowd _ _ 100000) full-crowded

unmoved_either : report ratios full neighbour (share false) 6 ≡ full
unmoved_either =
    report-full ratios full neighbour (share false) 6 (lookup-crowd _ _ 100000) full-crowded

-- The address is reported twice, and a neighbour in between.
abbrev reports : List (Str × Report × ℕ)
reports = (ip, malformed_line, 5) ∷ (neighbour, share false, 6) ∷ (ip, malformed_line, 7) ∷ []

reports-IsCrowdedOut : IsCrowdedOut ratios ip reports full
unfolding IsCrowdedOut
reports-IsCrowdedOut =
    rw unmoved
      (rw unmoved_either (λ same. full-crowded, (λ same. full-crowded, (λ same. full-crowded, tt))))

is_banned-report_all_example :
    (lookup ip (report_all ratios reports full).stats ≡ none)
    × ((is_banned ratios (report_all ratios reports full) ip 8).1 ≡ false)
unfolding new_manager lookup
is_banned-report_all_example =
    is_banned-report_all ratios reports full ip 8 (lookup-crowd _ _ 100000) refl
      reports-IsCrowdedOut
