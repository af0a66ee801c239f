-- ===== src/Messaging/Tests.antt =====
-- Events of one region.
use icminers_stratum_v.Prelude.{
  if◌then◌else◌, ℕ, ◌+◌, ◌≡◌, refl, arith, List, [], ◌∷◌, Bool, true, false, Option, none, some,
  Str, codes, ◌-◌, ◌==◌, All, ◌≤◌, ◌≢◌, ap,
}
use icminers_stratum_v.Pool.State.{active, paused}
use icminers_stratum_v.Messaging.Publisher.{
  Recorded, Packet, packet_of, Outbox, Act, act_all, state_changed, publish_one, settled, flush,
  act,
}
use icminers_stratum_v.Messaging.{Codecs, StateChangeMsg, BlockEventMsg, ShareEventMsg}
use icminers_stratum_v.Messaging.Delivery.{
  IsRead, stored_by_master, stored_here, stored_by_master-packet_of,
}
use icminers_stratum_v.Prelude.Floats.{Ratio}
use icminers_stratum_v.Spool.{drop_cr, Codec, render, line_feed, whole, replaced}
use icminers_stratum_v.Messaging.Kept.{FitsAct, IsHolding, count, total, published, act_all-total}
use icminers_stratum_v.Spool.Queue.{Holds, IsCodec}
use icminers_stratum_v.Spool.Runs.{take_one}

-- Payloads that are the messages themselves.
data Payload : Type 0 where
  of_share : ShareEventMsg Ratio → Payload
  of_block : BlockEventMsg Ratio → Payload
  of_state : StateChangeMsg → Payload

abbrev read_share : Payload → Option (ShareEventMsg Ratio)
read_share (of_share m) = some m
read_share (of_block m) = none
read_share (of_state m) = none

abbrev read_block : Payload → Option (BlockEventMsg Ratio)
read_block (of_share m) = none
read_block (of_block m) = some m
read_block (of_state m) = none

abbrev read_state : Payload → Option StateChangeMsg
read_state (of_share m) = none
read_state (of_block m) = none
read_state (of_state m) = some m

abbrev codecs : Codecs Ratio Payload
codecs = record {
  shares = record { marshal = of_share; unmarshal = read_share };
  blocks = record { marshal = of_block; unmarshal = read_block };
  states = record { marshal = of_state; unmarshal = read_state };
}

codecs-IsRead : IsRead codecs
codecs-IsRead = record { shares_read = λ m. refl; blocks_read = λ m. refl; states_read = λ m. refl }

abbrev change : Recorded Ratio
change = state_changed (record { pool_id = codes "btc"; from = active; to = paused; reason = [] }) 7

stored_by_master-packet_of_example :
    stored_by_master codecs (packet_of (codes "eu") (codes "n1") codecs change)
    ≡ some (stored_here (codes "eu") (codes "n1") change)
stored_by_master-packet_of_example =
    stored_by_master-packet_of (codes "eu") (codes "n1") codecs change codecs-IsRead

-- A line for a packet: its payload and its subject, each byte moved above the line feed.
abbrev raise : Str → Str
raise [] = []
raise (b ∷ s) = (b + 20) ∷ raise s

abbrev lower_again : Str → Str
lower_again [] = []
lower_again (b ∷ s) = (b - 20) ∷ lower_again s

abbrev decode_line : List ℕ → Option (Packet Bool)
decode_line [] = none
decode_line (p ∷ s) = some (record { subject = lower_again s; payload = p == 21 })

abbrev lines : Codec (Packet Bool)
lines = record {
  encode = λ r. (if r.payload then 21 else 20) ∷ raise r.subject;
  decode = decode_line;
}

raise-high : (s : Str) → All (λ b. 20 ≤ b) (raise s)
raise-high [] = tt
raise-high (b ∷ s) = (omega arith, raise-high s)

no_feed : (s : List ℕ) → All (λ b. 20 ≤ b) s → All (λ b. b ≢ line_feed) s
no_feed [] h = tt
no_feed (b ∷ s) h = (λ e. omega (arith, e, h.0), no_feed s h.1)

no_cr : (s : List ℕ) → All (λ b. 20 ≤ b) s → drop_cr s ≡ s
unfolding drop_cr
no_cr [] h = refl
no_cr (b ∷ []) h = ground (arith, h.0)
no_cr (b ∷ c ∷ s) h = ap (λ r. b ∷ r) (no_cr (c ∷ s) h.1)

lower_again-raise : (s : Str) → lower_again (raise s) ≡ s
lower_again-raise [] = refl
lower_again-raise (b ∷ s) =
    let same : b + 20 - 20 ≡ b = omega arith in rw (same, lower_again-raise s) refl

flag_high : (p : Bool) → 20 ≤ (if p then 21 else 20)
flag_high true = omega arith
flag_high false = omega arith

flag_read : (p : Bool) → ((if p then 21 else 20) == 21) ≡ p
flag_read true = refl
flag_read false = refl

lines-IsCodec : IsCodec lines
lines-IsCodec r =
    let high : All (λ b. 20 ≤ b) (lines.encode r) = (flag_high r.payload, raise-high r.subject) in
    (
      no_feed (lines.encode r) high,
      no_cr (lines.encode r) high,
      rw (lower_again-raise r.subject, flag_read r.payload) refl,
      omega arith,
    )

abbrev packet : ℕ → Packet Bool
packet n = record { subject = n ∷ []; payload = true }

-- The first packet is queued and fails later, the second is queued and confirmed, the third is not
-- queued; then the broker takes the first at a flush, but not the third.
abbrev start : Outbox Bool
start = record {
  broker = record { answers = true ∷ false ∷ []; delivered = [] };
  in_flight = [];
  spool = some (record { file = []; size = 0; max = 100 });
  lost = [];
}

abbrev acts : List (Act lines)
acts =
    publish_one true whole (packet 1)
    ∷ publish_one true whole (packet 2)
    ∷ settled 0 false whole
    ∷ publish_one false whole (packet 3)
    ∷ settled 0 true whole
    ∷ flush replaced
    ∷ []

late_packet : (act_all lines acts start).broker.delivered ≡ packet 2 ∷ packet 1 ∷ []
unfolding act_all act take_one
late_packet = refl

-- A full spool loses what fails.
nowhere :
    (act_all lines
      (publish_one false whole (packet 1) ∷ [])
      (record start { spool = some (record { file = []; size = 0; max = 1 }) })).lost
    ≡ packet 1 ∷ []
unfolding act_all act
nowhere = refl

start-IsHolding : IsHolding lines start []
unfolding Holds render
start-IsHolding = record {
  spool = record { file = []; size = 0; max = 100 };
  there = refl;
  holds = (refl, refl, tt);
  fitting = tt;
}

fits : All (FitsAct lines) acts
unfolding FitsAct
fits =
    ((refl, omega arith), ((refl, omega arith), (refl, ((refl, omega arith), (refl, (refl, tt))))))

act_all-total_example :
    (rest : List (Packet Bool)) × IsHolding lines (act_all lines acts start) rest
    × ((p : Packet Bool → Bool)
        → total lines p (act_all lines acts start) rest
          ≡ total lines p start [] + count p (published lines acts))
act_all-total_example = act_all-total lines lines-IsCodec acts start [] fits start-IsHolding
