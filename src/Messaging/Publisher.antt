-- ===== src/Messaging/Publisher.antt =====
-- internal/messaging/nats/publisher.go, with the handler of failed publishes (client.go and
-- cmd/stratumd/main.go): events become packets of a subject and a payload, which the client queues for
-- the broker. A packet that is not queued, or not confirmed later, goes to the spool, and a flush hands
-- the spool's packets to the broker in order. What the broker answers to a flush is a list; what becomes
-- of a queued packet is an event of its own. What the file system answers is an argument.
use icminers_stratum_v.Prelude.{
  zero, suc, ◌++◌, ok, err, Result, Bool, ℕ, List, [], ◌∷◌, if◌then◌else◌, Option, none, some, Str,
}
use icminers_stratum_v.Messaging.{
  share_subject, ShareEventMsg, BlockEventMsg, StateChangeMsg, block_subject, state_subject, Codecs,
  Bool,
}
use icminers_stratum_v.Jobs.Submit.{BlockEvent, ShareEvent}
use icminers_stratum_v.Spool.Runs.{Consumer, take_one}
use icminers_stratum_v.Spool.{Codec, Spool, drain, append, Rewrite, Write, SpoolError}
use icminers_stratum_v.Pool.Service.{Change}
use icminers_stratum_v.Pool.State.{text_of}

pub record Packet (P : Type 0) : Type 0 where
  pub subject : Str
  pub payload : P

-- What the recorder and the state hook are called with.
pub data Recorded (F : Type 0) : Type 0 where
  recorded_share : ShareEvent F → Recorded F
  recorded_block : BlockEvent F → Recorded F
  state_changed : Change → ℕ → Recorded F

module _ (region node_id : Str) where
  abbrev pub state_msg : Change → ℕ → StateChangeMsg
  state_msg change now = record {
    pool_id = change.pool_id;
    region = region;
    node_id = node_id;
    from = text_of change.from;
    to = text_of change.to;
    reason = change.reason;
    created = now;
  }

module _ {F : Type 0} (region node_id : Str) where
  abbrev pub share_msg : ShareEvent F → ShareEventMsg F
  share_msg ev = record {
    pool_id = ev.pool_id;
    region = region;
    block_height = ev.block_height;
    share_diff = ev.share_diff;
    worker_diff = ev.worker_diff;
    network_difficulty = ev.network_difficulty;
    miner = ev.miner;
    worker = ev.worker;
    user_agent = ev.user_agent;
    ip_address = ev.ip_address;
    created = ev.created;
    is_block_candidate = ev.is_block_candidate;
  }

  abbrev pub block_msg : BlockEvent F → BlockEventMsg F
  block_msg ev = record {
    pool_id = ev.pool_id;
    region = region;
    block_height = ev.block_height;
    network_difficulty = ev.network_difficulty;
    miner = ev.miner;
    worker = ev.worker;
    hash = ev.hash;
    reward_sats = ev.reward_sats;
    created = ev.created;
  }

  unfoldable pub packet_of : {P : Type 0} → Codecs F P → Recorded F → Packet P
  unfolding share_subject block_subject state_subject
  packet_of codecs (recorded_share ev) = record {
    subject = share_subject region ev.pool_id;
    payload = codecs.shares.marshal (share_msg ev);
  }
  packet_of codecs (recorded_block ev) = record {
    subject = block_subject region ev.pool_id;
    payload = codecs.blocks.marshal (block_msg ev);
  }
  packet_of codecs (state_changed change now) = record {
    subject = state_subject region change.pool_id;
    payload = codecs.states.marshal (state_msg region node_id change now);
  }

-- The broker, with what it has confirmed; the packets that the client has queued for it and that are
-- not yet confirmed; the spool, if there is one; and the packets that the log tells to be lost.
-- A packet that is not confirmed may have reached the broker all the same.
pub record Outbox (P : Type 0) : Type 0 where
  pub broker : Consumer (Packet P)
  pub in_flight : List (Packet P)
  pub spool : Option Spool
  pub lost : List (Packet P)

-- The n-th of some packets, and the others.
unfoldable pub pick {ℓ} : {A : Type ℓ} → ℕ → List A → Option (A × List A)
pick n [] = none
pick zero (x ∷ xs) = some (x, xs)
pick (suc n) (x ∷ xs) = elim (pick n xs) [ none ↦ none | some (y, ys) ↦ some (y, x ∷ ys) ]

module _ {P : Type 0} (codec : Codec (Packet P)) where
  abbrev pub lose : Packet P → Outbox P → Outbox P
  lose r o = record o { lost = o.lost ++ r ∷ [] }

  abbrev pub after_append : Packet P → Outbox P → Spool × Result SpoolError (Unit {0}) → Outbox P
  after_append r o (sp, ok u) = record o { spool = some sp }
  after_append r o (sp, err e) = lose r (record o { spool = some sp })

  -- What both ways of failing do: the spool gets the packet, or it is lost. Without a spool the client
  -- has no hook for failures.
  unfoldable pub spool_packet : Write → Packet P → Outbox P → Outbox P
  unfolding append
  spool_packet w r o = elim o.spool [
    | none ↦ lose r o
    | some sp ↦ after_append r o (append codec w r sp)
  ]

  -- `PublishAsync` queues the packet or fails at once.
  unfoldable pub publish : Bool → Write → Packet P → Outbox P → Outbox P
  unfolding spool_packet
  publish queued w r o =
      if queued then record o { in_flight = o.in_flight ++ r ∷ [] } else spool_packet w r o

  -- What becomes of a queued packet: the broker confirms it, or the handler of failures is called.
  unfoldable pub settle : ℕ → Bool → Write → Outbox P → Outbox P
  unfolding spool_packet pick
  settle n confirmed w o = elim (pick n o.in_flight) [
    | none ↦ o
    | some (r, rest) ↦
        (if confirmed
          then record o {
            in_flight = rest;
            broker = record (o.broker) { delivered = o.broker.delivered ++ r ∷ [] };
          }
          else spool_packet w r (record o { in_flight = rest }))
  ]

  -- The error of a flush is only logged.
  unfoldable pub flush_spool : Rewrite → Outbox P → Outbox P
  unfolding drain
  flush_spool rewrite o = elim o.spool [
    | none ↦ o
    | some sp ↦
        (let after = (drain codec rewrite take_one o.broker sp).0 in
          record o { broker = after.0; spool = some after.1 })
  ]

  -- The events that are published, what becomes of those that are queued, and the rounds of the drain
  -- loop, in any order.
  pub data Act : Type 0 where
    publish_one : Bool → Write → Packet P → Act
    settled : ℕ → Bool → Write → Act
    flush : Rewrite → Act

  unfoldable pub act : Act → Outbox P → Outbox P
  unfolding publish settle flush_spool
  act (publish_one queued w r) o = publish queued w r o
  act (settled n confirmed w) o = settle n confirmed w o
  act (flush rewrite) o = flush_spool rewrite o

  unfoldable pub act_all : List Act → Outbox P → Outbox P
  act_all [] o = o
  act_all (a ∷ rest) o = act_all rest (act a o)
