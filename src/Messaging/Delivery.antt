-- ===== src/Messaging/Delivery.antt =====
-- What a region publishes, and what the master makes of it.
use icminers_stratum_v.Prelude.{◌≡◌, refl, some, none, Option, Str}
use icminers_stratum_v.Pool.State.{text_of}
use icminers_stratum_v.Messaging.Publisher.{
  Recorded, packet_of, recorded_share, share_msg, recorded_block, block_msg, state_changed,
  state_msg, Packet,
}
use icminers_stratum_v.Messaging.{
  handle_message, Codecs, ShareEventMsg, BlockEventMsg, StateChangeMsg,
}
use icminers_stratum_v.Messaging.Sink.{Stored, nats_sink, store_share, store_block, logged}

-- A payload is read as what it was written from.
pub record IsRead {F P : Type 0} (codecs : Codecs F P) : Type 0 where
  pub shares_read :
      (m : ShareEventMsg F) → codecs.shares.unmarshal (codecs.shares.marshal m) ≡ some m
  pub blocks_read :
      (m : BlockEventMsg F) → codecs.blocks.unmarshal (codecs.blocks.marshal m) ≡ some m
  pub states_read :
      (m : StateChangeMsg) → codecs.states.unmarshal (codecs.states.marshal m) ≡ some m

module _ {F P : Type 0} (codecs : Codecs F P) where
  -- The master's way from a message to what it stores.
  unfoldable pub stored_by_master : Packet P → Option (Stored F)
  unfolding handle_message
  stored_by_master p = elim (handle_message codecs p.subject p.payload) [
    | none ↦ none
    | some call ↦ some (nats_sink call)
  ]

module _ {F : Type 0} (region node_id : Str) where
  -- What a node with a database of its own stores of a share or a block, and the line that tells a
  -- state change.
  abbrev pub stored_here : Recorded F → Stored F
  stored_here (recorded_share ev) = store_share region ev
  stored_here (recorded_block ev) = store_block region ev
  stored_here (state_changed change now) = logged (record {
    pool = change.pool_id;
    region = region;
    node = node_id;
    from = text_of change.from;
    to = text_of change.to;
    reason = change.reason;
  })

module _ {F P : Type 0} (region node_id : Str) where
  -- If each payload is read as what it was written from: whatever the region, the node and the pool
  -- are called, the master stores of a share or a block that a region publishes the row, its id
  -- apart, that the region's own recorder would store, with the region as its source, and of a state
  -- change it logs pool, region, node, both states and the reason.
  pub stored_by_master-packet_of :
      (codecs : Codecs F P) (ev : Recorded F)
      → IsRead codecs
      → stored_by_master codecs (packet_of region node_id codecs ev)
        ≡ some (stored_here region node_id ev)
  unfolding stored_by_master handle_message packet_of
  stored_by_master-packet_of codecs (recorded_share ev) law =
      rw (stored_by_master, law.shares_read (share_msg region node_id ev)) refl
  stored_by_master-packet_of codecs (recorded_block ev) law =
      rw (stored_by_master, law.blocks_read (block_msg region node_id ev)) refl
  stored_by_master-packet_of codecs (state_changed change now) law =
      rw (stored_by_master, law.states_read (state_msg region node_id change now)) refl
