-- ===== src/Messaging/Sink.antt =====
-- cmd/stratumd/main.go: what the master stores of consumed events (`natsSink`), and what a node with a
-- database stores of its own (`storageRecorder`). Ids are given behind them, where the rows are
-- written.
use icminers_stratum_v.Prelude.{ℕ, [], Str}
use icminers_stratum_v.Messaging.{Sunk, sink_share, sink_block, sink_state_change}
use icminers_stratum_v.Jobs.Submit.{ShareEvent, BlockEvent}
use icminers_stratum_v.Storage.ShareWriter.{ShareRecord}

-- The row of `InsertBlock`.
pub record BlockRecord (F : Type 0) : Type 0 where
  pub pool_id : Str
  pub block_height : ℕ
  pub network_difficulty : F
  pub miner : Str
  pub worker : Str
  pub hash : Str
  pub reward_sats : ℕ
  pub source : Str
  pub created : ℕ

-- The fields of the log line on a state change.
pub record StateLine : Type 0 where
  pub pool : Str
  pub region : Str
  pub node : Str
  pub from : Str
  pub to : Str
  pub reason : Str

-- What becomes of an event: a share for the writer, a row of a block, or a line of the log.
pub data Stored (F : Type 0) : Type 0 where
  enqueued : ShareRecord F → Stored F
  inserted : BlockRecord F → Stored F
  logged : StateLine → Stored F

module _ {F : Type 0} where
  -- The three methods of `natsSink`.
  abbrev pub nats_sink : Sunk F → Stored F
  nats_sink (sink_share ev) = enqueued (record {
    id = [];
    pool_id = ev.pool_id;
    block_height = ev.block_height;
    difficulty = ev.worker_diff;
    network_difficulty = ev.network_difficulty;
    miner = ev.miner;
    worker = ev.worker;
    user_agent = ev.user_agent;
    ip_address = ev.ip_address;
    source = ev.region;
    created = ev.created;
  })
  nats_sink (sink_block ev) = inserted (record {
    pool_id = ev.pool_id;
    block_height = ev.block_height;
    network_difficulty = ev.network_difficulty;
    miner = ev.miner;
    worker = ev.worker;
    hash = ev.hash;
    reward_sats = ev.reward_sats;
    source = ev.region;
    created = ev.created;
  })
  nats_sink (sink_state_change ev) = logged (record {
    pool = ev.pool_id;
    region = ev.region;
    node = ev.node_id;
    from = ev.from;
    to = ev.to;
    reason = ev.reason;
  })

  -- `storageRecorder.RecordShare`
  abbrev pub store_share : Str → ShareEvent F → Stored F
  store_share region ev = enqueued (record {
    id = [];
    pool_id = ev.pool_id;
    block_height = ev.block_height;
    difficulty = ev.worker_diff;
    network_difficulty = ev.network_difficulty;
    miner = ev.miner;
    worker = ev.worker;
    user_agent = ev.user_agent;
    ip_address = ev.ip_address;
    source = region;
    created = ev.created;
  })

  -- `storageRecorder.RecordBlock`
  abbrev pub store_block : Str → BlockEvent F → Stored F
  store_block region ev = inserted (record {
    pool_id = ev.pool_id;
    block_height = ev.block_height;
    network_difficulty = ev.network_difficulty;
    miner = ev.miner;
    worker = ev.worker;
    hash = ev.hash;
    reward_sats = ev.reward_sats;
    source = region;
    created = ev.created;
  })
