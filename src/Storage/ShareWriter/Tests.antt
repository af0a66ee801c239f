-- ===== src/Storage/ShareWriter/Tests.antt =====
-- A writer with a log whose queue holds one share.
use icminers_stratum_v.Prelude.{
  List, [], ◌∷◌, ◌≡◌, refl, codes, true, false, some, replicate, Str, list_beq,
}
use icminers_stratum_v.Storage.ShareWriter.{
  share_key_eq, ShareRecord, Writer, ShareKey, recover, has_key, new_writer, answered, final_flush,
  receive, enqueue, readable, replaced, log_after, unreadable,
}
use icminers_stratum_v.Prelude.Floats.{frac, Ratio}
use icminers_stratum_v.Storage.ShareWriter.Durable.{
  is_enqueued, Event, enqueued, happen_all, received, held-happen_all, recovered, happen,
}
use icminers_stratum_v.Storage.ShareWriter.Laws.{wal_has, held}
use icminers_stratum_v.Payouts.{answered, failed_before}
use icminers_stratum_v.Storage.ShareWriter.Recovery.{recover-answered, final_flush-lost}
use icminers_stratum_v.Spool.{replaced}

abbrev share : Str → ShareRecord Ratio
share id = record {
  id = id;
  pool_id = codes "p";
  block_height = 5;
  difficulty = frac 1 1;
  network_difficulty = frac 9 1;
  miner = codes "bob";
  worker = codes "rig";
  user_agent = [];
  ip_address = [];
  source = [];
  created = 3;
}

abbrev start : Writer Ratio
start = new_writer (record { queue_size = 1; batch_size = 1 }) true

abbrev key : ShareKey
key = (codes "s1", 3)

-- The first share is written to a table that loses it, the second one finds the queue full.
abbrev events : List (Event Ratio)
events =
    enqueued true (share (codes "s1"))
    ∷ enqueued true (share (codes "s2"))
    ∷ received failed_before (λ r. true)
    ∷ recovered (readable replaced) (answered ∷ [])
    ∷ []

held-happen_all_example : held key (happen_all events start) ≡ true
unfolding is_enqueued happen_all new_writer list_beq happen recover receive enqueue
held-happen_all_example = held-happen_all key events start refl refl

abbrev logged_writer : Writer Ratio
logged_writer = record start { wal = some (share (codes "s1") ∷ []) }

recover-answered_example :
    (has_key key (share (codes "s1") ∷ []) ≡ true
      → has_key key (recover (readable replaced) (replicate 1 answered) logged_writer).rows ≡ true)
    × ((recover (readable replaced) (replicate 1 answered) logged_writer).wal
        ≡ some (log_after replaced (share (codes "s1") ∷ []) []))
    × (recover unreadable (replicate 1 answered) logged_writer ≡ logged_writer)
recover-answered_example =
    recover-answered logged_writer (share (codes "s1") ∷ []) replaced key refl

abbrev queued : Writer Ratio
queued = record start { queue = share (codes "s1") ∷ [] }

final_flush-lost_example :
    (held key (final_flush failed_before queued) ≡ false)
    × ((final_flush failed_before queued).dropped ≡ queued.dropped)
unfolding has_key wal_has new_writer
final_flush-lost_example = final_flush-lost queued key refl refl
