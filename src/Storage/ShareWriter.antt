-- ===== src/Storage/ShareWriter.antt =====
-- internal/storage/postgres/sharewriter.go and sharewal.go: accepted shares on their way to the
-- table. The write-ahead log is the queue that Spool/Runs shows the spool to be; whether it takes a
-- record is an argument, and so is what becomes of each database call. Random ids and partitions are
-- left out.
mod Tests
pub mod Rows
pub mod Laws
pub mod Durable
pub mod Recovery
use icminers_stratum_v.Prelude.{
  ℕ, ◌+◌, ◌-◌, List, [], ◌∷◌, ◌++◌, Bool, true, false, ltb, leb, ◌==◌, if◌then◌else◌, length, take,
  drop, Option, none, some, Str, Eq, ◌&&◌, arith, str_eq, list_beq, list_beq_iff,
}
use icminers_stratum_v.Spool.{commit_batches, Rewrite, replaced, kept, not_reopened}
use icminers_stratum_v.Payouts.{Call, answered, failed_before, failed_after}

pub record ShareRecord (F : Type 0) : Type 0 where
  pub id : Str
  pub pool_id : Str
  pub block_height : ℕ
  pub difficulty : F
  pub network_difficulty : F
  pub miner : Str
  pub worker : Str
  pub user_agent : Str
  pub ip_address : Str
  pub source : Str
  pub created : ℕ

-- The columns of the table's unique index.
abbrev pub ShareKey : Type 0
ShareKey = Str × ℕ

instance abbrev pub share_key_eq : Eq ShareKey
share_key_eq = record {
  beq = λ a b. list_beq a.0 b.0 && a.1 == b.1;
  beq_iff = λ a b. ground (arith, list_beq_iff a.0 b.0);
}

pub record WriterOptions : Type 0 where
  pub queue_size : ℕ
  pub batch_size : ℕ

-- An option that is not positive is 0.
unfoldable pub writer_defaults : WriterOptions → WriterOptions
writer_defaults o = record {
  queue_size = if leb o.queue_size 0 then 65536 else o.queue_size;
  batch_size = if leb o.batch_size 0 then 500 else o.batch_size;
}

abbrev pub max_retained_shares : ℕ
max_retained_shares = 250000

abbrev pub wal_drain_batch_size : ℕ
wal_drain_batch_size = 1000

module _ {F : Type 0} where
  abbrev pub key_of : ShareRecord F → ShareKey
  key_of r = (r.id, r.created)

  unfoldable pub has_key : ShareKey → List (ShareRecord F) → Bool
  has_key k [] = false
  has_key k (r ∷ rs) = if share_key_eq.beq (key_of r) k then true else has_key k rs

  -- The unique index leaves out empty ids.
  unfoldable pub clashes : ShareRecord F → List (ShareRecord F) → Bool
  unfolding has_key
  clashes r rows = if leb (length r.id) 0 then false else has_key (key_of r) rows

  -- COPY: a row that is there already fails the whole statement.
  unfoldable pub copy_rows :
      List (ShareRecord F) → List (ShareRecord F) → Option (List (ShareRecord F))
  unfolding clashes
  copy_rows [] rows = some rows
  copy_rows (r ∷ rs) rows =
      let rest = copy_rows rs (r ∷ rows) in if clashes r rows then none else rest

  -- INSERT … ON CONFLICT DO NOTHING.
  unfoldable pub insert_new : List (ShareRecord F) → List (ShareRecord F) → List (ShareRecord F)
  unfolding clashes
  insert_new [] rows = rows
  insert_new (r ∷ rs) rows = insert_new rs (if clashes r rows then rows else r ∷ rows)

  -- What a call leaves in the table, and whether it reports success.
  unfoldable pub outcome :
      Call → List (ShareRecord F) → Option (List (ShareRecord F)) → List (ShareRecord F) × Bool
  outcome c rows none = (rows, false)
  outcome answered rows (some new) = (new, true)
  outcome failed_before rows (some new) = (rows, false)
  outcome failed_after rows (some new) = (new, false)

  unfoldable pub copy_shares :
      Call → List (ShareRecord F) → List (ShareRecord F) → List (ShareRecord F) × Bool
  unfolding outcome copy_rows
  copy_shares c rs rows = outcome c rows (copy_rows rs rows)

  unfoldable pub copy_shares_idempotent :
      Call → List (ShareRecord F) → List (ShareRecord F) → List (ShareRecord F) × Bool
  unfolding outcome insert_new
  copy_shares_idempotent c rs rows = outcome c rows (some (insert_new rs rows))

-- The writer and the table; a log is there if it is configured. The lists have the oldest first.
pub record Writer (F : Type 0) : Type 0 where
  pub opts : WriterOptions
  pub queue : List (ShareRecord F)
  pub batch : List (ShareRecord F)
  pub pending : List (ShareRecord F)
  pub wal : Option (List (ShareRecord F))
  pub rows : List (ShareRecord F)
  pub dropped : ℕ
  pub written : ℕ
  pub to_wal : ℕ

-- What the log's file answers to a drain: the scanner or the opening fails, or it is read and then
-- rewritten in one of the three ways.
pub data LogFile : Type 0 where
  unreadable : LogFile
  readable : Rewrite → LogFile

module _ {F : Type 0} where
  unfoldable pub new_writer : WriterOptions → Bool → Writer F
  unfolding writer_defaults
  new_writer opts with_wal = record {
    opts = writer_defaults opts;
    queue = [];
    batch = [];
    pending = [];
    wal = if with_wal then some [] else none;
    rows = [];
    dropped = 0;
    written = 0;
    to_wal = 0;
  }

  -- The log takes the record, or it is dropped and counted.
  unfoldable pub divert : Bool → ShareRecord F → Writer F → Writer F
  divert accepts r w = elim w.wal [
    | none ↦ record w { dropped = w.dropped + 1 }
    | some log ↦
        if accepts
        then record w { wal = some (log ++ (r ∷ [])); to_wal = w.to_wal + 1 }
        else record w { dropped = w.dropped + 1 }
  ]

  unfoldable pub enqueue : Bool → ShareRecord F → Writer F → Writer F
  unfolding divert
  enqueue accepts r w =
      if ltb (length w.queue) w.opts.queue_size
      then record w { queue = w.queue ++ (r ∷ []) }
      else divert accepts r w

  unfoldable pub divert_all : (ShareRecord F → Bool) → List (ShareRecord F) → Writer F → Writer F
  unfolding divert
  divert_all accepts [] w = w
  divert_all accepts (r ∷ rs) w = divert_all accepts rs (divert (accepts r) r w)

  -- The shares that are too many for the memory are the oldest.
  unfoldable pub retain : (ShareRecord F → Bool) → List (ShareRecord F) → Writer F → Writer F
  unfolding divert_all
  retain accepts rs w =
      let all = w.pending ++ rs in
      let over = length all - max_retained_shares in
      divert_all accepts (take over all) (record w { pending = drop over all })

  unfoldable pub after_copy :
      (ShareRecord F → Bool)
      → List (ShareRecord F)
      → List (ShareRecord F) × Bool
      → Writer F
      → Writer F
  unfolding retain
  after_copy accepts rs (rows, true) w = record w { rows = rows; written = w.written + length rs }
  after_copy accepts rs (rows, false) w = retain accepts rs (record w { rows = rows })

  unfoldable pub flush : Call → (ShareRecord F → Bool) → Writer F → Writer F
  unfolding after_copy copy_shares copy_shares_idempotent
  flush c accepts w =
      let to_write = w.pending ++ w.batch in
      let emptied = record w { pending = []; batch = [] } in
      if leb (length to_write) 0
      then w
      else after_copy accepts to_write
          (if ltb 0 (length w.pending)
            then copy_shares_idempotent c to_write w.rows
            else copy_shares c to_write w.rows)
          emptied

  -- The loop takes one share off the queue.
  unfoldable pub receive_from :
      Call → (ShareRecord F → Bool) → List (ShareRecord F) → Writer F → Writer F
  unfolding flush
  receive_from c accepts [] w = w
  receive_from c accepts (r ∷ rs) w =
      let taken = record w { queue = rs; batch = w.batch ++ (r ∷ []) } in
      let flushed = flush c accepts taken in
      if leb taken.opts.batch_size (length taken.batch) then flushed else taken

  unfoldable pub receive : Call → (ShareRecord F → Bool) → Writer F → Writer F
  unfolding receive_from
  receive c accepts w = receive_from c accepts w.queue w

  -- One batch of the log inserted; the calls to come are the consumer's state.
  unfoldable pub insert_batch :
      List (ShareRecord F) × List Call
      → List (ShareRecord F)
      → (List (ShareRecord F) × List Call) × Bool
  unfolding copy_shares_idempotent
  insert_batch (rows, []) rs = ((rows, []), false)
  insert_batch (rows, c ∷ cs) rs =
      let done = copy_shares_idempotent c rs rows in ((done.0, cs), done.1)

  -- What is left of the log by the rewrite that follows the commits.
  abbrev pub log_after :
      Rewrite → List (ShareRecord F) → List (ShareRecord F) → List (ShareRecord F)
  log_after replaced log rest = rest
  log_after kept log rest = log
  log_after not_reopened log rest = rest

  -- The batches of the log that the table takes leave it, unless the rewrite fails; nothing happens
  -- to a log that cannot be read.
  unfoldable pub recover_from :
      LogFile → List Call → Option (List (ShareRecord F)) → Writer F → Writer F
  unfolding insert_batch commit_batches
  recover_from file calls none w = w
  recover_from unreadable calls (some log) w = w
  recover_from (readable rewrite) calls (some log) w =
      let end = commit_batches (length log) wal_drain_batch_size insert_batch (w.rows, calls) log in
      record w { rows = end.0.0; wal = some (log_after rewrite log end.1.0) }

  -- One round of the recovery loop.
  unfoldable pub recover : LogFile → List Call → Writer F → Writer F
  unfolding recover_from
  recover file calls w = recover_from file calls w.wal w

  -- The loop's end: the rest of the queue and a last plain COPY. What it fails to write is only
  -- logged.
  unfoldable pub final_flush : Call → Writer F → Writer F
  unfolding copy_shares
  final_flush c w =
      let to_write = w.pending ++ (w.batch ++ w.queue) in
      let done = copy_shares c to_write w.rows in
      let emptied = record w { queue = []; batch = []; pending = []; rows = done.0 } in
      if done.1 then record emptied { written = w.written + length to_write } else emptied

  -- `Close`: the loop ends, then the log is drained once more.
  unfoldable pub close : Call → LogFile → List Call → Writer F → Writer F
  unfolding final_flush recover
  close c file calls w = recover file calls (final_flush c w)
