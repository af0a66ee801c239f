-- ===== src/Lib.antt =====
-- A model of the mining pool server: stratum jobs and shares of bitcoin-like coins.
--
-- The parts, and how they work together. The daemon's block template is parsed and turned into a
-- mining job: a coinbase split at the extranonce, the merkle branch of the other transactions, the
-- previous hash in stratum's word order (internal/coins/bitcoinbase). One manager for each pool polls
-- for templates, numbers the jobs, announces them and remembers the latest eight (internal/jobs). A
-- miner's share names a job; the manager looks it up, refuses duplicates, and hands it to the coin's
-- adapter, which rebuilds coinbase, merkle root and header, hashes the header, and compares the hash
-- with the worker's target and with the network's; a candidate's block is assembled and submitted
-- (internal/coins/bitcoinlike, internal/stratum/vardiff). A registry holds the managers of all pools.
-- Each pool has a life cycle of its own (internal/pool): operators, the master's messages, the polling
-- loop and two timers move it between six states, which decide what the pool still accepts. A ban
-- manager counts what each address gets wrong (internal/bans). A miner's connection is a session; the
-- handler lets its shares through to the registry (internal/stratum), and a controller adjusts its
-- difficulty. Accepted shares go to a writer, which batches them for the database and falls back on a
-- log in a file, the spool (internal/storage/postgres, internal/spool). A block that the chain has
-- confirmed is split between the miners by their shares (internal/rewards); the credits, and later the
-- payouts through the daemon's wallet (internal/payouts), are transactions on the ledger's tables.
-- A pool's own address becomes the script that the coinbase pays to. In a cluster a regional node
-- publishes its events to a broker, with a spool of its own behind it, and the master consumes them
-- and publishes commands (internal/messaging/nats); an operator sends commands through the admin API
-- (internal/api). A collector keeps the live statistics (internal/stats).
--
-- Files.
--   Prelude, Prelude/*: names and lemmas that the parts share; `Result` is a Go value with an error,
--     `Dict` a Go map, `Floats` the operations of float64 and big.Float that the code applies.
--   Coins/*: internal/coins/bitcoinbase. Bytes are lists of numbers below 256; hex is hex.
--     Merkle and Target: merkle.go and target.go; VarInt, Height and Coinbase: coinbase.go;
--     Template, Notify and Block: template.go, notify.go and block.go. Each Laws child, and
--     Block/Assembly, prove what they are named for; Samples and Tests are concrete data.
--     Base58, Bech32 and Address: address.go, with the encoders that the round trips are about in
--     Base58/RoundTrip and Bech32/Regroup.
--   Vardiff/Difficulty: internal/stratum/vardiff/difficulty.go.
--   Adapter: internal/coins/bitcoinlike/adapter.go (`BuildMiningJob`, `ValidateShare`) and the types
--     of internal/coins/adapter.go; Adapter/Candidate on the block of a candidate; Adapter/Setup: its
--     `New`, those of internal/coins/btc, ltc, rxd and scash, and `NormalizeAddress`. Coins/Scash:
--     internal/coins/scash.
--   Jobs/*: internal/jobs. Manager: `Manager` and `Poll`; Submit: `SubmitShare` with the recorder's
--     events; Registry: `Registry`; Memory, Invariant, Duplicates, Repeats, Leak and Isolation hold
--     the proofs they are named for. A state is a record that each operation returns anew; what leaves
--     the manager is a list of events.
--   Pool/*: internal/pool. State: `State` and `canTransition`; Service: `Service`, whose loop is a
--     phase; Lifecycle: the manager, whose operations and events are commands. Laws and Loop hold the
--     lemmas on each command, Invariant, Isolation and Stranded what they are named for. An operation
--     on a pool is one command, as where no other overlaps it; Races has the steps in which start,
--     stop and restart may overlap.
--   Bans: internal/bans/bans.go, with Bans/Laws on the life of a ban and the table of addresses, and
--     Bans/Crowded on a full table.
--   Stratum/*: internal/stratum. Session: the session, `ExtraNonce1Allocator` and the session `Manager`;
--     Handler: `Handle` and what it calls, whose sends are a list of effects; Gate: what reaches the
--     share sink. Codec: `Reader` of protocol/codec.go, over a stream of lines, which carries what
--     bufio.Scanner keeps; Server: the admission of a connection, its read loop, `BroadcastNotify` and
--     the retarget of server.go, with Admission, Connection and LongLine. Vardiff/Controller:
--     `Controller`.
--   Messaging: internal/messaging/nats/client.go and consumer.go; Messaging/Publisher: publisher.go
--     with the handler of failed publishes; Messaging/Sink: what cmd/stratumd/main.go stores of
--     events; Delivery and Kept on what arrives.
--   Api/Admin: `requireAdmin`, `adminAction` and `adminStateReply` of internal/api/server.go.
--   Stats/Ring, Stats/Collector: internal/stats/stats.go, with Window, Sums and Bounds.
--   Spool: internal/spool/spool.go, on the bytes of the file. Queue, Drains and Runs: the queue that
--     the file stands for; Torn: a write that fails half-way.
--   Rewards/*: internal/rewards. Split: `ApplyFee` and `distribute`; Calculate: the calculators;
--     Confirm: `CheckBlock`; Processor: `Pass`.
--   Storage/*: internal/storage/postgres. Tables: the rows as a record; Ledger: the transactions that
--     move money, with Books (the promise), Laws, Refunds and Once; Blocks: the rows of blocks;
--     Work: `WorkBetween` and `WorkBackward`, with Paging; ShareWriter: `ShareWriter` and `shareWAL`,
--     with Rows, Laws, Durable and Recovery.
--   Config: internal/config/config.go, with Validate (`Validate`) and Laws.
--   Payouts: internal/payouts/payouts.go, with Books on sequences of rewards, sweeps and repairs, and
--     Refunding on a refused send.
--
-- Bounds and fuel. Machine integers are numbers with their wrap-around written out where the code can
-- reach it; the job counter's is a hypothesis of the theorems on it. The merkle loops take one round
-- for each hash and one more, the height's loop eight rounds, a job id sixteen; a drain of the spool
-- takes at most one round for each record, since a batch has at least one. The walk back over the
-- shares has a round for each row and one more. The digits of a Base58 number take at most as many
-- rounds as the number; a connection is served within a round for each line, one for each malformed
-- line that is left to it, and one more. Money is in base units, a number: an int64 that is not
-- positive is 0, and the sums of the ledger are far below 2^63.
--
-- Not modelled: SHA-256, the coins' proof-of-work hashes, JSON, the network, the SQL of the database,
-- and float64 arithmetic, all of which are parameters; log lines and metrics are left out. So are the
-- listeners and sockets, the connection to the broker, the daemon's RPC client, the public HTTP views,
-- which only read, and the wiring of the programs under cmd, apart
-- from the event sink and the recorder of cmd/stratumd.
mod Prelude
pub mod Coins
pub mod Spool
pub mod Storage
pub mod Stratum
pub mod Messaging
pub mod Api
pub mod Stats
pub mod Vardiff
pub mod Adapter
pub mod Config
pub mod Jobs
pub mod Rewards
pub mod Payouts
pub mod Pool
pub mod Bans
