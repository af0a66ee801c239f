-- ===== src/Stratum.antt =====
-- internal/stratum: a miner's connection. The session's state, the requests and their answers, and
-- the sessions of a node. JSON and the network are outside: a request is what the decoder makes of a
-- line, and what is written is a list of messages.
pub mod Session
pub mod Handler
pub mod Gate
pub mod Codec
pub mod Server
mod Tests
