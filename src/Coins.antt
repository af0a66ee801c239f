-- ===== src/Coins.antt =====
-- internal/coins/bitcoinbase: hashes, targets, coinbases, jobs and blocks of the bitcoin family.
pub mod Bytes
pub mod Merkle
pub mod Target
pub mod VarInt
pub mod Height
pub mod Coinbase
pub mod Template
pub mod Notify
pub mod Block
pub mod Base58
pub mod Bech32
pub mod Address
pub mod Scash
pub mod Samples
mod Tests
