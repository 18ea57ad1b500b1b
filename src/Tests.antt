-- ===== src/Tests.antt =====
-- Runs of the definitions, and each theorem applied to concrete data.
mod Parsing
mod Files
mod Pieces
mod Films
mod Paths
mod Digests
mod Streams
mod Torrents
mod Peers
mod Handshakes
