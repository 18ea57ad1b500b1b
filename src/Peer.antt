-- ===== src/Peer.antt =====
-- core/peer.c: the connection to one peer, one module per direction.
pub mod Send
pub mod Sent
pub mod Frames
pub mod Whole
pub mod Requests
pub mod Messages
pub mod Framing
pub mod Switch
pub mod Admission
pub mod Buffer
pub mod Received
pub mod Dropped
pub mod Loop
pub mod Encrypted
