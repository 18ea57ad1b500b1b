-- ===== src/Piece.antt =====
-- core/piece.c: the piece manager, one module per part, and the proofs about them.
pub mod Bitfield
pub mod State
pub mod HashQueue
pub mod Blocks
pub mod Verify
pub mod Pick
pub mod Create
pub mod Totals
pub mod Valid
pub mod Keep
pub mod Ring
pub mod KeepHash
pub mod Enqueue
pub mod KeepAll
pub mod GotBlock
pub mod KeepCheck
pub mod Apart
pub mod Verdicts
pub mod Drain
pub mod Flush
pub mod Run
pub mod Fresh
pub mod Head
pub mod Parsed
