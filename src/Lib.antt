-- ===== src/Lib.antt =====
-- The video downloader's core: a BitTorrent client in C that streams the pieces of a torrent to
-- files and to an installer. A torrent's metainfo is bencoded (core/bencode.c); its files form one
-- flat space of bytes (core/platform_storage.c); the piece manager (core/piece.c) collects blocks
-- into pieces, lets a worker hash them and writes finished pieces to the storage. Blocks come from peers
-- (core/peer.c), whose connections may be encrypted (core/mse.c).
--
-- Prelude: tests, lists and options over native numbers, integers, the chain of Option results.
-- Bencode: core/bencode.c. A pointer pair is the list of the bytes between the two. Bencode.Grammar
--   is an independent description of the texts, as trees; Complete, Sound, Decode and Dict relate the
--   code to it. be_skip recurses on the nesting cap, BE_MAX_DEPTH + 1 levels. The item loops run on
--   fuel, one more than the bytes that are left, which suffices because each item takes a byte.
-- Storage: core/platform_storage.c from find_file to storage_flush. A file is its place in the flat
--   space, its configuration and its bytes. What the C library and the sinks answer is the parameter
--   Io. Loops run on fuel, one more than the length of the range: each round takes a byte at least. The
--   count that storage_read returns is converted to an int, as it is there.
--   The binary search runs on the number of files.
-- Metainfo: core/metainfo.c. The path test, against the paths that cannot leave their directory; Files
--   and Parse, metainfo_parse over the models of bencode.c and sha1.c. A list's items run on fuel, the
--   bytes of the list. Storage.Open and Piece.Parsed carry a parsed metainfo to the storage's files and
--   to the piece manager. Allocations are the parameter MetaOps.
-- Sha1: core/sha1.c, the portable implementation, with the words of a block read as on a little-endian
--   machine. A context's buffer starts as an arbitrary list of 64 bytes. The specification is the block
--   function over whole blocks of the padded text. The padding loop runs on 64 rounds, a block's worth.
-- Rc4, Mse: core/mse.c. The streams, the key derivation and the initiator's handshake as one function
--   from a client and its input to a client, the bytes consumed and produced, and the status. The
--   exponentiation modulo the prime is the parameter MseOps.
-- Catalog: the sort of src/app/movie_catalog.c. A size is of a parameter type with its comparison.
-- Peer: core/peer.c. Send is the send queue and framing, over a transport that accepts a part of what is
--   offered; Requests the pipeline and the ring of dropped requests; Messages the switch, whose callbacks
--   are the list of the calls made; Buffer the receive buffer and the handshake. A buffer is the list of
--   its valid bytes. Encrypted drives the handshake of core/mse.c. Sent, Frames and Whole are about
--   sending, Switch, Admission, Dropped, Loop, Framing and Received about receiving. The loop over the
--   messages, while the connection is active, runs on fuel, more than the bytes to read: each round
--   takes four bytes at least.
-- Piece: core/piece.c and the bit functions of core/util.h. State holds the manager's data, where
--   piece_order_count, buf_pool_count and num_pieces' arrays are lengths of lists, and what happens to
--   one piece; HashQueue the ring of hash jobs; Blocks arriving blocks and requests; Verify the checks
--   against the disk; Pick the choice of a piece; Create the constructor. The storage and SHA-1 are the
--   parameter PieceOps, the answers of malloc and of the thread's start the parameter System. A wait
--   for the worker is the rounds that the worker takes until the condition holds, at most as many as the
--   ring has places; its other rounds fall between the calls. Totals, Valid, Ring, Keep, KeepHash, Enqueue, KeepAll, GotBlock, KeepCheck, Fresh
--   and Run carry the invariant through every operation; Apart, Verdicts, Drain and Flush are about a
--   flush against the list of the ring's jobs, Head about the head piece.
-- Tests: runs on small data, and each result at a concrete input.
--
-- A w-bit number is a native number with its wrap-around written out where the code can wrap; sums of
-- offsets and lengths within a file's range are plain. Byte values are not bounded by their type: the
-- invariant bounds the bytes of the bitfields.
--
-- Not modelled: the building of output paths and directories (whether a file opens, and what stands in
-- it, is a parameter); the log messages; freeing; the rest of the catalog; the socket loops of the
-- peers and the extension messages they send; trackers, the DHT and the session, which stand on these
-- parts; SHA-256; vendored libraries.
pub mod Prelude
pub mod Bencode
pub mod Storage
pub mod Metainfo
pub mod Catalog
pub mod Sha1
pub mod Rc4
pub mod Mse
pub mod Peer
pub mod Piece
pub mod Tests
