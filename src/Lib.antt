-- ===== src/Lib.antt =====
-- Verification of construct-core, the cryptographic core of the Konstruct messenger.
--
-- The core turns plaintext into framed, padded and encrypted messages and back. What is modelled here
-- are the parts that decide, count, parse and print: third-party primitives (hashes, ciphers,
-- signatures, serialisers) are parameters of the definitions that call them.
--
-- The files, and the code that they are about:
-- - Prelude: byte lists, little-endian words, results, tests and bit operations that all parts share.
-- - Padding (src/traffic_protection/padding.rs): `pad_message` and `unpad_message`, by their names.
-- - Wire (src/wire_payload.rs): the binary frame of a message. Wire/Leb128 has `write_leb128` and
--   `read_leb128`, Wire/Flags the flag bits of the suite id, Wire/Pack `pack_message` and `pack`,
--   Wire/Unpack `unpack`, each piece of it a function with the cursor as an argument and result.
-- - KeyTransparency (src/crypto/key_transparency.rs): the Merkle tree, `verify_inclusion_inner` and
--   the proof generator, over SHA-256 as a parameter.
-- - Cfe (src/cfe/envelope.rs, types.rs, error.rs, compat.rs): `encode`, `parse_header` and
--   `decode_as`, over the checksum and the serialiser as parameters.
-- - Knst (src/knst.rs): `frame`, `Frame::parse`, control frames and `encode_chunks`.
-- - Orchestration/SessionMachine (src/orchestration/session_machine.rs): one function per method, with
--   the clock as an argument; Lock has the runs of the machine, Maintenance what pruning and restarts
--   keep.
-- - Orchestration/SendPlan (src/orchestration/send_plan.rs): `plan_send`.
-- - Orchestration/AckStore (src/orchestration/ack_store.rs): `is_processed`, `mark_processed` and
--   `restore_cache`.
-- - Orchestration/ReorderStats (src/orchestration/reorder_stats.rs): `record_decrypted` and
--   `record_failed`.
-- - Media (src/media.rs): the padded size, `seal_with`, `open_media` and `unpad`.
-- - EnvelopeBook (src/crypto/sealed_sender/book.rs): the pairs of the sessions, how they are filed,
--   retired and pruned; Retention has its runs.
-- - Orchestration/PqPrekeyPlan (src/orchestration/pq_prekey_plan.rs and the signature checks of
--   src/crypto/kyber_prekey_auth.rs): `plan_pqxdh`; Trust has what a check means, Choice the plan.
-- - KyberPrekeys (src/crypto/kyber_prekeys.rs): the prekey store, with the key generator's result as an
--   argument; Burned has its runs.
-- - History (src/history/mod.rs): record types and failures. History/Wire (src/history/wire.rs): the
--   protobuf field walk. History/Order, Writer, MediaHead and Reader (src/history/cth1.rs): the record
--   order, the writer, `media_head` and the incremental reader, one function per state; `step` is one
--   turn of the loop of `push`. History/Frames and Verify (src/history/frames.rs): the handshake frames
--   and their checks. History/Channel (src/history/channel.rs): the sealed chunks.
--
-- Bytes, words and lengths are numbers. A word keeps its range as a hypothesis or its wrap-around
-- written out; lengths do not wrap, since no buffer of the code comes near 2 ^ 64 bytes.
--
-- Fuel: the loops of LEB128 take five rounds, as many as a `u32` has groups. The Merkle tree recurses
-- on slices that are strictly shorter, so the number of leaves is enough, which the theorems about
-- `split` show.
-- The walk over fields has a round for each byte, and `push` two for each byte and one more: a field
-- and a turn of the reader take a byte, except for the turn that leaves a media head.
--
-- Not modelled: key agreement and the ratchet, which are calls of third-party primitives; the local store
-- (SQLite) and groups (OpenMLS); bindings and tests; nor the session of a history
-- transfer, the router and the orchestrator, social recovery and intake credentials.
pub mod Cfe
pub mod EnvelopeBook
pub mod History
pub mod KeyTransparency
pub mod Knst
pub mod KyberPrekeys
pub mod Media
pub mod Orchestration
pub mod Padding
pub mod Prelude
pub mod Wire
