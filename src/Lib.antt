-- ===== src/Lib.antt =====
-- Mist shares a directory tree of a Linux guest with a macOS host. The guest's daemon (crates/mistd)
-- walks the tree and journals its changes; the messages of crates/mist-proto carry them over framed
-- streams (crates/mist-transport) to the host's daemon (crates/mist-hostd), which keeps a replica of
-- the tree in memory (crates/mist-replica) and serves it over NFS (crates/mist-nfs), with file
-- contents in a store (crates/mist-cas).
--
-- This library models the parts of that path that compute: the guest's journal is cut into batches,
-- what arrives is decoded and validated, is applied to the replica, and is read back by NFS calls
-- that are parsed, whose handles are checked, and whose retries are answered from the sessions' slots;
-- contents are kept in the store and evicted; conflicting changes of the two sides are noted.
--
-- Files:
--   Prelude          tests on numbers and bytes, lists, results, association lists
--   Bytes            to_le_bytes, to_be_bytes and their inverses
--   Proto            crates/mist-proto/src: caps.rs (Caps), validate.rs (Validate), types.rs (Types,
--                    Keys), frame.rs (Frame), msg.rs (Msg), codec.rs (Codec); each function has its
--                    name, and `validate` of a type has the type's name behind it
--   Nfs              crates/mist-nfs/src: xdr.rs (Xdr.Writer, Xdr.Reader), rpc.rs (Rpc), handle.rs
--                    (Handle), nfs41/state.rs (Nfs41.State), COMPOUND and SEQUENCE of nfs41/mod.rs
--                    (Nfs41.Compound), its stateids and wire helpers (Nfs41.Stateids)
--   Replica          crates/mist-replica/src/lib.rs: DirState (Dir), Node (Node), the state of
--                    ShareReplica and its operations on one node (Share), link counts and removals
--                    (Links), snapshots and journal records (Apply), the read side (Read)
--   Replica/Keeps    the invariant that all directories are well formed, over every operation
--   Cas              crates/mist-cas/src/lib.rs: data and victims of an eviction (Store), blobs (Blobs),
--                    manifests (Manifests), batches, scrub and clear (Batch); the other files below it
--                    hold proofs
--   Mistd/Journal    crates/mistd/src/linux/journal.rs: the batcher over the signals its thread sees
--   Hostd/Conflicts  crates/mist-hostd/src/conflicts.rs: the tracker; its specification by the whole
--                    history of calls is in Hostd/Conflicts/Spec
--   Replica/Hashing  hashbrown's HashTable and the seeded hashes, as a record of operations and laws
--   Tests            concrete inputs
--
-- Numbers are natural numbers; a width is written out where the code wraps or casts, and additions
-- wrap as in a build without overflow checks. A method that changes its object returns the new one.
-- Errors are results of the model's own type or options. Shards are a function from their index to
-- a map, read as empty at an index out of range; a lock is held for one state change, so an
-- operation is the sequence of its critical sections and no other operation comes between them.
-- Clocks, random numbers, and what the file system and the database answer are arguments of a call,
-- among them which files cannot be opened, read, written or removed; a database transaction that
-- fails changes no table, and one that reads a table sees all its rows (the code skips a row that
-- cannot be read). The maps of the NFSv4.1 state stand behind one lock each, and a call is taken as
-- one state change. Indices out of range in a directory's table, where Rust panics, give a dead
-- entry. `next_cookie` is not cut to 64 bits: that takes 2^64 new entries in one directory. The
-- bytes of a name that `readdir` reads back are not checked again (`Name::new(..).expect(..)`
-- there): names are checked on decode. The proofs on directories assume that a directory's names
-- and entries fit the 32-bit offsets that the code casts them to.
--
-- Bounds and fuel: `link_dec` and `remove_node` call one another; a removal takes a node out, so the
-- number of stored nodes is enough rounds (Replica/Links/Fuel). `path_of` has the code's own bound of
-- 512 steps. The padding loop of XDR has at most 3 rounds and is given 4. The batcher takes a
-- signal in each round, so the number of signals is enough. All else is structural.
--
-- Parameters: hashbrown and the hashes (Hashing), blake3 (Handle, Cas/Store), postcard (Codec,
-- Cas/Store), redb (Cas/Table). Nfs41/Compound takes the evaluation of the operations other than
-- SEQUENCE (`eval_op`) as an argument: its theorems hold for every such evaluation.
--
-- Not modelled: the asynchronous servers, streams and connections, file and system calls, the NFS
-- procedures and the operations inside a COMPOUND, the durability of the content store's commits, and
-- the joining of a path's components to text.
pub mod Prelude
pub mod Bytes
pub mod Proto
pub mod Nfs
pub mod Replica
pub mod Cas
pub mod Mistd
pub mod Hostd
pub mod Tests
