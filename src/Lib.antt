-- ===== src/Lib.antt =====
-- Zebulon is a language for text worlds: a compiler (crates/zeb-frontend, crates/zebc) and a runtime
-- (crates/zeb-runtime) that compiled games are linked with. This library models parts of the runtime.
--
-- A game runs on a worker thread. While it runs a turn it changes relations between entities, writes
-- output, and appends events to a stream; when it needs input it suspends, and the host takes the
-- output and the events, assembles a reply, and resumes it. If a turn fails, the relations are put
-- back from the journal of the turn. At a command boundary the host may also ask for a world image.
--
-- * Relations (crates/zeb-runtime/src/relations.rs): `Table` has the state and the changes to the two
--   maps of a table, `Query`, `Update`, `Revert` and `Walk` the methods of `Relations`, under their
--   names. `Rows`, `Partners`, `Steps`, `Undo`, `Free`, `Displace`, `Set`, `Turn`, `Create` and `Reach`
--   have the invariants and their proofs, `Over`, `Declared` and `Native` a turn that declares tables:
--   a native entry calls `ensure` or `ensure_labelled` before it changes a row, and no delta records
--   these.
-- * Session (crates/zeb-runtime/src/session.rs): `State` has `Shared` and the map of sessions, `Events`
--   the event stream, `Replies` what the host assembles, `Transport` the other calls. `Records` and
--   `Stream` read the stream as a list of records, `Bounds` has the bound of a packet for a call on one
--   session, `Channel` the calls on all of them, `Exchange` what passes from the host to the worker,
--   `Transfer` a save or a restore from its start to its end.
-- * Output (crates/zeb-runtime/src/output.rs): the output of one command.
-- * Save (crates/zeb-runtime/src/save.rs): the `Writer` and the `Reader` of a world image, and in
--   `Save/RoundTrip` that they fit together.
-- * Sort (crates/zeb-runtime/src/sort.rs): the state machine of the quicksort that suspends at each
--   comparison. Its elements are any state with an `exchange` that may fail, a parameter as in the code.
-- * Tables (crates/zeb-runtime/src/tables.rs, crates/zeb-frontend/src/tables.rs): the tables of a program,
--   the decoder of the runtime, in `Same` the comparison of tables, in `Install` the copy that a process
--   has, and in `Writer` the writer of the compiler.
-- * Objects (crates/zeb-runtime/src/objects.rs, crates/zeb-runtime/src/objects/history.rs): the store of
--   records. `Objects` has the state, `Access` what only reads, `Destroy` the cleanup of a record with
--   all it owns, `Cycles` and `Owners` who owns what, `Fields` superclasses and promotion, `Writes` the
--   properties with their journal, `History` the journal of containers, `Turns` statics, lifetimes, the
--   end of a turn and enumeration. `Ages` and `Stale` follow the references through time, `Forest`,
--   `Purge`, `Ownership`, `Uproot`, `Grown`, `Graft`, `Climb` and `Adopted` have ownership as a forest,
--   `Kinds` and `Acyclic` the search over superclasses, `Definer` and `Terminal` the lookup and the end
--   of a store. `expect` is a fault of its own. A map is a list of entries, whose order stands for an
--   order of iteration; a `Vec` that is used as a stack has its last first.
-- * Errors (crates/zeb-runtime/src/objects.rs): `Error`, `ObjectRef` and `handle`, which all share.
--
-- A method on `&mut self` takes the state and gives a result beside the new state, also where it
-- fails. In `Relations` a map from handles is a function, where an absent entry answers as an empty
-- one does; the table of labels is an association list. Bytes and words are numbers, and a word keeps
-- its size where the code computes past it. `usize` has 64 bits.
--
-- Fuel: the walk of `last_event` runs on the length of the stream, and every round goes on by eight
-- bytes at least, so it does not run out on whole records. The walks of `Relations/Walk` take fuel as
-- an argument and answer `none` where it is spent. The loop of the sort takes fuel too, and two rounds
-- for each pending range and ten more are enough. `Store::destroy` runs on two rounds for each record
-- and one, which is enough in a forest; the walks over superclasses on one round for each record, or for
-- each record and each edge.
--
-- Not modelled: a reservation of memory that fails (`Error::Allocation`, code 6), but for the one
-- of `QuickSort::new`, which depends on the length and is a parameter; a poisoned lock (code 8),
-- and the waiting itself: `suspend` and `poll` are one round of their loops. A sum of offsets past
-- 64 bits in `last_event` does not occur in a stream of one packet. Of the store of objects, the
-- contents of texts, lists, vectors, tables, dictionaries, closures and collections, constructions
-- under way and the image of a world are not modelled; neither are world images as a whole, the
-- grammar matcher, regular expressions, and the compiler.
pub mod Prelude
pub mod Errors
pub mod Objects
pub mod Output
pub mod Relations
pub mod Save
pub mod Sort
pub mod Tables
pub mod Session
