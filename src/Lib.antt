-- ===== src/Lib.antt =====
-- A model of filecloud, a server and client that keep libraries of files as snapshots of immutable
-- content objects. It covers the object format that server and client share, the limits that the
-- server puts on concurrent requests, the validation and publication of a library's head, the garbage
-- collection, and the client's merge of entries and plan of a safe restore.
--
-- The parts and how they interact:
-- * Object (internal/object): identities, names, paths, timestamps, and the File, Directory and Commit
--   objects. Canonicalize decodes an object from the tokens of its JSON, checks it and encodes it
--   anew; the Verify functions accept a stored object only if it is its own canonical form and has
--   the expected identity. Object/Stream is encoding/json's Decoder with the readers of one value,
--   Object/Decode the decoders (decodeFile, decodeDirectory, decodeCommit, checkFileBudgets),
--   Object/Encode the append functions, Object/Canonical the checks, Object/Ids, Object/Names,
--   Object/Decimal and Object/Surrogates the tests of texts, and Object/Timestamp those of times,
--   with cmd/filecloud/protocol_mtime.go.
-- * Limits (internal/library/history_limits.go, head_limits.go): the two limiters, whose methods run
--   under a mutex, so that a history is a sequence of calls, and the configurations. A call of
--   tryAcquire hands out a closure over a sync.Once, which a Lease stands for.
-- * Restore (cmd/filecloud/library_restore_planner.go): the planner that overlays a path of a historic
--   snapshot on the current one. Restore/State has its state, its loaders and its records, in
--   Restore/Lookup is the search in a directory, Restore/Walk visits whole subtrees, Restore/Overlay
--   merges two nodes, Restore/Path goes down to the restored path and rebuilds the directories above
--   it, and Restore/Plan is planRestoreOverlay. It calls the loader, VerifyFile, VerifyDirectory,
--   ValidPath and canonicalDirectory through the record Environment. Its methods are actions
--   (Prelude/Action): functions from the planner to an error, or to a result and the planner behind it.
-- * Merge (cmd/filecloud/library_merge.go): the three-way merge of one directory entry, in
--   Merge/Entry, and the names of the copies that conflicts are kept under, in Merge/Names. The merge
--   of the directories below is an argument of mergeEntry here.
-- * Storage (internal/storage): the garbage collection of gc.go. Storage/Objects has the keys of objects
--   and their places on disk (objects.go), Storage/Collector the marking from the published roots,
--   Storage/Collector/Plan the walk that picks the candidates, and Storage/Collector/Sweep Collect with
--   its deletions, whose changes stay behind an error (Prelude/Effect). The Verify functions are a
--   record Verifier, which Storage/Objects/Verified fills with those of Object; the query of the roots,
--   the visits of the walk and the outcomes of the system calls are the record Surroundings.
--   Storage/Collector/Graph is the specification: what the roots reach. Storage/Heads has the tables of
--   libraries, published commits and roles, with the transactions of libraries.go as actions that a
--   rollback undoes; a transaction carries what its next statements fail with, and SQLite's one
--   writer makes a history a sequence of transactions.
-- * Head (internal/library/head.go): updateHead, and validateCandidate, which runs before the head is moved. Head/State is
--   validationState with plan, addContext and readMetadata, Head/Snapshot validateRoot, validateFile and
--   loadDirectory, and Head/Candidate validateCandidate and loadCommit. GetObject, the Verify functions
--   and SHA-256 are the record Store, the queries of roles and published commits the record History.
--   Head/Complete is the specification: when a snapshot is complete. Head/Ends and Head/Candidate/Ends
--   show that the validation ends, Head/Sound and Head/Candidate/Laws that it is right. The roles that a validation returns
--   are those that the transaction of Storage/Heads records, which Head/Update calls: updateHead behind
--   the authentication and the reading of the body. Head/Etag has the entity tags.
-- * The prelude (Prelude): the helpers that the parts share. Texts are lists of bytes
--   (Prelude/Bytes), errors are the constructors of Error (Prelude/Outcome), and a set of texts is the
--   list of its members (Prelude/Sets).
--
-- Parameters: NFC and case folding of golang.org/x/text (Unicode), SHA-256, and the tokens that
-- encoding/json finds in a text. A stream of tokens may end in an error at any point. Error messages
-- of one kind are one text where callers do not tell them apart. A time.Time is the readings of its instant
-- in UTC and in its location, with its nanoseconds. A Go int is a whole number where the
-- code only counts with it, and has 64 bits in the parsers of numbers.
--
-- Bounds of recursion: the decoders' loops are given the number of tokens that are left; a loop of
-- UTF-8 the number of bytes; the search as many steps as there are entries. The walks and the merge
-- of the planner are given one level more than the depth of its budget, since a path that is too deep
-- is refused before anything below it is looked at. resultPaths counts the levels that its own test of
-- the depth leaves. The loops of the collector are given one round more than there is
-- work on the disk: the objects, each with the references in it (Storage/Collector/Work). The queue of validateRoot is
-- given one round more than MaxTraversalContexts, since every directory in it has taken a context, and
-- the chain of commits two more than MaxCommitDepth. A model that
-- reaches a bound returns the error out_of_fuel, which the program does not have.
--
-- Not modelled: the JSON tokenizer, SQL, the file system, the merge of whole trees, the
-- sync of libraries, the rest of the HTTP handlers, authentication, and the tools. They are
-- I/O, or stand on it.

pub mod Prelude
pub mod Object
pub mod Limits
pub mod Merge
pub mod Restore
pub mod Storage
pub mod Head
