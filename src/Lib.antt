-- ===== src/Lib.antt =====
-- The native binding of rocksdb-ts, `binding.cc`: a Node.js module written against N-API, through
-- which JavaScript opens RocksDB databases, reads and writes records, walks iterators, fills
-- batches, takes snapshots, and sets options.
--
-- A method of the module reads its arguments, mostly externals over native objects, calls the
-- library, and makes the value that it returns. Native objects are made with `new` and freed by
-- finalizers, which the engine runs when the JavaScript value dies. A batch can also be written
-- by a worker thread, whose result settles a promise.
--
-- The parts of the model, each with its file, after `binding.cc`:
--
-- Host: what the file calls and the repository does not write: N-API and the macros of
-- napi-macros (Host/Engine), RocksDB (Host/Library, deps/rocksdb) and easylogging++
-- (Host/Logging, deps/easyloggingpp). All definitions take a host as an instance argument.
--
-- Machine: the process. Its state is the state of the engine, of the library and of the logger,
-- the heap of native objects by address, and what the engine was told of externals and
-- references. A function of binding.cc is a function from the state to an outcome: it goes on,
-- has returned NULL early, or has no defined behaviour (a dangling pointer, an uninitialised
-- variable, an array that overflows, a fatal error). Machine/Effects has `new`, `delete` and
-- reads through pointers; Machine/Macros the macros of binding.cc; Machine/Calls what good
-- arguments are; Machine/Strings the temporary arrays of strings.
--
-- Options: rocksdb_write_options_* (Options/Write), rocksdb_read_options_* (Options/Read with
-- Flags and Numbers) and rocksdb_options_* (Options/Db). The modules Fields, Bigints and Pointers
-- are about their fields, Options/Parse about options read from a text.
--
-- Slices: rocksdb_slice.
--
-- Ownership: who frees what. Sound says of a state that every object that a registered finalizer
-- will free is live and freed by no other; Tame and Steady say what a method may do to the heap:
-- objects keep their shapes, which are their classes and, of a worker, its handles. Parts, Heap,
-- Texts, Making, Finishing and Registers are about the effects and the macros, and Rules collects
-- them for a search through the text of a method; Fresh is about an object that is changed after
-- it was made, Table about the whole table of NAPI_INIT, Bounds about character arrays,
-- Finalizers, Databases and Workers about the finalizers, Process and Reaches about the process
-- as steps in any order, Lasts and Liveness about what a worker keeps until its promise is
-- settled, and Spared and Pinned about the reference on the external of a database.
--
-- Safety: calls with arguments of the declared types, and what it is for them to come to an end.
-- Steps and Parts say what a part of a method leaves of the heap, Arguments what the macros tell
-- of what they read, Texts what becomes of temporary arrays; Rules collects them for a search.
-- Options, Database, Iterators, Strings, Open and Async are about the methods, Table about the
-- whole table, and Process about calls with the values that the module itself has made.
--
-- Database: rocksdb_open, rocksdb_close, rocksdb_finalize, rocksdb_destroy and rocksdb_repair;
-- Database/Records has put, get, delete and delete_range; Database/Snapshots rocksdb_snapshot_*.
-- The modules Open, Finalize, Strings, Store, Buffers and Faults are about them.
--
-- Iterators: rocksdb_iterator_init and its finalizer, with Iterators/Moves and Iterators/Entries;
-- Iterators/Strings is about moves to a key.
--
-- Batches: rocksdb_batch_*, with Batches/Calls about the calls that fill a batch and
-- Batches/Replay about its write. Async: the classes Promise and BatchWritePromise and
-- rocksdb_batch_write_async, with Async/Start about the call, Async/Settles about the worker and
-- Async/Promises about the promise.
--
-- Logger: logger_*. Exports: the table of NAPI_INIT; Exports/Bodies is the same table by the
-- bodies that methods share.
--
-- Interface: the interface RocksBinding of src/binding.ts, and what makes a value of each of its
-- types (Interface/Values). Results has the rules by which the type of a result follows from the
-- last statement of a method, Methods the bodies, Parameters the types of the parameters, Guards
-- and Promises the promise of rocksdb_batch_write_async, and Conforms the two tables.
--
-- Experiments: PromiseWorker is the class of binding-using-embind/promise-worker.hpp over
-- node-addon-api as a parameter; Genepi and Nbind are the classes Rocksdb of
-- bindings-using-genepi/src/rocks_db/objects.cpp and bindings-using-nbind/hello.cc, with the
-- lives of their objects in Lifetimes. The build of the module uses none of them.
--
-- Demo: a small host at which everything runs, with its engine (Demo/Engine) and its library
-- (Demo/Store). Tests: states and calls of it.
--
-- An address is a natural number, 0 for a null pointer; `new` never gives one twice, and gives
-- one always: the exhaustion of memory is not modelled. Sizes are natural numbers where the
-- library or the engine gives them; the increment of a `size_t` and the casts to it wrap at
-- `size_mod`. The copying of a string writes what the engine says it writes and a final zero, and
-- overflows an array that has no room for them; the array has the size that the macro computes.
-- There are no loops in the file and so no fuel.
--
-- Methods whose bodies differ only in a field, an encoding or a call of the library share a
-- definition, which stands for the body of each. Where the column family is the default one, the
-- field of Rocks stands for the call together with `DefaultColumnFamily()`. A call of N-API gives
-- `none` for every status but napi_ok. Texts of exceptions are bytes up to the first zero, as a
-- `char *` shows them.
--
-- Not modelled: the texts of the comments that log, which the source comments out; the
-- registration of the module with Node; the vendored libraries; src/main.ts; the macros that
-- export the classes of the experiments, and bindings-using-ffi, which is a script.
pub mod Prelude
pub mod Host
pub mod Interface
pub mod Machine
pub mod Options
pub mod Slices
pub mod Logger
pub mod Database
pub mod Iterators
pub mod Batches
pub mod Async
pub mod Ownership
pub mod Safety
pub mod Exports
pub mod Experiments
mod Demo
mod Tests
