-- ===== src/Host.antt =====
-- What the binding calls and does not implement: the N-API runtime (with the macros of the package
-- napi-macros), the RocksDB library of deps/rocksdb and the logging library of deps/easyloggingpp.
-- All are parameters of the model.
pub mod Engine
pub mod Library
pub mod Logging
use rocksdb_ts.Prelude.{ℕ}
pub use Engine.{Napi, Address, Bytes, Control, return_null, proceed, Encoding, utf8, latin1}
pub use Engine.{
  Finalizer, rocksdb_slice_finalize, rocksdb_write_options_finalize, rocksdb_options_finalize,
  rocksdb_finalize, rocksdb_iterator_finalize, rocksdb_batch_finalize,
  rocksdb_batch_write_async_finalize, rocksdb_snapshot_finalize, rocksdb_read_options_finalize,
}
pub use Logging.{Logging as LoggingLibrary}
pub use Library.{Rocks, WriteOptions, ReadOptions, Memory}

-- `size_mod` is 2 to the width of `size_t`.
pub record Host : Type 1 where
  pub napi : Napi
  pub rocks : Rocks
  pub logging : LoggingLibrary
  pub size_mod : ℕ
