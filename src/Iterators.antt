-- ===== src/Iterators.antt =====
-- Iterators: rocksdb_iterator_* of binding.cc.
pub mod Moves
pub mod Entries
pub mod Strings
use rocksdb_ts.Prelude.{◌==◌, if◌then◌else◌}
use rocksdb_ts.Host.{Host, Address, Finalizer, Memory}
use rocksdb_ts.Machine.{database, iterator, native, M, pure, ◌>>=◌, ◌>>◌, Method}
use rocksdb_ts.Machine.Effects.{new, expect, delete_native, load_read_options, library_do}
use rocksdb_ts.Machine.Macros.{napi_argv, from_external_argument, return_external}

module _ ⦃h : Host⦄ where
  unfoldable pub delete_iterator : Address → M (Unit {0})
  unfolding library_do delete_native
  delete_iterator p = delete_native iterator p >> library_do (λ m. h.rocks.delete_iterator p)

  unfoldable pub rocksdb_iterator_finalize : Address → M (Unit {0})
  unfolding delete_iterator
  rocksdb_iterator_finalize p = if p == 0 then pure tt else delete_iterator p

  -- `db->NewIterator(*options)`
  unfoldable pub new_iterator : Address → Address → M Address
  unfolding expect load_read_options new library_do
  new_iterator db options = do
    expect database db
    o ← load_read_options options
    p ← new (native iterator)
    library_do (λ m. h.rocks.new_iterator m db o p)
    pure p

  unfoldable pub rocksdb_iterator_init : Method
  unfolding napi_argv from_external_argument
  rocksdb_iterator_init info = do
    argv ← napi_argv 2 info
    db ← from_external_argument (argv 0)
    options ← from_external_argument (argv 1)
    p ← new_iterator db options
    return_external p Finalizer.rocksdb_iterator_finalize 0
