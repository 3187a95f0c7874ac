-- ===== src/Options/Db.antt =====
-- rocksdb::Options objects: rocksdb_options_* of binding.cc.
use rocksdb_ts.Prelude.{◌==◌, if◌then◌else◌}
use rocksdb_ts.Host.{Host, Address, Finalizer}
use rocksdb_ts.Machine.{options, native, M, pure, ◌>>=◌, ◌>>◌, Method}
use rocksdb_ts.Machine.Effects.{new, delete_native, read_slice, library, library_do}
use rocksdb_ts.Machine.Macros.{
  napi_argv, slice_from_buffer_argument, rocksdb_status_throws, return_external,
}

module _ ⦃h : Host⦄ where
  unfoldable pub delete_options : Address → M (Unit {0})
  unfolding library_do delete_native
  delete_options p = delete_native options p >> library_do (λ m. h.rocks.delete_options p)

  unfoldable pub rocksdb_options_finalize : Address → M (Unit {0})
  unfolding delete_options
  rocksdb_options_finalize p = if p == 0 then pure tt else delete_options p

  -- `new rocksdb::Options()`
  unfoldable pub new_options : M Address
  unfolding new library_do
  new_options = do p ← new (native options); library_do (λ m. h.rocks.new_options p); pure p

  unfoldable pub rocksdb_options_init : Method
  rocksdb_options_init info = do
    p ← new_options
    return_external p Finalizer.rocksdb_options_finalize 0

  -- A string that the library cannot parse raises an exception, and the method goes on.
  unfoldable pub rocksdb_options_init_from_buffer : Method
  unfolding napi_argv library
  rocksdb_options_init_from_buffer info = do
    argv ← napi_argv 1 info
    x ← slice_from_buffer_argument (argv 0)
    options_string ← read_slice x
    p ← new_options
    status ← library (λ m. h.rocks.db_options_from_string p options_string p)
    rocksdb_status_throws status
    return_external p Finalizer.rocksdb_options_finalize 0
