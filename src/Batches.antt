-- ===== src/Batches.antt =====
-- Write batches: rocksdb_batch_* of binding.cc, less the asynchronous write.
pub mod Calls
pub mod Replay
use rocksdb_ts.Prelude.{◌==◌, ◌%◌, if◌then◌else◌}
use rocksdb_ts.Host.{Host, Address, Finalizer, Encoding, utf8, latin1}
use rocksdb_ts.Machine.{database, batch, native, Slice, M, pure, ◌>>=◌, ◌>>◌, Method}
use rocksdb_ts.Machine.Effects.{
  new, expect, delete_native, load_write_options, read_slice, library, library_do,
}
use rocksdb_ts.Machine.Macros.{
  napi_argv, from_external_argument, uint64_argument, slice_from_buffer_argument,
  slice_from_string_argument, slice_from_string_argument_release, rocksdb_status_throws,
  return_external, return_undefined,
}

module _ ⦃h : Host⦄ where
  unfoldable pub delete_batch : Address → M (Unit {0})
  unfolding library_do delete_native
  delete_batch p = delete_native batch p >> library_do (λ m. h.rocks.delete_batch p)

  unfoldable pub rocksdb_batch_finalize : Address → M (Unit {0})
  unfolding delete_batch
  rocksdb_batch_finalize p = if p == 0 then pure tt else delete_batch p

  unfoldable pub rocksdb_batch_init : Method
  unfolding new library_do
  rocksdb_batch_init info = do
    p ← new (native batch)
    library_do (λ m. h.rocks.new_batch p)
    return_external p Finalizer.rocksdb_batch_finalize 0

  -- The casts to `size_t` wrap.
  unfoldable pub rocksdb_batch_init_ex : Method
  unfolding napi_argv uint64_argument new library_do
  rocksdb_batch_init_ex info = do
    argv ← napi_argv 2 info
    reserved_bytes ← uint64_argument (argv 0)
    max_bytes ← uint64_argument (argv 1)
    p ← new (native batch)
    library_do
        (λ m. h.rocks.new_batch_sized (reserved_bytes % h.size_mod) (max_bytes % h.size_mod) p)
    return_external p Finalizer.rocksdb_batch_finalize 0

  -- `batch->Put(key, value)`
  unfoldable pub put_in_batch : Address → Slice → Slice → M h.rocks.Status
  unfolding expect library
  put_in_batch p key value = do
    expect batch p
    k ← read_slice key
    v ← read_slice value
    library (λ m. h.rocks.batch_put p k v)

  -- `batch->Delete(key)`
  unfoldable pub delete_in_batch : Address → Slice → M h.rocks.Status
  unfolding expect library
  delete_in_batch p key = do
    expect batch p
    k ← read_slice key
    library (λ m. h.rocks.batch_delete p k)

  unfoldable pub rocksdb_batch_put : Method
  unfolding napi_argv from_external_argument
  rocksdb_batch_put info = do
    argv ← napi_argv 3 info
    p ← from_external_argument (argv 0)
    key ← slice_from_buffer_argument (argv 1)
    value ← slice_from_buffer_argument (argv 2)
    status ← put_in_batch p key value
    rocksdb_status_throws status
    return_undefined

  -- The body that the two string variants share.
  unfoldable pub rocksdb_batch_put_string : Encoding → Method
  unfolding napi_argv from_external_argument
  rocksdb_batch_put_string enc info = do
    argv ← napi_argv 3 info
    p ← from_external_argument (argv 0)
    key ← slice_from_string_argument enc (argv 1)
    value ← slice_from_string_argument enc (argv 2)
    status ← put_in_batch p key value
    slice_from_string_argument_release key
    slice_from_string_argument_release value
    rocksdb_status_throws status
    return_undefined

  unfoldable pub rocksdb_batch_put_utf8 : Method
  unfolding rocksdb_batch_put_string
  rocksdb_batch_put_utf8 = rocksdb_batch_put_string utf8

  unfoldable pub rocksdb_batch_put_latin1 : Method
  unfolding rocksdb_batch_put_string
  rocksdb_batch_put_latin1 = rocksdb_batch_put_string latin1

  unfoldable pub rocksdb_batch_delete : Method
  unfolding napi_argv from_external_argument
  rocksdb_batch_delete info = do
    argv ← napi_argv 2 info
    p ← from_external_argument (argv 0)
    key ← slice_from_buffer_argument (argv 1)
    status ← delete_in_batch p key
    rocksdb_status_throws status
    return_undefined

  unfoldable pub rocksdb_batch_delete_utf8 : Method
  unfolding napi_argv from_external_argument
  rocksdb_batch_delete_utf8 info = do
    argv ← napi_argv 2 info
    p ← from_external_argument (argv 0)
    key ← slice_from_string_argument utf8 (argv 1)
    status ← delete_in_batch p key
    slice_from_string_argument_release key
    rocksdb_status_throws status
    return_undefined

  -- Here the status is reported before the array is released.
  unfoldable pub rocksdb_batch_delete_latin1 : Method
  unfolding napi_argv from_external_argument
  rocksdb_batch_delete_latin1 info = do
    argv ← napi_argv 2 info
    p ← from_external_argument (argv 0)
    key ← slice_from_string_argument latin1 (argv 1)
    status ← delete_in_batch p key
    rocksdb_status_throws status
    slice_from_string_argument_release key
    return_undefined

  unfoldable pub rocksdb_batch_clear : Method
  unfolding napi_argv from_external_argument expect library_do
  rocksdb_batch_clear info = do
    argv ← napi_argv 1 info
    p ← from_external_argument (argv 0)
    expect batch p
    library_do (λ m. h.rocks.batch_clear p)
    return_undefined

  -- `db->Write(*options, batch)`
  unfoldable pub db_write : Address → Address → Address → M h.rocks.Status
  unfolding expect load_write_options library
  db_write db options p = do
    expect database db
    o ← load_write_options options
    expect batch p
    library (λ m. h.rocks.write m db o p)

  unfoldable pub rocksdb_batch_write : Method
  unfolding napi_argv from_external_argument
  rocksdb_batch_write info = do
    argv ← napi_argv 3 info
    db ← from_external_argument (argv 0)
    p ← from_external_argument (argv 1)
    options ← from_external_argument (argv 2)
    status ← db_write db options p
    rocksdb_status_throws status
    return_undefined
