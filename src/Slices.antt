-- ===== src/Slices.antt =====
-- rocksdb::Slice objects over the memory of JavaScript buffers: rocksdb_slice of binding.cc.
use rocksdb_ts.Prelude.{◌==◌, if◌then◌else◌}
use rocksdb_ts.Host.{Host, Address, Finalizer}
use rocksdb_ts.Machine.{slice_cell, M, pure, ◌>>=◌, Method}
use rocksdb_ts.Machine.Effects.{new, delete_slice}
use rocksdb_ts.Machine.Macros.{napi_argv, slice_from_buffer_argument, return_external}

module _ ⦃h : Host⦄ where
  unfoldable pub rocksdb_slice_finalize : Address → M (Unit {0})
  unfolding delete_slice
  rocksdb_slice_finalize p = if p == 0 then pure tt else delete_slice p

  unfoldable pub rocksdb_slice : Method
  unfolding napi_argv new
  rocksdb_slice info = do
    argv ← napi_argv 1 info
    x ← slice_from_buffer_argument (argv 0)
    p ← new (slice_cell x)
    return_external p Finalizer.rocksdb_slice_finalize 0
