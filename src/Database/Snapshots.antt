-- ===== src/Database/Snapshots.antt =====
-- Snapshots: rocksdb_snapshot_init of binding.cc and its finalizer.
use rocksdb_ts.Prelude.{◌==◌, ◌||◌, if◌then◌else◌}
use rocksdb_ts.Host.{Host, Address, Finalizer}
use rocksdb_ts.Machine.{database, snapshot, native, M, pure, ◌>>=◌, ◌>>◌, Method}
use rocksdb_ts.Machine.Effects.{new, expect, delete_native, library, library_do, gets}
use rocksdb_ts.Machine.Macros.{napi_argv, from_external_argument, return_external}

module _ ⦃h : Host⦄ where
  -- `ReleaseSnapshot` ends the life of the snapshot.
  unfoldable pub release_snapshot : Address → Address → M (Unit {0})
  unfolding expect library_do delete_native
  release_snapshot db p = do
    expect database db
    delete_native snapshot p
    library_do (λ m. h.rocks.release_snapshot db p)

  unfoldable pub rocksdb_snapshot_finalize : Address → Address → M (Unit {0})
  unfolding release_snapshot
  rocksdb_snapshot_finalize p db = if p == 0 || db == 0 then pure tt else release_snapshot db p

  -- `db->GetSnapshot()`, which may give a null pointer.
  unfoldable pub get_snapshot : Address → M Address
  unfolding expect library new
  get_snapshot db = do
    expect database db
    p ← gets (λ s. s.next)
    given ← library (λ m. h.rocks.get_snapshot db p)
    if given then new (native snapshot) else pure 0

  unfoldable pub rocksdb_snapshot_init : Method
  unfolding napi_argv from_external_argument
  rocksdb_snapshot_init info = do
    argv ← napi_argv 1 info
    db ← from_external_argument (argv 0)
    p ← get_snapshot db
    return_external p Finalizer.rocksdb_snapshot_finalize db
