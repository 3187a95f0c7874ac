-- ===== src/Database.antt =====
-- Opening, closing, destroying and repairing databases: rocksdb_open, rocksdb_close,
-- rocksdb_finalize, rocksdb_destroy and rocksdb_repair of binding.cc.
pub mod Buffers
pub mod Faults
pub mod Finalize
pub mod Open
pub mod Records
pub mod Snapshots
pub mod Store
pub mod Strings
use rocksdb_ts.Prelude.{
  ℕ, Bool, true, false, Option, none, some, ◌==◌, if◌then◌else◌, List, [], ◌∷◌,
}
use rocksdb_ts.Host.{Host, Address, Bytes, Finalizer}
use rocksdb_ts.Machine.{
  options, database, native, reference_container, Outcome, M, ok, pure, ◌>>=◌, ◌>>◌, call, Method,
}
use rocksdb_ts.Machine.Effects.{
  new, put_cell, expect, load_container, delete_container, delete_native, read_slice, library,
  library_do, gets,
}
use rocksdb_ts.Machine.Macros.{
  napi_argv, napi_status_throws, from_external_argument, slice_from_buffer_argument,
  rocksdb_status_throws, create_external, return_undefined,
}

module _ ⦃h : Host⦄ where
  -- `rocksdb::DB::Open`, with the pointer that it stores.
  unfoldable pub open_database : Address → Bytes → M (h.rocks.Status × Address)
  unfolding new library
  open_database p location = do
    at ← gets (λ s. s.next)
    r ← library (λ m. h.rocks.open_db p location at)
    db ← if r.1 then new (native database) else pure 0
    pure (r.0, db)

  abbrev held : Address → h.napi.Value → Option (h.napi.Ref × h.napi.Env) → M (Unit {0})
  unfolding napi_status_throws
  held container v none s = napi_status_throws (some tt) none s
  held container v (some (r, e)) s =
      put_cell container (some (reference_container (some r)))
        (record s { env = e; references = (container, v) ∷ s.references })

  -- `napi_create_reference` with the count 1, into the container.
  unfoldable pub hold_reference : Address → h.napi.Value → M (Unit {0})
  unfolding held
  hold_reference container v s = held container v (h.napi.create_reference v 1 s.env) s

  unfoldable pub rocksdb_open : Method
  unfolding napi_argv from_external_argument expect new
  rocksdb_open info = do
    argv ← napi_argv 2 info
    x ← slice_from_buffer_argument (argv 0)
    location ← read_slice x
    p ← from_external_argument (argv 1)
    expect options p
    r ← open_database p location
    rocksdb_status_throws r.0
    container ← new (reference_container none)
    result ← create_external r.1 Finalizer.rocksdb_finalize container
    hold_reference container result
    pure (some result)

  abbrev pub without_container {ℓ} :
      {A : Type ℓ} → Address → List (Address × A) → List (Address × A)
  without_container c [] = []
  without_container c ((d, v) ∷ rest) =
      if c == d then without_container c rest else (d, v) ∷ without_container c rest

  -- `napi_delete_reference`, whose status is kept for later. A null reference is refused.
  abbrev released : Address → Option h.napi.Env → M (Option (Unit {0}))
  released container none s = ok none s
  released container (some e) s =
      ok (some tt) (record s { env = e; references = without_container container s.references })

  abbrev release_held : Address → Option h.napi.Ref → M (Option (Unit {0}))
  release_held container none s = ok none s
  release_held container (some r) s = released container (h.napi.delete_reference r s.env) s

  unfoldable pub release_container : Address → M (Option (Unit {0}))
  unfolding load_container delete_container
  release_container container = do
    r ← load_container container
    status ← release_held container r
    delete_container container
    pure status

  -- `db->Close()` and `delete db`
  unfoldable pub close_and_delete : Address → M h.rocks.Status
  unfolding expect library library_do delete_native
  close_and_delete db = do
    expect database db
    status ← library (λ m. h.rocks.close db)
    library_do (λ m. h.rocks.delete_db db)
    delete_native database db
    pure status

  -- The finalizer of a database. Both pointers are tested, and both statuses reported at the end.
  unfoldable pub rocksdb_finalize : Address → Address → M (Unit {0})
  unfolding napi_status_throws
  rocksdb_finalize db container = call (do
    reference_status ← if container == 0 then pure (some tt) else release_container container
    close_status ← if db == 0 then pure h.rocks.status_ok else close_and_delete db
    napi_status_throws (some tt) reference_status
    rocksdb_status_throws close_status)

  unfoldable pub rocksdb_close : Method
  unfolding napi_argv from_external_argument expect library
  rocksdb_close info = do
    argv ← napi_argv 1 info
    db ← from_external_argument (argv 0)
    expect database db
    status ← library (λ m. h.rocks.close db)
    rocksdb_status_throws status
    return_undefined

  -- The body of rocksdb_destroy and rocksdb_repair.
  unfoldable pub at_location :
      (Bytes → Address → h.rocks.Lib → h.rocks.Status × h.rocks.Lib) → Method
  unfolding napi_argv from_external_argument expect library
  at_location f info = do
    argv ← napi_argv 2 info
    x ← slice_from_buffer_argument (argv 0)
    location ← read_slice x
    p ← from_external_argument (argv 1)
    expect options p
    status ← library (λ m. f location p)
    rocksdb_status_throws status
    return_undefined

  unfoldable pub rocksdb_destroy : Method
  unfolding at_location
  rocksdb_destroy = at_location h.rocks.destroy_db

  unfoldable pub rocksdb_repair : Method
  unfolding at_location
  rocksdb_repair = at_location h.rocks.repair_db
