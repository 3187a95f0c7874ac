-- ===== src/Safety/Database.antt =====
-- Methods on databases and records, with keys and values in buffers.
use rocksdb_ts.Prelude.{Option, [], ◌∷◌, arith}
use rocksdb_ts.Host.{Host, Address, Bytes}
use rocksdb_ts.Machine.{Kind, State, Slice}
use rocksdb_ts.Database.{rocksdb_close, at_location}
use rocksdb_ts.Database.Records.{
  db_put, db_get, db_delete, db_delete_range, value_or_throw, rocksdb_put, rocksdb_get,
  rocksdb_delete, rocksdb_delete_range,
}
use rocksdb_ts.Database.Snapshots.{get_snapshot, rocksdb_snapshot_init}
use rocksdb_ts.Ownership.{Holds, native_sort, write_options_sort, read_options_sort}
use rocksdb_ts.Interface.{
  write_options_context, read_options_context, options_context, database_context,
}
use rocksdb_ts.Interface.Parameters.{context, buffer}
use rocksdb_ts.Safety.{Documented, IsCall, Safe, Reads, Readable}
use rocksdb_ts.Safety.Arguments.{napi_argv-Safe}
use rocksdb_ts.Safety.Rules.{safe_rules, read_rules}

module _ ⦃h : Host⦄ where
  pub db_put-Reads :
      {s : State} {db : Address} {options : Address} {k : Slice} {v : Slice}
      → Holds s (db, native_sort Kind.database)
      → Holds s (options, write_options_sort)
      → Readable s k
      → Readable s v
      → Reads s (db_put db options k v)
  unfolding db_put
  db_put-Reads x0 x1 x2 x3 = search (read_rules) depth 14

  pub db_delete-Reads :
      {s : State} {db : Address} {options : Address} {k : Slice}
      → Holds s (db, native_sort Kind.database)
      → Holds s (options, write_options_sort)
      → Readable s k
      → Reads s (db_delete db options k)
  unfolding db_delete
  db_delete-Reads x0 x1 x2 = search (read_rules) depth 14

  pub db_delete_range-Reads :
      {s : State} {db : Address} {options : Address} {from : Slice} {till : Slice}
      → Holds s (db, native_sort Kind.database)
      → Holds s (options, write_options_sort)
      → Readable s from
      → Readable s till
      → Reads s (db_delete_range db options from till)
  unfolding db_delete_range
  db_delete_range-Reads x0 x1 x2 x3 = search (read_rules) depth 14

  pub db_get-Reads :
      {s : State} {db : Address} {options : Address} {k : Slice}
      → Holds s (db, native_sort Kind.database)
      → Holds s (options, read_options_sort)
      → Readable s k
      → Reads s (db_get db options k)
  unfolding db_get
  db_get-Reads x0 x1 x2 = search (read_rules) depth 14

  pub value_or_throw-Reads :
      {s : State}
      → Documented
      → (wrap : Bytes → h.napi.Env → Option (h.napi.Value × h.napi.Env))
      → (r : h.rocks.Status × Bytes) → Reads s (value_or_throw wrap r)
  unfolding value_or_throw
  value_or_throw-Reads d wrap r = search read_rules depth 14

  pub ruleset record_rules = (
    safe_rules, db_put-Reads, db_get-Reads, db_delete-Reads, db_delete_range-Reads,
    value_or_throw-Reads,
  )

  pub rocksdb_put-Safe :
      {s : State} {info : h.napi.Info}
      → Documented
      → IsCall s
          (context database_context ∷ buffer ∷ buffer ∷ context write_options_context ∷ [])
          info
      → Safe s (rocksdb_put info)
  unfolding rocksdb_put
  rocksdb_put-Safe d c =
      napi_argv-Safe d c (omega arith)
        λ argv (a0, (a1, (a2, (a3, z)))). search record_rules depth 14

  pub rocksdb_get-Safe :
      {s : State} {info : h.napi.Info}
      → Documented
      → IsCall s (context database_context ∷ buffer ∷ context read_options_context ∷ []) info
      → Safe s (rocksdb_get info)
  unfolding rocksdb_get
  rocksdb_get-Safe d c =
      napi_argv-Safe d c (omega arith) λ argv (a0, (a1, (a2, z))). search record_rules depth 14

  pub rocksdb_delete-Safe :
      {s : State} {info : h.napi.Info}
      → Documented
      → IsCall s (context database_context ∷ buffer ∷ context write_options_context ∷ []) info
      → Safe s (rocksdb_delete info)
  unfolding rocksdb_delete
  rocksdb_delete-Safe d c =
      napi_argv-Safe d c (omega arith) λ argv (a0, (a1, (a2, z))). search record_rules depth 14

  pub rocksdb_delete_range-Safe :
      {s : State} {info : h.napi.Info}
      → Documented
      → IsCall s
          (context database_context ∷ buffer ∷ buffer ∷ context write_options_context ∷ [])
          info
      → Safe s (rocksdb_delete_range info)
  unfolding rocksdb_delete_range
  rocksdb_delete_range-Safe d c =
      napi_argv-Safe d c (omega arith)
        λ argv (a0, (a1, (a2, (a3, z)))). search record_rules depth 14

  pub rocksdb_close-Safe :
      {s : State} {info : h.napi.Info}
      → Documented
      → IsCall s (context database_context ∷ []) info
      → Safe s (rocksdb_close info)
  unfolding rocksdb_close
  rocksdb_close-Safe d c =
      napi_argv-Safe d c (omega arith) λ argv (a0, z). search safe_rules depth 14

  pub at_location-Safe :
      {s : State} {info : h.napi.Info}
      → Documented
      → (f : Bytes → Address → h.rocks.Lib → h.rocks.Status × h.rocks.Lib)
      → IsCall s (buffer ∷ context options_context ∷ []) info
      → Safe s (at_location f info)
  unfolding at_location
  at_location-Safe d f c =
      napi_argv-Safe d c (omega arith) λ argv (a0, (a1, z)). search safe_rules depth 14

  pub get_snapshot-Reads :
      {s : State} {db : Address}
      → Holds s (db, native_sort Kind.database)
      → Reads s (get_snapshot db)
  unfolding get_snapshot
  get_snapshot-Reads x0 = search (read_rules) depth 14

  pub rocksdb_snapshot_init-Safe :
      {s : State} {info : h.napi.Info}
      → Documented
      → IsCall s (context database_context ∷ []) info
      → Safe s (rocksdb_snapshot_init info)
  unfolding rocksdb_snapshot_init
  rocksdb_snapshot_init-Safe d c =
      napi_argv-Safe d c (omega arith)
        λ argv (a0, z). search (safe_rules, get_snapshot-Reads) depth 14
