-- ===== src/Ownership/Database.antt =====
-- Methods on records, and on databases that are closed, destroyed or repaired.
use rocksdb_ts.Host.{Host, Address, Bytes, Encoding}
use rocksdb_ts.Prelude.{Option}
use rocksdb_ts.Machine.{Slice}
use rocksdb_ts.Database.{rocksdb_close, at_location}
use rocksdb_ts.Database.Records.{
  db_put, db_get, db_delete, db_delete_range, value_or_throw, rocksdb_put, rocksdb_get,
  rocksdb_delete, rocksdb_delete_range, rocksdb_put_string, rocksdb_get_string,
  rocksdb_delete_string, rocksdb_delete_range_string,
}
use rocksdb_ts.Ownership.{IsSteady}
use rocksdb_ts.Ownership.Rules.{steady_rules}

module _ ⦃h : Host⦄ where
  pub db_put-IsSteady : (db p : Address) (k v : Slice) → IsSteady (db_put db p k v)
  unfolding db_put
  db_put-IsSteady db p k v = search steady_rules depth 14

  pub db_delete_range-IsSteady :
      (db p : Address) (k v : Slice) → IsSteady (db_delete_range db p k v)
  unfolding db_delete_range
  db_delete_range-IsSteady db p k v = search steady_rules depth 14

  pub db_delete-IsSteady : (db p : Address) (k : Slice) → IsSteady (db_delete db p k)
  unfolding db_delete
  db_delete-IsSteady db p k = search steady_rules depth 14

  pub db_get-IsSteady : (db p : Address) (k : Slice) → IsSteady (db_get db p k)
  unfolding db_get
  db_get-IsSteady db p k = search steady_rules depth 14

  pub value_or_throw-IsSteady :
      (wrap : Bytes → h.napi.Env → Option (h.napi.Value × h.napi.Env)) (r : h.rocks.Status × Bytes)
      → IsSteady (value_or_throw wrap r)
  unfolding value_or_throw
  value_or_throw-IsSteady wrap r = search steady_rules depth 14

  pub rocksdb_put-IsSteady : (info : h.napi.Info) → IsSteady (rocksdb_put info)
  unfolding rocksdb_put
  rocksdb_put-IsSteady info = search (steady_rules, db_put-IsSteady) depth 14

  pub rocksdb_put_string-IsSteady :
      (enc : Encoding) (info : h.napi.Info) → IsSteady (rocksdb_put_string enc info)
  unfolding rocksdb_put_string
  rocksdb_put_string-IsSteady enc info = search (steady_rules, db_put-IsSteady) depth 14

  pub rocksdb_get-IsSteady : (info : h.napi.Info) → IsSteady (rocksdb_get info)
  unfolding rocksdb_get
  rocksdb_get-IsSteady info =
      search (steady_rules, db_get-IsSteady, value_or_throw-IsSteady) depth 14

  pub rocksdb_get_string-IsSteady :
      (enc : Encoding) (info : h.napi.Info) → IsSteady (rocksdb_get_string enc info)
  unfolding rocksdb_get_string
  rocksdb_get_string-IsSteady enc info =
      search (steady_rules, db_get-IsSteady, value_or_throw-IsSteady) depth 14

  pub rocksdb_delete-IsSteady : (info : h.napi.Info) → IsSteady (rocksdb_delete info)
  unfolding rocksdb_delete
  rocksdb_delete-IsSteady info = search (steady_rules, db_delete-IsSteady) depth 14

  pub rocksdb_delete_string-IsSteady :
      (enc : Encoding) (info : h.napi.Info) → IsSteady (rocksdb_delete_string enc info)
  unfolding rocksdb_delete_string
  rocksdb_delete_string-IsSteady enc info = search (steady_rules, db_delete-IsSteady) depth 14

  pub rocksdb_delete_range-IsSteady : (info : h.napi.Info) → IsSteady (rocksdb_delete_range info)
  unfolding rocksdb_delete_range
  rocksdb_delete_range-IsSteady info = search (steady_rules, db_delete_range-IsSteady) depth 14

  pub rocksdb_delete_range_string-IsSteady :
      (enc : Encoding) (info : h.napi.Info) → IsSteady (rocksdb_delete_range_string enc info)
  unfolding rocksdb_delete_range_string
  rocksdb_delete_range_string-IsSteady enc info =
      search (steady_rules, db_delete_range-IsSteady) depth 14

  pub rocksdb_close-IsSteady : (info : h.napi.Info) → IsSteady (rocksdb_close info)
  unfolding rocksdb_close
  rocksdb_close-IsSteady info = search steady_rules depth 14

  pub at_location-IsSteady :
      (f : Bytes → Address → h.rocks.Lib → h.rocks.Status × h.rocks.Lib) (info : h.napi.Info)
      → IsSteady (at_location f info)
  unfolding at_location
  at_location-IsSteady f info = search steady_rules depth 14
