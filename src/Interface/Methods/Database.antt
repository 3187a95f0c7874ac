-- ===== src/Interface/Methods/Database.antt =====
-- The results of the methods on databases.
use rocksdb_ts.Prelude.{true, false}
use rocksdb_ts.Host.{Host, Address, Bytes, Encoding}
use rocksdb_ts.Database.{rocksdb_open, rocksdb_close, at_location}
use rocksdb_ts.Database.Records.{
  rocksdb_put, rocksdb_put_string, rocksdb_get, rocksdb_get_string, rocksdb_delete,
  rocksdb_delete_string, rocksdb_delete_range, rocksdb_delete_range_string,
}
use rocksdb_ts.Database.Snapshots.{rocksdb_snapshot_init}
use rocksdb_ts.Interface.{void, buffer, string, context, snapshot_context, database_context}
use rocksdb_ts.Interface.Values.{Yields}
use rocksdb_ts.Interface.Results.{result_rules}

module _ ⦃h : Host⦄ where
  pub rocksdb_open-Yields :
      (info : h.napi.Info) → Yields false (context database_context) (rocksdb_open info)
  unfolding rocksdb_open
  rocksdb_open-Yields info = search result_rules depth 14

  pub rocksdb_close-Yields : (info : h.napi.Info) → Yields false (void) (rocksdb_close info)
  unfolding rocksdb_close
  rocksdb_close-Yields info = search result_rules depth 14

  pub at_location-Yields :
      (f : Bytes → Address → h.rocks.Lib → h.rocks.Status × h.rocks.Lib) (info : h.napi.Info)
      → Yields false (void) (at_location f info)
  unfolding at_location
  at_location-Yields f info = search result_rules depth 14

  pub rocksdb_put-Yields : (info : h.napi.Info) → Yields false (void) (rocksdb_put info)
  unfolding rocksdb_put
  rocksdb_put-Yields info = search result_rules depth 14

  pub rocksdb_put_string-Yields :
      (enc : Encoding) (info : h.napi.Info) → Yields false (void) (rocksdb_put_string enc info)
  unfolding rocksdb_put_string
  rocksdb_put_string-Yields enc info = search result_rules depth 14

  pub rocksdb_get-Yields : (info : h.napi.Info) → Yields true (buffer) (rocksdb_get info)
  unfolding rocksdb_get
  rocksdb_get-Yields info = search result_rules depth 14

  pub rocksdb_get_string-Yields :
      (enc : Encoding) (info : h.napi.Info) → Yields true (string) (rocksdb_get_string enc info)
  unfolding rocksdb_get_string
  rocksdb_get_string-Yields enc info = search result_rules depth 14

  pub rocksdb_delete-Yields : (info : h.napi.Info) → Yields false (void) (rocksdb_delete info)
  unfolding rocksdb_delete
  rocksdb_delete-Yields info = search result_rules depth 14

  pub rocksdb_delete_string-Yields :
      (enc : Encoding) (info : h.napi.Info) → Yields false (void) (rocksdb_delete_string enc info)
  unfolding rocksdb_delete_string
  rocksdb_delete_string-Yields enc info = search result_rules depth 14

  pub rocksdb_delete_range-Yields :
      (info : h.napi.Info) → Yields false (void) (rocksdb_delete_range info)
  unfolding rocksdb_delete_range
  rocksdb_delete_range-Yields info = search result_rules depth 14

  pub rocksdb_delete_range_string-Yields :
      (enc : Encoding) (info : h.napi.Info)
      → Yields false (void) (rocksdb_delete_range_string enc info)
  unfolding rocksdb_delete_range_string
  rocksdb_delete_range_string-Yields enc info = search result_rules depth 14

  pub rocksdb_snapshot_init-Yields :
      (info : h.napi.Info) → Yields false (context snapshot_context) (rocksdb_snapshot_init info)
  unfolding rocksdb_snapshot_init
  rocksdb_snapshot_init-Yields info = search result_rules depth 14
