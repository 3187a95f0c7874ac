-- ===== src/Ownership/Batches.antt =====
-- Methods on write batches.
use rocksdb_ts.Host.{Host, Address, Encoding}
use rocksdb_ts.Machine.{Slice}
use rocksdb_ts.Batches.{
  put_in_batch, delete_in_batch, db_write, rocksdb_batch_put, rocksdb_batch_put_string,
  rocksdb_batch_delete, rocksdb_batch_delete_utf8, rocksdb_batch_delete_latin1, rocksdb_batch_clear,
  rocksdb_batch_write,
}
use rocksdb_ts.Ownership.{IsSteady}
use rocksdb_ts.Ownership.Rules.{steady_rules}

module _ ⦃h : Host⦄ where
  pub put_in_batch-IsSteady : (p : Address) (k v : Slice) → IsSteady (put_in_batch p k v)
  unfolding put_in_batch
  put_in_batch-IsSteady p k v = search steady_rules depth 14

  pub delete_in_batch-IsSteady : (p : Address) (k : Slice) → IsSteady (delete_in_batch p k)
  unfolding delete_in_batch
  delete_in_batch-IsSteady p k = search steady_rules depth 14

  pub db_write-IsSteady : (db q p : Address) → IsSteady (db_write db q p)
  unfolding db_write
  db_write-IsSteady db q p = search steady_rules depth 14

  pub rocksdb_batch_put-IsSteady : (info : h.napi.Info) → IsSteady (rocksdb_batch_put info)
  unfolding rocksdb_batch_put
  rocksdb_batch_put-IsSteady info = search (steady_rules, put_in_batch-IsSteady) depth 14

  pub rocksdb_batch_put_string-IsSteady :
      (enc : Encoding) (info : h.napi.Info) → IsSteady (rocksdb_batch_put_string enc info)
  unfolding rocksdb_batch_put_string
  rocksdb_batch_put_string-IsSteady enc info = search (steady_rules, put_in_batch-IsSteady) depth 14

  pub rocksdb_batch_delete-IsSteady : (info : h.napi.Info) → IsSteady (rocksdb_batch_delete info)
  unfolding rocksdb_batch_delete
  rocksdb_batch_delete-IsSteady info = search (steady_rules, delete_in_batch-IsSteady) depth 14

  pub rocksdb_batch_delete_utf8-IsSteady :
      (info : h.napi.Info) → IsSteady (rocksdb_batch_delete_utf8 info)
  unfolding rocksdb_batch_delete_utf8
  rocksdb_batch_delete_utf8-IsSteady info = search (steady_rules, delete_in_batch-IsSteady) depth 14

  pub rocksdb_batch_delete_latin1-IsSteady :
      (info : h.napi.Info) → IsSteady (rocksdb_batch_delete_latin1 info)
  unfolding rocksdb_batch_delete_latin1
  rocksdb_batch_delete_latin1-IsSteady info =
      search (steady_rules, delete_in_batch-IsSteady) depth 14

  pub rocksdb_batch_clear-IsSteady : (info : h.napi.Info) → IsSteady (rocksdb_batch_clear info)
  unfolding rocksdb_batch_clear
  rocksdb_batch_clear-IsSteady info = search steady_rules depth 14

  pub rocksdb_batch_write-IsSteady : (info : h.napi.Info) → IsSteady (rocksdb_batch_write info)
  unfolding rocksdb_batch_write
  rocksdb_batch_write-IsSteady info = search (steady_rules, db_write-IsSteady) depth 14
