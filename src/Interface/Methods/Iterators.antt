-- ===== src/Interface/Methods/Iterators.antt =====
-- The results of the methods on iterators and batches, and of the logger.
use rocksdb_ts.Prelude.{ℕ, false}
use rocksdb_ts.Host.{Host, Address, Bytes, Encoding, Memory}
use rocksdb_ts.Iterators.{rocksdb_iterator_init}
use rocksdb_ts.Iterators.Moves.{
  return_valid, moved, moved_to_buffer, moved_to_string, rocksdb_iterator_valid,
  rocksdb_iterator_refresh, Move,
}
use rocksdb_ts.Iterators.Entries.{read_part, read_pair, read_status, Wrap}
use rocksdb_ts.Batches.{
  rocksdb_batch_init, rocksdb_batch_init_ex, rocksdb_batch_put, rocksdb_batch_put_string,
  rocksdb_batch_delete, rocksdb_batch_delete_utf8, rocksdb_batch_delete_latin1, rocksdb_batch_clear,
  rocksdb_batch_write,
}
use rocksdb_ts.Logger.{logger_config, logger_start, logger_stop}
use rocksdb_ts.Interface.{
  ResultType, void, boolean, number, context, pair, batch_context, iterator_context,
}
use rocksdb_ts.Interface.Values.{Yields}
use rocksdb_ts.Interface.Results.{
  result_rules, Produces, Yields-bind, Yields-then, Yields-some, Yields-array,
}

module _ ⦃h : Host⦄ where
  pub rocksdb_iterator_init-Yields :
      (info : h.napi.Info) → Yields false (context iterator_context) (rocksdb_iterator_init info)
  unfolding rocksdb_iterator_init
  rocksdb_iterator_init-Yields info = search result_rules depth 14

  pub return_valid-Yields : (p : Address) → Yields false boolean (return_valid p)
  unfolding return_valid
  return_valid-Yields p = search result_rules depth 14

  pub moved-Yields : (f : Move) (info : h.napi.Info) → Yields false (boolean) (moved f info)
  unfolding moved
  moved-Yields f info = search (result_rules, return_valid-Yields) depth 14

  pub moved_to_buffer-Yields :
      (f : Memory → Address → Bytes → h.rocks.Lib → h.rocks.Lib) (info : h.napi.Info)
      → Yields false (boolean) (moved_to_buffer f info)
  unfolding moved_to_buffer
  moved_to_buffer-Yields f info = search (result_rules, return_valid-Yields) depth 14

  pub moved_to_string-Yields :
      (f : Memory → Address → Bytes → h.rocks.Lib → h.rocks.Lib) (enc : Encoding)
      (info : h.napi.Info)
      → Yields false (boolean) (moved_to_string f enc info)
  unfolding moved_to_string
  moved_to_string-Yields f enc info = search (result_rules, return_valid-Yields) depth 14

  pub rocksdb_iterator_valid-Yields :
      (info : h.napi.Info) → Yields false (boolean) (rocksdb_iterator_valid info)
  unfolding rocksdb_iterator_valid
  rocksdb_iterator_valid-Yields info = search (result_rules, return_valid-Yields) depth 14

  pub rocksdb_iterator_refresh-Yields :
      (info : h.napi.Info) → Yields false (boolean) (rocksdb_iterator_refresh info)
  unfolding rocksdb_iterator_refresh
  rocksdb_iterator_refresh-Yields info = search (result_rules, return_valid-Yields) depth 14

  pub read_part-Yields :
      (τ : ResultType) (part : Address → h.rocks.Lib → Bytes) {wrap : Wrap} (info : h.napi.Info)
      → ((b : Bytes) → Produces τ (wrap b))
      → Yields false τ (read_part part wrap info)
  unfolding read_part
  read_part-Yields τ part info x = search (result_rules, x) depth 14

  pub read_pair-Yields :
      (τ : ResultType) (wrap : Wrap) (info : h.napi.Info)
      → Yields false (pair τ) (read_pair wrap info)
  unfolding read_pair
  read_pair-Yields τ wrap info =
      search (Yields-bind, Yields-then, Yields-some, Yields-array) depth 14

  pub read_status-Yields :
      (part : h.rocks.Status → ℕ) (info : h.napi.Info)
      → Yields false (number) (read_status part info)
  unfolding read_status
  read_status-Yields part info = search result_rules depth 14

  pub rocksdb_batch_init-Yields :
      (info : h.napi.Info) → Yields false (context batch_context) (rocksdb_batch_init info)
  unfolding rocksdb_batch_init
  rocksdb_batch_init-Yields info = search result_rules depth 14

  pub rocksdb_batch_init_ex-Yields :
      (info : h.napi.Info) → Yields false (context batch_context) (rocksdb_batch_init_ex info)
  unfolding rocksdb_batch_init_ex
  rocksdb_batch_init_ex-Yields info = search result_rules depth 14

  pub rocksdb_batch_put-Yields : (info : h.napi.Info) → Yields false (void) (rocksdb_batch_put info)
  unfolding rocksdb_batch_put
  rocksdb_batch_put-Yields info = search result_rules depth 14

  pub rocksdb_batch_put_string-Yields :
      (enc : Encoding) (info : h.napi.Info)
      → Yields false (void) (rocksdb_batch_put_string enc info)
  unfolding rocksdb_batch_put_string
  rocksdb_batch_put_string-Yields enc info = search result_rules depth 14

  pub rocksdb_batch_delete-Yields :
      (info : h.napi.Info) → Yields false (void) (rocksdb_batch_delete info)
  unfolding rocksdb_batch_delete
  rocksdb_batch_delete-Yields info = search result_rules depth 14

  pub rocksdb_batch_delete_utf8-Yields :
      (info : h.napi.Info) → Yields false (void) (rocksdb_batch_delete_utf8 info)
  unfolding rocksdb_batch_delete_utf8
  rocksdb_batch_delete_utf8-Yields info = search result_rules depth 14

  pub rocksdb_batch_delete_latin1-Yields :
      (info : h.napi.Info) → Yields false (void) (rocksdb_batch_delete_latin1 info)
  unfolding rocksdb_batch_delete_latin1
  rocksdb_batch_delete_latin1-Yields info = search result_rules depth 14

  pub rocksdb_batch_clear-Yields :
      (info : h.napi.Info) → Yields false (void) (rocksdb_batch_clear info)
  unfolding rocksdb_batch_clear
  rocksdb_batch_clear-Yields info = search result_rules depth 14

  pub rocksdb_batch_write-Yields :
      (info : h.napi.Info) → Yields false (void) (rocksdb_batch_write info)
  unfolding rocksdb_batch_write
  rocksdb_batch_write-Yields info = search result_rules depth 14

  pub logger_config-Yields : (info : h.napi.Info) → Yields false (void) (logger_config info)
  unfolding logger_config
  logger_config-Yields info = search result_rules depth 14

  pub logger_start-Yields : (info : h.napi.Info) → Yields false (void) (logger_start info)
  unfolding logger_start
  logger_start-Yields info = search result_rules depth 14

  pub logger_stop-Yields : (info : h.napi.Info) → Yields false (void) (logger_stop info)
  unfolding logger_stop
  logger_stop-Yields info = search result_rules depth 14
