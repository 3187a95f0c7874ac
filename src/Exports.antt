-- ===== src/Exports.antt =====
-- NAPI_INIT of binding.cc: the functions that the module exports, by name.
pub mod Bodies
use Prim.Native.String.{String}
use rocksdb_ts.Prelude.{List, [], ◌∷◌}
use rocksdb_ts.Host.{Host}
use rocksdb_ts.Machine.{Method}
use rocksdb_ts.Slices.{rocksdb_slice}
use rocksdb_ts.Options.Write.{
  rocksdb_write_options_init, rocksdb_write_options_get_sync, rocksdb_write_options_get_disable_wal,
  rocksdb_write_options_get_ignore_missing_column_families, rocksdb_write_options_get_no_slowdown,
  rocksdb_write_options_get_low_pri, rocksdb_write_options_set_timestamp,
  rocksdb_write_options_reset_timestamp, rocksdb_write_options_set_sync,
  rocksdb_write_options_set_disable_wal, rocksdb_write_options_set_ignore_missing_column_families,
  rocksdb_write_options_set_no_slowdown, rocksdb_write_options_set_low_pri,
}
use rocksdb_ts.Options.Db.{rocksdb_options_init, rocksdb_options_init_from_buffer}
use rocksdb_ts.Database.{rocksdb_open, rocksdb_close, rocksdb_destroy, rocksdb_repair}
use rocksdb_ts.Database.Records.{
  rocksdb_put, rocksdb_put_utf8, rocksdb_put_latin1, rocksdb_get, rocksdb_get_utf8,
  rocksdb_get_latin1, rocksdb_delete, rocksdb_delete_utf8, rocksdb_delete_latin1,
  rocksdb_delete_range, rocksdb_delete_range_utf8, rocksdb_delete_range_latin1,
}
use rocksdb_ts.Iterators.{rocksdb_iterator_init}
use rocksdb_ts.Iterators.Moves.{
  rocksdb_iterator_seek, rocksdb_iterator_seek_utf8, rocksdb_iterator_seek_latin1,
  rocksdb_iterator_seek_for_prev, rocksdb_iterator_seek_for_prev_utf8,
  rocksdb_iterator_seek_for_prev_latin1, rocksdb_iterator_seek_for_first,
  rocksdb_iterator_seek_for_last, rocksdb_iterator_reset, rocksdb_iterator_valid,
  rocksdb_iterator_refresh, rocksdb_iterator_next, rocksdb_iterator_prev,
}
use rocksdb_ts.Iterators.Entries.{
  rocksdb_iterator_key, rocksdb_iterator_key_utf8, rocksdb_iterator_key_latin1,
  rocksdb_iterator_value, rocksdb_iterator_value_utf8, rocksdb_iterator_value_latin1,
  rocksdb_iterator_key_value_pair, rocksdb_iterator_key_value_pair_of_utf8,
  rocksdb_iterator_status_code, rocksdb_iterator_status_subcode,
}
use rocksdb_ts.Batches.{
  rocksdb_batch_init, rocksdb_batch_init_ex, rocksdb_batch_put, rocksdb_batch_put_utf8,
  rocksdb_batch_put_latin1, rocksdb_batch_delete, rocksdb_batch_delete_utf8,
  rocksdb_batch_delete_latin1, rocksdb_batch_clear, rocksdb_batch_write,
}
use rocksdb_ts.Async.{rocksdb_batch_write_async}
use rocksdb_ts.Database.Snapshots.{rocksdb_snapshot_init}
use rocksdb_ts.Options.Read.{
  rocksdb_read_options_init, rocksdb_read_options_set_snapshot, rocksdb_read_options_reset_snapshot,
  rocksdb_read_options_set_timestamp, rocksdb_read_options_reset_timestamp,
  rocksdb_read_options_set_iterate_lower_bound, rocksdb_read_options_reset_iterate_lower_bound,
  rocksdb_read_options_set_iterate_upper_bound, rocksdb_read_options_reset_iterate_upper_bound,
}
use rocksdb_ts.Options.Read.Flags.{
  rocksdb_read_options_get_verify_checksums, rocksdb_read_options_get_fill_cache,
  rocksdb_read_options_get_tailing, rocksdb_read_options_get_managed,
  rocksdb_read_options_get_total_order_seek, rocksdb_read_options_get_prefix_same_as_start,
  rocksdb_read_options_get_pin_data, rocksdb_read_options_get_background_purge_on_iterator_cleanup,
  rocksdb_read_options_get_ignore_range_deletions, rocksdb_read_options_set_verify_checksums,
  rocksdb_read_options_set_fill_cache, rocksdb_read_options_set_tailing,
  rocksdb_read_options_set_managed, rocksdb_read_options_set_total_order_seek,
  rocksdb_read_options_set_prefix_same_as_start, rocksdb_read_options_set_pin_data,
  rocksdb_read_options_set_background_purge_on_iterator_cleanup,
  rocksdb_read_options_set_ignore_range_deletions,
}
use rocksdb_ts.Options.Read.Numbers.{
  rocksdb_read_options_get_max_skippable_internal_keys, rocksdb_read_options_get_read_tier,
  rocksdb_read_options_get_iter_start_seqnum, rocksdb_read_options_get_readahead_size,
  rocksdb_read_options_set_max_skippable_internal_keys, rocksdb_read_options_set_read_tier,
  rocksdb_read_options_set_iter_start_seqnum, rocksdb_read_options_set_readahead_size,
}
use rocksdb_ts.Logger.{logger_config, logger_start, logger_stop}

module _ ⦃h : Host⦄ where
  unfoldable pub exports : List (String × Method)
  exports =
      ("rocksdb_slice", rocksdb_slice)
      ∷ ("rocksdb_write_options_init", rocksdb_write_options_init)
      ∷ ("rocksdb_write_options_get_sync", rocksdb_write_options_get_sync)
      ∷ ("rocksdb_write_options_get_disableWAL", rocksdb_write_options_get_disable_wal)
      ∷ (
        "rocksdb_write_options_get_ignore_missing_column_families",
        rocksdb_write_options_get_ignore_missing_column_families,
      )
      ∷ ("rocksdb_write_options_get_no_slowdown", rocksdb_write_options_get_no_slowdown)
      ∷ ("rocksdb_write_options_get_low_pri", rocksdb_write_options_get_low_pri)
      ∷ ("rocksdb_write_options_set_timestamp", rocksdb_write_options_set_timestamp)
      ∷ ("rocksdb_write_options_reset_timestamp", rocksdb_write_options_reset_timestamp)
      ∷ ("rocksdb_write_options_set_sync", rocksdb_write_options_set_sync)
      ∷ ("rocksdb_write_options_set_disableWAL", rocksdb_write_options_set_disable_wal)
      ∷ (
        "rocksdb_write_options_set_ignore_missing_column_families",
        rocksdb_write_options_set_ignore_missing_column_families,
      )
      ∷ ("rocksdb_write_options_set_no_slowdown", rocksdb_write_options_set_no_slowdown)
      ∷ ("rocksdb_write_options_set_low_pri", rocksdb_write_options_set_low_pri)
      ∷ ("rocksdb_options_init", rocksdb_options_init)
      ∷ ("rocksdb_options_init_from_buffer", rocksdb_options_init_from_buffer)
      ∷ ("rocksdb_open", rocksdb_open)
      ∷ ("rocksdb_close", rocksdb_close)
      ∷ ("rocksdb_put", rocksdb_put)
      ∷ ("rocksdb_put_utf8", rocksdb_put_utf8)
      ∷ ("rocksdb_put_latin1", rocksdb_put_latin1)
      ∷ ("rocksdb_get", rocksdb_get)
      ∷ ("rocksdb_get_utf8", rocksdb_get_utf8)
      ∷ ("rocksdb_get_latin1", rocksdb_get_latin1)
      ∷ ("rocksdb_delete", rocksdb_delete)
      ∷ ("rocksdb_delete_utf8", rocksdb_delete_utf8)
      ∷ ("rocksdb_delete_latin1", rocksdb_delete_latin1)
      ∷ ("rocksdb_delete_range", rocksdb_delete_range)
      ∷ ("rocksdb_delete_range_utf8", rocksdb_delete_range_utf8)
      ∷ ("rocksdb_delete_range_latin1", rocksdb_delete_range_latin1)
      ∷ ("rocksdb_destroy", rocksdb_destroy)
      ∷ ("rocksdb_repair", rocksdb_repair)
      ∷ ("rocksdb_iterator_init", rocksdb_iterator_init)
      ∷ ("rocksdb_iterator_seek", rocksdb_iterator_seek)
      ∷ ("rocksdb_iterator_seek_utf8", rocksdb_iterator_seek_utf8)
      ∷ ("rocksdb_iterator_seek_latin1", rocksdb_iterator_seek_latin1)
      ∷ ("rocksdb_iterator_seek_for_prev", rocksdb_iterator_seek_for_prev)
      ∷ ("rocksdb_iterator_seek_for_prev_utf8", rocksdb_iterator_seek_for_prev_utf8)
      ∷ ("rocksdb_iterator_seek_for_prev_latin1", rocksdb_iterator_seek_for_prev_latin1)
      ∷ ("rocksdb_iterator_seek_for_first", rocksdb_iterator_seek_for_first)
      ∷ ("rocksdb_iterator_seek_for_last", rocksdb_iterator_seek_for_last)
      ∷ ("rocksdb_iterator_reset", rocksdb_iterator_reset)
      ∷ ("rocksdb_iterator_valid", rocksdb_iterator_valid)
      ∷ ("rocksdb_iterator_refresh", rocksdb_iterator_refresh)
      ∷ ("rocksdb_iterator_next", rocksdb_iterator_next)
      ∷ ("rocksdb_iterator_prev", rocksdb_iterator_prev)
      ∷ ("rocksdb_iterator_key", rocksdb_iterator_key)
      ∷ ("rocksdb_iterator_key_utf8", rocksdb_iterator_key_utf8)
      ∷ ("rocksdb_iterator_key_latin1", rocksdb_iterator_key_latin1)
      ∷ ("rocksdb_iterator_value", rocksdb_iterator_value)
      ∷ ("rocksdb_iterator_value_utf8", rocksdb_iterator_value_utf8)
      ∷ ("rocksdb_iterator_value_latin1", rocksdb_iterator_value_latin1)
      ∷ ("rocksdb_iterator_key_value_pair", rocksdb_iterator_key_value_pair)
      ∷ ("rocksdb_iterator_key_value_pair_of_utf8", rocksdb_iterator_key_value_pair_of_utf8)
      ∷ ("rocksdb_iterator_status_code", rocksdb_iterator_status_code)
      ∷ ("rocksdb_iterator_status_subcode", rocksdb_iterator_status_subcode)
      ∷ ("rocksdb_batch_init", rocksdb_batch_init)
      ∷ ("rocksdb_batch_init_ex", rocksdb_batch_init_ex)
      ∷ ("rocksdb_batch_put", rocksdb_batch_put)
      ∷ ("rocksdb_batch_put_utf8", rocksdb_batch_put_utf8)
      ∷ ("rocksdb_batch_put_latin1", rocksdb_batch_put_latin1)
      ∷ ("rocksdb_batch_delete", rocksdb_batch_delete)
      ∷ ("rocksdb_batch_delete_utf8", rocksdb_batch_delete_utf8)
      ∷ ("rocksdb_batch_delete_latin1", rocksdb_batch_delete_latin1)
      ∷ ("rocksdb_batch_clear", rocksdb_batch_clear)
      ∷ ("rocksdb_batch_write", rocksdb_batch_write)
      ∷ ("rocksdb_batch_write_async", rocksdb_batch_write_async)
      ∷ ("rocksdb_snapshot_init", rocksdb_snapshot_init)
      ∷ ("rocksdb_read_options_init", rocksdb_read_options_init)
      ∷ ("rocksdb_read_options_set_snapshot", rocksdb_read_options_set_snapshot)
      ∷ ("rocksdb_read_options_reset_snapshot", rocksdb_read_options_reset_snapshot)
      ∷ ("rocksdb_read_options_set_timestamp", rocksdb_read_options_set_timestamp)
      ∷ ("rocksdb_read_options_reset_timestamp", rocksdb_read_options_reset_timestamp)
      ∷ (
        "rocksdb_read_options_set_iterate_lower_bound",
        rocksdb_read_options_set_iterate_lower_bound,
      )
      ∷ (
        "rocksdb_read_options_reset_iterate_lower_bound",
        rocksdb_read_options_reset_iterate_lower_bound,
      )
      ∷ (
        "rocksdb_read_options_set_iterate_upper_bound",
        rocksdb_read_options_set_iterate_upper_bound,
      )
      ∷ (
        "rocksdb_read_options_reset_iterate_upper_bound",
        rocksdb_read_options_reset_iterate_upper_bound,
      )
      ∷ ("rocksdb_read_options_get_verify_checksums", rocksdb_read_options_get_verify_checksums)
      ∷ ("rocksdb_read_options_get_fill_cache", rocksdb_read_options_get_fill_cache)
      ∷ ("rocksdb_read_options_get_tailing", rocksdb_read_options_get_tailing)
      ∷ ("rocksdb_read_options_get_managed", rocksdb_read_options_get_managed)
      ∷ ("rocksdb_read_options_get_total_order_seek", rocksdb_read_options_get_total_order_seek)
      ∷ (
        "rocksdb_read_options_get_prefix_same_as_start",
        rocksdb_read_options_get_prefix_same_as_start,
      )
      ∷ ("rocksdb_read_options_get_pin_data", rocksdb_read_options_get_pin_data)
      ∷ (
        "rocksdb_read_options_get_background_purge_on_iterator_cleanup",
        rocksdb_read_options_get_background_purge_on_iterator_cleanup,
      )
      ∷ (
        "rocksdb_read_options_get_ignore_range_deletions",
        rocksdb_read_options_get_ignore_range_deletions,
      )
      ∷ (
        "rocksdb_read_options_get_max_skippable_internal_keys",
        rocksdb_read_options_get_max_skippable_internal_keys,
      )
      ∷ ("rocksdb_read_options_get_read_tier", rocksdb_read_options_get_read_tier)
      ∷ ("rocksdb_read_options_get_iter_start_seqnum", rocksdb_read_options_get_iter_start_seqnum)
      ∷ ("rocksdb_read_options_get_readahead_size", rocksdb_read_options_get_readahead_size)
      ∷ ("rocksdb_read_options_set_verify_checksums", rocksdb_read_options_set_verify_checksums)
      ∷ ("rocksdb_read_options_set_fill_cache", rocksdb_read_options_set_fill_cache)
      ∷ ("rocksdb_read_options_set_tailing", rocksdb_read_options_set_tailing)
      ∷ ("rocksdb_read_options_set_managed", rocksdb_read_options_set_managed)
      ∷ ("rocksdb_read_options_set_total_order_seek", rocksdb_read_options_set_total_order_seek)
      ∷ (
        "rocksdb_read_options_set_prefix_same_as_start",
        rocksdb_read_options_set_prefix_same_as_start,
      )
      ∷ ("rocksdb_read_options_set_pin_data", rocksdb_read_options_set_pin_data)
      ∷ (
        "rocksdb_read_options_set_background_purge_on_iterator_cleanup",
        rocksdb_read_options_set_background_purge_on_iterator_cleanup,
      )
      ∷ (
        "rocksdb_read_options_set_ignore_range_deletions",
        rocksdb_read_options_set_ignore_range_deletions,
      )
      ∷ (
        "rocksdb_read_options_set_max_skippable_internal_keys",
        rocksdb_read_options_set_max_skippable_internal_keys,
      )
      ∷ ("rocksdb_read_options_set_read_tier", rocksdb_read_options_set_read_tier)
      ∷ ("rocksdb_read_options_set_iter_start_seqnum", rocksdb_read_options_set_iter_start_seqnum)
      ∷ ("rocksdb_read_options_set_readahead_size", rocksdb_read_options_set_readahead_size)
      ∷ ("logger_config", logger_config)
      ∷ ("logger_start", logger_start)
      ∷ ("logger_stop", logger_stop)
      ∷ []
