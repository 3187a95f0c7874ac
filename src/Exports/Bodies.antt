-- ===== src/Exports/Bodies.antt =====
-- The table of NAPI_INIT with the bodies that methods share, in place of the methods.
use rocksdb_ts.Host.{utf8, latin1}
use rocksdb_ts.Exports.{exports}
use rocksdb_ts.Prelude.{◌≡◌, ◌%◌, refl}
use rocksdb_ts.Options.Write as Write
use rocksdb_ts.Options.Read as Read
use rocksdb_ts.Database.Records.{
  rocksdb_delete_range_string, rocksdb_delete_string, rocksdb_get_string, rocksdb_put_string,
}
use rocksdb_ts.Database.{at_location}
use rocksdb_ts.Iterators.Moves.{moved, moved_to_buffer, moved_to_string}
use rocksdb_ts.Iterators.Entries.{read_pair, read_part, read_status}
use rocksdb_ts.Batches.{rocksdb_batch_put_string}
use rocksdb_ts.Options.Read.Numbers.{get_uint64, set_uint64}
use Prim.Native.String.{String}
use rocksdb_ts.Prelude.{List, [], ◌∷◌}
use rocksdb_ts.Host.{Host}
use rocksdb_ts.Machine.{Method}
use rocksdb_ts.Slices.{rocksdb_slice}
use rocksdb_ts.Options.Write.{
  rocksdb_write_options_init, rocksdb_write_options_get_sync, rocksdb_write_options_get_disable_wal,
  rocksdb_write_options_get_ignore_missing_column_families, rocksdb_write_options_get_no_slowdown,
  rocksdb_write_options_get_low_pri, rocksdb_write_options_set_timestamp,
  rocksdb_write_options_reset_timestamp, rocksdb_write_options_set_sync,
  rocksdb_write_options_set_disable_wal, rocksdb_write_options_set_ignore_missing_column_families,
  rocksdb_write_options_set_no_slowdown, rocksdb_write_options_set_low_pri,
}
use rocksdb_ts.Options.Db.{rocksdb_options_init, rocksdb_options_init_from_buffer}
use rocksdb_ts.Database.{rocksdb_open, rocksdb_close, rocksdb_destroy, rocksdb_repair}
use rocksdb_ts.Database.Records.{
  rocksdb_put, rocksdb_put_utf8, rocksdb_put_latin1, rocksdb_get, rocksdb_get_utf8,
  rocksdb_get_latin1, rocksdb_delete, rocksdb_delete_utf8, rocksdb_delete_latin1,
  rocksdb_delete_range, rocksdb_delete_range_utf8, rocksdb_delete_range_latin1,
}
use rocksdb_ts.Iterators.{rocksdb_iterator_init}
use rocksdb_ts.Iterators.Moves.{
  rocksdb_iterator_seek, rocksdb_iterator_seek_utf8, rocksdb_iterator_seek_latin1,
  rocksdb_iterator_seek_for_prev, rocksdb_iterator_seek_for_prev_utf8,
  rocksdb_iterator_seek_for_prev_latin1, rocksdb_iterator_seek_for_first,
  rocksdb_iterator_seek_for_last, rocksdb_iterator_reset, rocksdb_iterator_valid,
  rocksdb_iterator_refresh, rocksdb_iterator_next, rocksdb_iterator_prev,
}
use rocksdb_ts.Iterators.Entries.{
  rocksdb_iterator_key, rocksdb_iterator_key_utf8, rocksdb_iterator_key_latin1,
  rocksdb_iterator_value, rocksdb_iterator_value_utf8, rocksdb_iterator_value_latin1,
  rocksdb_iterator_key_value_pair, rocksdb_iterator_key_value_pair_of_utf8,
  rocksdb_iterator_status_code, rocksdb_iterator_status_subcode,
}
use rocksdb_ts.Batches.{
  rocksdb_batch_init, rocksdb_batch_init_ex, rocksdb_batch_put, rocksdb_batch_put_utf8,
  rocksdb_batch_put_latin1, rocksdb_batch_delete, rocksdb_batch_delete_utf8,
  rocksdb_batch_delete_latin1, rocksdb_batch_clear, rocksdb_batch_write,
}
use rocksdb_ts.Async.{rocksdb_batch_write_async}
use rocksdb_ts.Database.Snapshots.{rocksdb_snapshot_init}
use rocksdb_ts.Options.Read.{
  rocksdb_read_options_init, rocksdb_read_options_set_snapshot, rocksdb_read_options_reset_snapshot,
  rocksdb_read_options_set_timestamp, rocksdb_read_options_reset_timestamp,
  rocksdb_read_options_set_iterate_lower_bound, rocksdb_read_options_reset_iterate_lower_bound,
  rocksdb_read_options_set_iterate_upper_bound, rocksdb_read_options_reset_iterate_upper_bound,
}
use rocksdb_ts.Options.Read.Flags.{
  rocksdb_read_options_get_verify_checksums, rocksdb_read_options_get_fill_cache,
  rocksdb_read_options_get_tailing, rocksdb_read_options_get_managed,
  rocksdb_read_options_get_total_order_seek, rocksdb_read_options_get_prefix_same_as_start,
  rocksdb_read_options_get_pin_data, rocksdb_read_options_get_background_purge_on_iterator_cleanup,
  rocksdb_read_options_get_ignore_range_deletions, rocksdb_read_options_set_verify_checksums,
  rocksdb_read_options_set_fill_cache, rocksdb_read_options_set_tailing,
  rocksdb_read_options_set_managed, rocksdb_read_options_set_total_order_seek,
  rocksdb_read_options_set_prefix_same_as_start, rocksdb_read_options_set_pin_data,
  rocksdb_read_options_set_background_purge_on_iterator_cleanup,
  rocksdb_read_options_set_ignore_range_deletions,
}
use rocksdb_ts.Options.Read.Numbers.{
  rocksdb_read_options_get_max_skippable_internal_keys, rocksdb_read_options_get_read_tier,
  rocksdb_read_options_get_iter_start_seqnum, rocksdb_read_options_get_readahead_size,
  rocksdb_read_options_set_max_skippable_internal_keys, rocksdb_read_options_set_read_tier,
  rocksdb_read_options_set_iter_start_seqnum, rocksdb_read_options_set_readahead_size,
}
use rocksdb_ts.Logger.{logger_config, logger_start, logger_stop}

module _ ⦃h : Host⦄ where
  unfoldable pub bodies : List (String × Method)
  bodies =
      ("rocksdb_slice", rocksdb_slice)
      ∷ ("rocksdb_write_options_init", rocksdb_write_options_init)
      ∷ ("rocksdb_write_options_get_sync", Write.get_flag (λ o. o.sync))
      ∷ ("rocksdb_write_options_get_disableWAL", Write.get_flag (λ o. o.disable_wal))
      ∷ (
        "rocksdb_write_options_get_ignore_missing_column_families",
        Write.get_flag (λ o. o.ignore_missing_column_families),
      )
      ∷ ("rocksdb_write_options_get_no_slowdown", Write.get_flag (λ o. o.no_slowdown))
      ∷ ("rocksdb_write_options_get_low_pri", Write.get_flag (λ o. o.low_pri))
      ∷ (
        "rocksdb_write_options_set_timestamp",
        Write.set_pointer (λ p o. record o { timestamp = p }),
      )
      ∷ (
        "rocksdb_write_options_reset_timestamp",
        Write.reset_pointer_undefined (λ o. record o { timestamp = 0 }),
      )
      ∷ ("rocksdb_write_options_set_sync", Write.set_flag (λ v o. record o { sync = v }))
      ∷ (
        "rocksdb_write_options_set_disableWAL",
        Write.set_flag (λ v o. record o { disable_wal = v }),
      )
      ∷ (
        "rocksdb_write_options_set_ignore_missing_column_families",
        Write.set_flag (λ v o. record o { ignore_missing_column_families = v }),
      )
      ∷ (
        "rocksdb_write_options_set_no_slowdown",
        Write.set_flag (λ v o. record o { no_slowdown = v }),
      )
      ∷ ("rocksdb_write_options_set_low_pri", Write.set_flag (λ v o. record o { low_pri = v }))
      ∷ ("rocksdb_options_init", rocksdb_options_init)
      ∷ ("rocksdb_options_init_from_buffer", rocksdb_options_init_from_buffer)
      ∷ ("rocksdb_open", rocksdb_open)
      ∷ ("rocksdb_close", rocksdb_close)
      ∷ ("rocksdb_put", rocksdb_put)
      ∷ ("rocksdb_put_utf8", rocksdb_put_string utf8)
      ∷ ("rocksdb_put_latin1", rocksdb_put_string latin1)
      ∷ ("rocksdb_get", rocksdb_get)
      ∷ ("rocksdb_get_utf8", rocksdb_get_string utf8)
      ∷ ("rocksdb_get_latin1", rocksdb_get_string latin1)
      ∷ ("rocksdb_delete", rocksdb_delete)
      ∷ ("rocksdb_delete_utf8", rocksdb_delete_string utf8)
      ∷ ("rocksdb_delete_latin1", rocksdb_delete_string latin1)
      ∷ ("rocksdb_delete_range", rocksdb_delete_range)
      ∷ ("rocksdb_delete_range_utf8", rocksdb_delete_range_string utf8)
      ∷ ("rocksdb_delete_range_latin1", rocksdb_delete_range_string latin1)
      ∷ ("rocksdb_destroy", at_location h.rocks.destroy_db)
      ∷ ("rocksdb_repair", at_location h.rocks.repair_db)
      ∷ ("rocksdb_iterator_init", rocksdb_iterator_init)
      ∷ ("rocksdb_iterator_seek", moved_to_buffer h.rocks.seek)
      ∷ ("rocksdb_iterator_seek_utf8", moved_to_string h.rocks.seek utf8)
      ∷ ("rocksdb_iterator_seek_latin1", moved_to_string h.rocks.seek latin1)
      ∷ ("rocksdb_iterator_seek_for_prev", moved_to_buffer h.rocks.seek_for_prev)
      ∷ ("rocksdb_iterator_seek_for_prev_utf8", moved_to_string h.rocks.seek_for_prev utf8)
      ∷ ("rocksdb_iterator_seek_for_prev_latin1", moved_to_string h.rocks.seek_for_prev latin1)
      ∷ ("rocksdb_iterator_seek_for_first", moved h.rocks.seek_to_first)
      ∷ ("rocksdb_iterator_seek_for_last", moved h.rocks.seek_to_last)
      ∷ ("rocksdb_iterator_reset", moved (λ m. h.rocks.reset))
      ∷ ("rocksdb_iterator_valid", rocksdb_iterator_valid)
      ∷ ("rocksdb_iterator_refresh", rocksdb_iterator_refresh)
      ∷ ("rocksdb_iterator_next", moved h.rocks.next)
      ∷ ("rocksdb_iterator_prev", moved h.rocks.prev)
      ∷ ("rocksdb_iterator_key", read_part h.rocks.key h.napi.create_buffer_copy)
      ∷ ("rocksdb_iterator_key_utf8", read_part h.rocks.key (h.napi.create_string utf8))
      ∷ ("rocksdb_iterator_key_latin1", read_part h.rocks.key (h.napi.create_string latin1))
      ∷ ("rocksdb_iterator_value", read_part h.rocks.value h.napi.create_buffer_copy)
      ∷ ("rocksdb_iterator_value_utf8", read_part h.rocks.value (h.napi.create_string utf8))
      ∷ ("rocksdb_iterator_value_latin1", read_part h.rocks.value (h.napi.create_string latin1))
      ∷ ("rocksdb_iterator_key_value_pair", read_pair h.napi.create_buffer_copy)
      ∷ ("rocksdb_iterator_key_value_pair_of_utf8", read_pair (h.napi.create_string utf8))
      ∷ ("rocksdb_iterator_status_code", read_status h.rocks.code)
      ∷ ("rocksdb_iterator_status_subcode", read_status h.rocks.subcode)
      ∷ ("rocksdb_batch_init", rocksdb_batch_init)
      ∷ ("rocksdb_batch_init_ex", rocksdb_batch_init_ex)
      ∷ ("rocksdb_batch_put", rocksdb_batch_put)
      ∷ ("rocksdb_batch_put_utf8", rocksdb_batch_put_string utf8)
      ∷ ("rocksdb_batch_put_latin1", rocksdb_batch_put_string latin1)
      ∷ ("rocksdb_batch_delete", rocksdb_batch_delete)
      ∷ ("rocksdb_batch_delete_utf8", rocksdb_batch_delete_utf8)
      ∷ ("rocksdb_batch_delete_latin1", rocksdb_batch_delete_latin1)
      ∷ ("rocksdb_batch_clear", rocksdb_batch_clear)
      ∷ ("rocksdb_batch_write", rocksdb_batch_write)
      ∷ ("rocksdb_batch_write_async", rocksdb_batch_write_async)
      ∷ ("rocksdb_snapshot_init", rocksdb_snapshot_init)
      ∷ ("rocksdb_read_options_init", rocksdb_read_options_init)
      ∷ ("rocksdb_read_options_set_snapshot", Read.set_pointer (λ p o. record o { snapshot = p }))
      ∷ (
        "rocksdb_read_options_reset_snapshot",
        Read.reset_pointer_undefined (λ o. record o { snapshot = 0 }),
      )
      ∷ ("rocksdb_read_options_set_timestamp", Read.set_pointer (λ p o. record o { timestamp = p }))
      ∷ (
        "rocksdb_read_options_reset_timestamp",
        Read.reset_pointer_undefined (λ o. record o { timestamp = 0 }),
      )
      ∷ (
        "rocksdb_read_options_set_iterate_lower_bound",
        Read.set_pointer (λ p o. record o { iterate_lower_bound = p }),
      )
      ∷ (
        "rocksdb_read_options_reset_iterate_lower_bound",
        Read.reset_pointer (λ o. record o { iterate_lower_bound = 0 }),
      )
      ∷ (
        "rocksdb_read_options_set_iterate_upper_bound",
        Read.set_pointer (λ p o. record o { iterate_upper_bound = p }),
      )
      ∷ (
        "rocksdb_read_options_reset_iterate_upper_bound",
        Read.reset_pointer (λ o. record o { iterate_upper_bound = 0 }),
      )
      ∷ ("rocksdb_read_options_get_verify_checksums", Read.get_flag (λ o. o.verify_checksums))
      ∷ ("rocksdb_read_options_get_fill_cache", Read.get_flag (λ o. o.fill_cache))
      ∷ ("rocksdb_read_options_get_tailing", Read.get_flag (λ o. o.tailing))
      ∷ ("rocksdb_read_options_get_managed", Read.get_flag (λ o. o.managed))
      ∷ ("rocksdb_read_options_get_total_order_seek", Read.get_flag (λ o. o.total_order_seek))
      ∷ (
        "rocksdb_read_options_get_prefix_same_as_start",
        Read.get_flag (λ o. o.prefix_same_as_start),
      )
      ∷ ("rocksdb_read_options_get_pin_data", Read.get_flag (λ o. o.pin_data))
      ∷ (
        "rocksdb_read_options_get_background_purge_on_iterator_cleanup",
        Read.get_flag (λ o. o.background_purge_on_iterator_cleanup),
      )
      ∷ (
        "rocksdb_read_options_get_ignore_range_deletions",
        Read.get_flag (λ o. o.ignore_range_deletions),
      )
      ∷ (
        "rocksdb_read_options_get_max_skippable_internal_keys",
        get_uint64 (λ o. o.max_skippable_internal_keys),
      )
      ∷ ("rocksdb_read_options_get_read_tier", rocksdb_read_options_get_read_tier)
      ∷ ("rocksdb_read_options_get_iter_start_seqnum", get_uint64 (λ o. o.iter_start_seqnum))
      ∷ ("rocksdb_read_options_get_readahead_size", get_uint64 (λ o. o.readahead_size))
      ∷ (
        "rocksdb_read_options_set_verify_checksums",
        Read.set_flag (λ v o. record o { verify_checksums = v }),
      )
      ∷ ("rocksdb_read_options_set_fill_cache", Read.set_flag (λ v o. record o { fill_cache = v }))
      ∷ ("rocksdb_read_options_set_tailing", Read.set_flag (λ v o. record o { tailing = v }))
      ∷ ("rocksdb_read_options_set_managed", Read.set_flag (λ v o. record o { managed = v }))
      ∷ (
        "rocksdb_read_options_set_total_order_seek",
        Read.set_flag (λ v o. record o { total_order_seek = v }),
      )
      ∷ (
        "rocksdb_read_options_set_prefix_same_as_start",
        Read.set_flag (λ v o. record o { prefix_same_as_start = v }),
      )
      ∷ ("rocksdb_read_options_set_pin_data", Read.set_flag (λ v o. record o { pin_data = v }))
      ∷ (
        "rocksdb_read_options_set_background_purge_on_iterator_cleanup",
        Read.set_flag (λ v o. record o { background_purge_on_iterator_cleanup = v }),
      )
      ∷ (
        "rocksdb_read_options_set_ignore_range_deletions",
        Read.set_flag (λ v o. record o { ignore_range_deletions = v }),
      )
      ∷ (
        "rocksdb_read_options_set_max_skippable_internal_keys",
        set_uint64 (λ v o. record o { max_skippable_internal_keys = v }),
      )
      ∷ ("rocksdb_read_options_set_read_tier", rocksdb_read_options_set_read_tier)
      ∷ (
        "rocksdb_read_options_set_iter_start_seqnum",
        set_uint64 (λ v o. record o { iter_start_seqnum = v }),
      )
      ∷ (
        "rocksdb_read_options_set_readahead_size",
        set_uint64 (λ v o. record o { readahead_size = v % h.size_mod }),
      )
      ∷ ("logger_config", logger_config)
      ∷ ("logger_start", logger_start)
      ∷ ("logger_stop", logger_stop)
      ∷ []

  pub exports-bodies : exports ≡ bodies
  unfolding exports bodies rocksdb_write_options_get_sync rocksdb_write_options_get_disable_wal
      rocksdb_write_options_get_ignore_missing_column_families rocksdb_write_options_get_no_slowdown
      rocksdb_write_options_get_low_pri rocksdb_write_options_set_timestamp
      rocksdb_write_options_reset_timestamp rocksdb_write_options_set_sync
      rocksdb_write_options_set_disable_wal rocksdb_write_options_set_ignore_missing_column_families
      rocksdb_write_options_set_no_slowdown rocksdb_write_options_set_low_pri rocksdb_put_utf8
      rocksdb_put_latin1 rocksdb_get_utf8 rocksdb_get_latin1 rocksdb_delete_utf8
      rocksdb_delete_latin1 rocksdb_delete_range_utf8 rocksdb_delete_range_latin1 rocksdb_destroy
      rocksdb_repair rocksdb_iterator_seek rocksdb_iterator_seek_utf8 rocksdb_iterator_seek_latin1
      rocksdb_iterator_seek_for_prev rocksdb_iterator_seek_for_prev_utf8
      rocksdb_iterator_seek_for_prev_latin1 rocksdb_iterator_seek_for_first
      rocksdb_iterator_seek_for_last rocksdb_iterator_reset rocksdb_iterator_next
      rocksdb_iterator_prev rocksdb_iterator_key rocksdb_iterator_key_utf8
      rocksdb_iterator_key_latin1 rocksdb_iterator_value rocksdb_iterator_value_utf8
      rocksdb_iterator_value_latin1 rocksdb_iterator_key_value_pair
      rocksdb_iterator_key_value_pair_of_utf8 rocksdb_iterator_status_code
      rocksdb_iterator_status_subcode rocksdb_batch_put_utf8 rocksdb_batch_put_latin1
      rocksdb_read_options_set_snapshot rocksdb_read_options_reset_snapshot
      rocksdb_read_options_set_timestamp rocksdb_read_options_reset_timestamp
      rocksdb_read_options_set_iterate_lower_bound rocksdb_read_options_reset_iterate_lower_bound
      rocksdb_read_options_set_iterate_upper_bound rocksdb_read_options_reset_iterate_upper_bound
      rocksdb_read_options_get_verify_checksums rocksdb_read_options_get_fill_cache
      rocksdb_read_options_get_tailing rocksdb_read_options_get_managed
      rocksdb_read_options_get_total_order_seek rocksdb_read_options_get_prefix_same_as_start
      rocksdb_read_options_get_pin_data
      rocksdb_read_options_get_background_purge_on_iterator_cleanup
      rocksdb_read_options_get_ignore_range_deletions
      rocksdb_read_options_get_max_skippable_internal_keys
      rocksdb_read_options_get_iter_start_seqnum rocksdb_read_options_get_readahead_size
      rocksdb_read_options_set_verify_checksums rocksdb_read_options_set_fill_cache
      rocksdb_read_options_set_tailing rocksdb_read_options_set_managed
      rocksdb_read_options_set_total_order_seek rocksdb_read_options_set_prefix_same_as_start
      rocksdb_read_options_set_pin_data
      rocksdb_read_options_set_background_purge_on_iterator_cleanup
      rocksdb_read_options_set_ignore_range_deletions
      rocksdb_read_options_set_max_skippable_internal_keys
      rocksdb_read_options_set_iter_start_seqnum rocksdb_read_options_set_readahead_size
  exports-bodies = refl
