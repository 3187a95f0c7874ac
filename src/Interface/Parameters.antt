-- ===== src/Interface/Parameters.antt =====
-- The parameters of the methods of RocksBinding in src/binding.ts.
use Prim.Native.String.{String}
use rocksdb_ts.Prelude.{List, [], ◌∷◌}
use rocksdb_ts.Interface.{
  Context, batch_context, slice_context, snapshot_context, iterator_context, database_context,
  options_context, read_options_context, write_options_context,
}

-- The types of parameters. The enumeration ReadOptionsReadTier is a number.
pub data ParameterType : Type 0 where
  context : Context → ParameterType
  buffer string boolean number bigint : ParameterType

unfoldable pub parameters : List (String × List ParameterType)
parameters =
    ("rocksdb_slice", buffer ∷ [])
    ∷ ("rocksdb_write_options_init", [])
    ∷ ("rocksdb_write_options_get_sync", context write_options_context ∷ [])
    ∷ ("rocksdb_write_options_get_disableWAL", context write_options_context ∷ [])
    ∷ (
      "rocksdb_write_options_get_ignore_missing_column_families",
      context write_options_context ∷ [],
    )
    ∷ ("rocksdb_write_options_get_no_slowdown", context write_options_context ∷ [])
    ∷ ("rocksdb_write_options_get_low_pri", context write_options_context ∷ [])
    ∷ (
      "rocksdb_write_options_set_timestamp",
      context write_options_context ∷ context snapshot_context ∷ [],
    )
    ∷ ("rocksdb_write_options_reset_timestamp", context write_options_context ∷ [])
    ∷ ("rocksdb_write_options_set_sync", context write_options_context ∷ boolean ∷ [])
    ∷ ("rocksdb_write_options_set_disableWAL", context write_options_context ∷ boolean ∷ [])
    ∷ (
      "rocksdb_write_options_set_ignore_missing_column_families",
      context write_options_context ∷ boolean ∷ [],
    )
    ∷ ("rocksdb_write_options_set_no_slowdown", context write_options_context ∷ boolean ∷ [])
    ∷ ("rocksdb_write_options_set_low_pri", context write_options_context ∷ boolean ∷ [])
    ∷ ("rocksdb_options_init", [])
    ∷ ("rocksdb_options_init_from_buffer", buffer ∷ [])
    ∷ ("rocksdb_open", buffer ∷ context options_context ∷ [])
    ∷ ("rocksdb_close", context database_context ∷ [])
    ∷ (
      "rocksdb_put",
      context database_context ∷ buffer ∷ buffer ∷ context write_options_context ∷ [],
    )
    ∷ (
      "rocksdb_put_utf8",
      context database_context ∷ string ∷ string ∷ context write_options_context ∷ [],
    )
    ∷ (
      "rocksdb_put_latin1",
      context database_context ∷ string ∷ string ∷ context write_options_context ∷ [],
    )
    ∷ ("rocksdb_get", context database_context ∷ buffer ∷ context read_options_context ∷ [])
    ∷ ("rocksdb_get_utf8", context database_context ∷ string ∷ context read_options_context ∷ [])
    ∷ ("rocksdb_get_latin1", context database_context ∷ string ∷ context read_options_context ∷ [])
    ∷ ("rocksdb_delete", context database_context ∷ buffer ∷ context write_options_context ∷ [])
    ∷ (
      "rocksdb_delete_utf8",
      context database_context ∷ string ∷ context write_options_context ∷ [],
    )
    ∷ (
      "rocksdb_delete_latin1",
      context database_context ∷ string ∷ context write_options_context ∷ [],
    )
    ∷ (
      "rocksdb_delete_range",
      context database_context ∷ buffer ∷ buffer ∷ context write_options_context ∷ [],
    )
    ∷ (
      "rocksdb_delete_range_utf8",
      context database_context ∷ string ∷ string ∷ context write_options_context ∷ [],
    )
    ∷ (
      "rocksdb_delete_range_latin1",
      context database_context ∷ string ∷ string ∷ context write_options_context ∷ [],
    )
    ∷ ("rocksdb_destroy", buffer ∷ context options_context ∷ [])
    ∷ ("rocksdb_repair", buffer ∷ context options_context ∷ [])
    ∷ ("rocksdb_iterator_init", context database_context ∷ context read_options_context ∷ [])
    ∷ ("rocksdb_iterator_seek", context iterator_context ∷ buffer ∷ [])
    ∷ ("rocksdb_iterator_seek_for_prev", context iterator_context ∷ buffer ∷ [])
    ∷ ("rocksdb_iterator_seek_utf8", context iterator_context ∷ string ∷ [])
    ∷ ("rocksdb_iterator_seek_latin1", context iterator_context ∷ string ∷ [])
    ∷ ("rocksdb_iterator_seek_for_prev_utf8", context iterator_context ∷ string ∷ [])
    ∷ ("rocksdb_iterator_seek_for_prev_latin1", context iterator_context ∷ string ∷ [])
    ∷ ("rocksdb_iterator_seek_for_first", context iterator_context ∷ [])
    ∷ ("rocksdb_iterator_seek_for_last", context iterator_context ∷ [])
    ∷ ("rocksdb_iterator_reset", context iterator_context ∷ [])
    ∷ ("rocksdb_iterator_valid", context iterator_context ∷ [])
    ∷ ("rocksdb_iterator_refresh", context iterator_context ∷ [])
    ∷ ("rocksdb_iterator_next", context iterator_context ∷ [])
    ∷ ("rocksdb_iterator_prev", context iterator_context ∷ [])
    ∷ ("rocksdb_iterator_key", context iterator_context ∷ [])
    ∷ ("rocksdb_iterator_key_utf8", context iterator_context ∷ [])
    ∷ ("rocksdb_iterator_key_latin1", context iterator_context ∷ [])
    ∷ ("rocksdb_iterator_value", context iterator_context ∷ [])
    ∷ ("rocksdb_iterator_value_utf8", context iterator_context ∷ [])
    ∷ ("rocksdb_iterator_value_latin1", context iterator_context ∷ [])
    ∷ ("rocksdb_iterator_key_value_pair", context iterator_context ∷ [])
    ∷ ("rocksdb_iterator_key_value_pair_of_utf8", context iterator_context ∷ [])
    ∷ ("rocksdb_iterator_status_code", context iterator_context ∷ [])
    ∷ ("rocksdb_iterator_status_subcode", context iterator_context ∷ [])
    ∷ ("rocksdb_batch_init", [])
    ∷ ("rocksdb_batch_init_ex", bigint ∷ bigint ∷ [])
    ∷ ("rocksdb_batch_put", context batch_context ∷ buffer ∷ buffer ∷ [])
    ∷ ("rocksdb_batch_put_utf8", context batch_context ∷ string ∷ string ∷ [])
    ∷ ("rocksdb_batch_put_latin1", context batch_context ∷ string ∷ string ∷ [])
    ∷ ("rocksdb_batch_delete", context batch_context ∷ buffer ∷ [])
    ∷ ("rocksdb_batch_delete_utf8", context batch_context ∷ string ∷ [])
    ∷ ("rocksdb_batch_delete_latin1", context batch_context ∷ string ∷ [])
    ∷ ("rocksdb_batch_clear", context batch_context ∷ [])
    ∷ (
      "rocksdb_batch_write",
      context database_context ∷ context batch_context ∷ context write_options_context ∷ [],
    )
    ∷ (
      "rocksdb_batch_write_async",
      context database_context ∷ context batch_context ∷ context write_options_context ∷ [],
    )
    ∷ ("rocksdb_snapshot_init", context database_context ∷ [])
    ∷ ("rocksdb_read_options_init", [])
    ∷ (
      "rocksdb_read_options_set_timestamp",
      context read_options_context ∷ context slice_context ∷ [],
    )
    ∷ ("rocksdb_read_options_reset_timestamp", context read_options_context ∷ [])
    ∷ (
      "rocksdb_read_options_set_snapshot",
      context read_options_context ∷ context snapshot_context ∷ [],
    )
    ∷ ("rocksdb_read_options_reset_snapshot", context read_options_context ∷ [])
    ∷ (
      "rocksdb_read_options_set_iterate_lower_bound",
      context read_options_context ∷ context slice_context ∷ [],
    )
    ∷ ("rocksdb_read_options_reset_iterate_lower_bound", context read_options_context ∷ [])
    ∷ (
      "rocksdb_read_options_set_iterate_upper_bound",
      context read_options_context ∷ context slice_context ∷ [],
    )
    ∷ ("rocksdb_read_options_reset_iterate_upper_bound", context read_options_context ∷ [])
    ∷ ("rocksdb_read_options_get_verify_checksums", context read_options_context ∷ [])
    ∷ ("rocksdb_read_options_get_fill_cache", context read_options_context ∷ [])
    ∷ ("rocksdb_read_options_get_tailing", context read_options_context ∷ [])
    ∷ ("rocksdb_read_options_get_managed", context read_options_context ∷ [])
    ∷ ("rocksdb_read_options_get_total_order_seek", context read_options_context ∷ [])
    ∷ ("rocksdb_read_options_get_prefix_same_as_start", context read_options_context ∷ [])
    ∷ ("rocksdb_read_options_get_pin_data", context read_options_context ∷ [])
    ∷ (
      "rocksdb_read_options_get_background_purge_on_iterator_cleanup",
      context read_options_context ∷ [],
    )
    ∷ ("rocksdb_read_options_get_ignore_range_deletions", context read_options_context ∷ [])
    ∷ ("rocksdb_read_options_get_max_skippable_internal_keys", context read_options_context ∷ [])
    ∷ ("rocksdb_read_options_get_read_tier", context read_options_context ∷ [])
    ∷ ("rocksdb_read_options_get_iter_start_seqnum", context read_options_context ∷ [])
    ∷ ("rocksdb_read_options_get_readahead_size", context read_options_context ∷ [])
    ∷ ("rocksdb_read_options_set_verify_checksums", context read_options_context ∷ boolean ∷ [])
    ∷ ("rocksdb_read_options_set_fill_cache", context read_options_context ∷ boolean ∷ [])
    ∷ ("rocksdb_read_options_set_tailing", context read_options_context ∷ boolean ∷ [])
    ∷ ("rocksdb_read_options_set_managed", context read_options_context ∷ boolean ∷ [])
    ∷ ("rocksdb_read_options_set_total_order_seek", context read_options_context ∷ boolean ∷ [])
    ∷ ("rocksdb_read_options_set_prefix_same_as_start", context read_options_context ∷ boolean ∷ [])
    ∷ ("rocksdb_read_options_set_pin_data", context read_options_context ∷ boolean ∷ [])
    ∷ (
      "rocksdb_read_options_set_background_purge_on_iterator_cleanup",
      context read_options_context ∷ boolean ∷ [],
    )
    ∷ (
      "rocksdb_read_options_set_ignore_range_deletions",
      context read_options_context ∷ boolean ∷ [],
    )
    ∷ (
      "rocksdb_read_options_set_max_skippable_internal_keys",
      context read_options_context ∷ bigint ∷ [],
    )
    ∷ ("rocksdb_read_options_set_read_tier", context read_options_context ∷ number ∷ [])
    ∷ ("rocksdb_read_options_set_iter_start_seqnum", context read_options_context ∷ bigint ∷ [])
    ∷ ("rocksdb_read_options_set_readahead_size", context read_options_context ∷ bigint ∷ [])
    ∷ ("logger_config", buffer ∷ [])
    ∷ ("logger_start", [])
    ∷ ("logger_stop", [])
    ∷ []
