-- ===== src/Interface.antt =====
-- The interface RocksBinding of src/binding.ts: the methods that the TypeScript side of the package
-- expects of the module, each with the type of its result.
pub mod Conforms
pub mod Guards
pub mod Methods
pub mod Parameters
pub mod Promises
pub mod Results
pub mod Values
use Prim.Native.String.{String}
use text.Mathlib.Text.{◌==◌}
use rocksdb_ts.Prelude.{Bool, Option, none, some, List, [], ◌∷◌, if◌then◌else◌}

-- The contexts that `Unique` tells apart.
pub data Context : Type 0 where
  batch_context slice_context snapshot_context iterator_context : Context
  database_context options_context read_options_context write_options_context : Context

-- The types of results. The three enumerations of the file are numbers.
pub data ResultType : Type 0 where
  void boolean number bigint buffer string promise : ResultType
  context : Context → ResultType
  pair : ResultType → ResultType

abbrev pub find {ℓ} : {A : Type ℓ} → String → List (String × A) → Option A
find name [] = none
find name ((key, a) ∷ rows) = if key == name then some a else find name rows

unfoldable pub interface : List (String × ResultType)
interface =
    ("rocksdb_slice", context slice_context)
    ∷ ("rocksdb_write_options_init", context write_options_context)
    ∷ ("rocksdb_write_options_get_sync", boolean)
    ∷ ("rocksdb_write_options_get_disableWAL", boolean)
    ∷ ("rocksdb_write_options_get_ignore_missing_column_families", boolean)
    ∷ ("rocksdb_write_options_get_no_slowdown", boolean)
    ∷ ("rocksdb_write_options_get_low_pri", boolean)
    ∷ ("rocksdb_write_options_set_timestamp", void)
    ∷ ("rocksdb_write_options_reset_timestamp", void)
    ∷ ("rocksdb_write_options_set_sync", void)
    ∷ ("rocksdb_write_options_set_disableWAL", void)
    ∷ ("rocksdb_write_options_set_ignore_missing_column_families", void)
    ∷ ("rocksdb_write_options_set_no_slowdown", void)
    ∷ ("rocksdb_write_options_set_low_pri", void)
    ∷ ("rocksdb_options_init", context options_context)
    ∷ ("rocksdb_options_init_from_buffer", context options_context)
    ∷ ("rocksdb_open", context database_context)
    ∷ ("rocksdb_close", void)
    ∷ ("rocksdb_put", void)
    ∷ ("rocksdb_put_utf8", void)
    ∷ ("rocksdb_put_latin1", void)
    ∷ ("rocksdb_get", buffer)
    ∷ ("rocksdb_get_utf8", string)
    ∷ ("rocksdb_get_latin1", string)
    ∷ ("rocksdb_delete", void)
    ∷ ("rocksdb_delete_utf8", void)
    ∷ ("rocksdb_delete_latin1", void)
    ∷ ("rocksdb_delete_range", void)
    ∷ ("rocksdb_delete_range_utf8", void)
    ∷ ("rocksdb_delete_range_latin1", void)
    ∷ ("rocksdb_destroy", void)
    ∷ ("rocksdb_repair", void)
    ∷ ("rocksdb_iterator_init", context iterator_context)
    ∷ ("rocksdb_iterator_seek", boolean)
    ∷ ("rocksdb_iterator_seek_for_prev", boolean)
    ∷ ("rocksdb_iterator_seek_utf8", boolean)
    ∷ ("rocksdb_iterator_seek_latin1", boolean)
    ∷ ("rocksdb_iterator_seek_for_prev_utf8", boolean)
    ∷ ("rocksdb_iterator_seek_for_prev_latin1", boolean)
    ∷ ("rocksdb_iterator_seek_for_first", boolean)
    ∷ ("rocksdb_iterator_seek_for_last", boolean)
    ∷ ("rocksdb_iterator_reset", boolean)
    ∷ ("rocksdb_iterator_valid", boolean)
    ∷ ("rocksdb_iterator_refresh", boolean)
    ∷ ("rocksdb_iterator_next", boolean)
    ∷ ("rocksdb_iterator_prev", boolean)
    ∷ ("rocksdb_iterator_key", buffer)
    ∷ ("rocksdb_iterator_key_utf8", string)
    ∷ ("rocksdb_iterator_key_latin1", string)
    ∷ ("rocksdb_iterator_value", buffer)
    ∷ ("rocksdb_iterator_value_utf8", string)
    ∷ ("rocksdb_iterator_value_latin1", string)
    ∷ ("rocksdb_iterator_key_value_pair", pair buffer)
    ∷ ("rocksdb_iterator_key_value_pair_of_utf8", pair string)
    ∷ ("rocksdb_iterator_status_code", number)
    ∷ ("rocksdb_iterator_status_subcode", number)
    ∷ ("rocksdb_batch_init", context batch_context)
    ∷ ("rocksdb_batch_init_ex", context batch_context)
    ∷ ("rocksdb_batch_put", void)
    ∷ ("rocksdb_batch_put_utf8", void)
    ∷ ("rocksdb_batch_put_latin1", void)
    ∷ ("rocksdb_batch_delete", void)
    ∷ ("rocksdb_batch_delete_utf8", void)
    ∷ ("rocksdb_batch_delete_latin1", void)
    ∷ ("rocksdb_batch_clear", void)
    ∷ ("rocksdb_batch_write", void)
    ∷ ("rocksdb_batch_write_async", promise)
    ∷ ("rocksdb_snapshot_init", context snapshot_context)
    ∷ ("rocksdb_read_options_init", context read_options_context)
    ∷ ("rocksdb_read_options_set_timestamp", void)
    ∷ ("rocksdb_read_options_reset_timestamp", void)
    ∷ ("rocksdb_read_options_set_snapshot", void)
    ∷ ("rocksdb_read_options_reset_snapshot", void)
    ∷ ("rocksdb_read_options_set_iterate_lower_bound", void)
    ∷ ("rocksdb_read_options_reset_iterate_lower_bound", void)
    ∷ ("rocksdb_read_options_set_iterate_upper_bound", void)
    ∷ ("rocksdb_read_options_reset_iterate_upper_bound", void)
    ∷ ("rocksdb_read_options_get_verify_checksums", boolean)
    ∷ ("rocksdb_read_options_get_fill_cache", boolean)
    ∷ ("rocksdb_read_options_get_tailing", boolean)
    ∷ ("rocksdb_read_options_get_managed", boolean)
    ∷ ("rocksdb_read_options_get_total_order_seek", boolean)
    ∷ ("rocksdb_read_options_get_prefix_same_as_start", boolean)
    ∷ ("rocksdb_read_options_get_pin_data", boolean)
    ∷ ("rocksdb_read_options_get_background_purge_on_iterator_cleanup", boolean)
    ∷ ("rocksdb_read_options_get_ignore_range_deletions", boolean)
    ∷ ("rocksdb_read_options_get_max_skippable_internal_keys", bigint)
    ∷ ("rocksdb_read_options_get_read_tier", number)
    ∷ ("rocksdb_read_options_get_iter_start_seqnum", bigint)
    ∷ ("rocksdb_read_options_get_readahead_size", bigint)
    ∷ ("rocksdb_read_options_set_verify_checksums", void)
    ∷ ("rocksdb_read_options_set_fill_cache", void)
    ∷ ("rocksdb_read_options_set_tailing", void)
    ∷ ("rocksdb_read_options_set_managed", void)
    ∷ ("rocksdb_read_options_set_total_order_seek", void)
    ∷ ("rocksdb_read_options_set_prefix_same_as_start", void)
    ∷ ("rocksdb_read_options_set_pin_data", void)
    ∷ ("rocksdb_read_options_set_background_purge_on_iterator_cleanup", void)
    ∷ ("rocksdb_read_options_set_ignore_range_deletions", void)
    ∷ ("rocksdb_read_options_set_max_skippable_internal_keys", void)
    ∷ ("rocksdb_read_options_set_read_tier", void)
    ∷ ("rocksdb_read_options_set_iter_start_seqnum", void)
    ∷ ("rocksdb_read_options_set_readahead_size", void)
    ∷ ("logger_config", void)
    ∷ ("logger_start", void)
    ∷ ("logger_stop", void)
    ∷ []
