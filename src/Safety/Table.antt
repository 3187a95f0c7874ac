-- ===== src/Safety/Table.antt =====
-- The table of NAPI_INIT, its methods called with arguments of the types that src/binding.ts declares.
use Prim.Native.String.{String}
use rocksdb_ts.Prelude.{Option, none, some, List}
use rocksdb_ts.Host.{Host}
use rocksdb_ts.Machine.{State, Method}
use rocksdb_ts.Interface.Parameters.{ParameterType}
use rocksdb_ts.Safety.{IsCall, EndsIn}
use rocksdb_ts.Safety.Steps.{Safe-EndsIn}
use rocksdb_ts.Safety.Options.{
  rocksdb_slice-Safe, rocksdb_write_options_init-Safe, rocksdb_read_options_init-Safe,
  rocksdb_options_init-Safe, rocksdb_options_init_from_buffer-Safe, write_get_flag-Safe,
  write_set_flag-Safe, write_set_pointer-Safe, write_reset_pointer_undefined-Safe,
  read_get_flag-Safe, read_set_flag-Safe, read_set_pointer-Safe, read_reset_pointer_undefined-Safe,
  reset_pointer-Safe, get_uint64-Safe, set_uint64-Safe, rocksdb_read_options_get_read_tier-Safe,
  rocksdb_read_options_set_read_tier-Safe,
}
use rocksdb_ts.Safety.Database.{
  rocksdb_put-Safe, rocksdb_get-Safe, rocksdb_delete-Safe, rocksdb_delete_range-Safe,
  rocksdb_close-Safe, at_location-Safe, rocksdb_snapshot_init-Safe,
}
use rocksdb_ts.Safety.Iterators.{
  rocksdb_iterator_init-Safe, moved-Safe, moved_to_buffer-Safe, rocksdb_iterator_valid-Safe,
  rocksdb_iterator_refresh-Safe, read_part-Safe, read_pair-Safe, read_status-Safe,
  rocksdb_batch_init-Safe, rocksdb_batch_init_ex-Safe, rocksdb_batch_put-Safe,
  rocksdb_batch_delete-Safe, rocksdb_batch_clear-Safe, rocksdb_batch_write-Safe,
}
use rocksdb_ts.Safety.Strings.{
  rocksdb_put_string-Safe, rocksdb_get_string-Safe, rocksdb_delete_string-Safe,
  rocksdb_delete_range_string-Safe, moved_to_string-Safe, rocksdb_batch_put_string-Safe,
  rocksdb_batch_delete_utf8-Safe, rocksdb_batch_delete_latin1-Safe,
}
use rocksdb_ts.Safety.Open.{
  rocksdb_open-Safe, logger_config-Safe, logger_start-Safe, logger_stop-Safe,
}
use rocksdb_ts.Safety.Async.{rocksdb_batch_write_async-EndsIn}

module _ ⦃h : Host⦄ where
  -- The method has a row of parameters, and ends with arguments of their types.
  abbrev Row : State → h.napi.Info → Option (List ParameterType) → Method → Type 0
  Row s info none m = ⊥
  Row s info (some τs) m = IsCall s τs info → EndsIn s (m info)

  ruleset call_rules = (
    rocksdb_slice-Safe, rocksdb_write_options_init-Safe, rocksdb_read_options_init-Safe,
    rocksdb_options_init-Safe, rocksdb_options_init_from_buffer-Safe, write_get_flag-Safe,
    write_set_flag-Safe, write_set_pointer-Safe, write_reset_pointer_undefined-Safe,
    read_get_flag-Safe, read_set_flag-Safe, read_set_pointer-Safe,
    read_reset_pointer_undefined-Safe, reset_pointer-Safe, get_uint64-Safe, set_uint64-Safe,
    rocksdb_read_options_get_read_tier-Safe, rocksdb_read_options_set_read_tier-Safe,
    rocksdb_put-Safe, rocksdb_get-Safe, rocksdb_delete-Safe, rocksdb_delete_range-Safe,
    rocksdb_close-Safe, at_location-Safe, rocksdb_snapshot_init-Safe, rocksdb_iterator_init-Safe,
    moved-Safe, moved_to_buffer-Safe, rocksdb_iterator_valid-Safe, rocksdb_iterator_refresh-Safe,
    read_part-Safe, read_pair-Safe, read_status-Safe, rocksdb_batch_init-Safe,
    rocksdb_batch_init_ex-Safe, rocksdb_batch_put-Safe, rocksdb_batch_delete-Safe,
    rocksdb_batch_clear-Safe, rocksdb_batch_write-Safe, rocksdb_put_string-Safe,
    rocksdb_get_string-Safe, rocksdb_delete_string-Safe, rocksdb_delete_range_string-Safe,
    moved_to_string-Safe, rocksdb_batch_put_string-Safe, rocksdb_batch_delete_utf8-Safe,
    rocksdb_batch_delete_latin1-Safe, rocksdb_open-Safe, logger_config-Safe, logger_start-Safe,
    logger_stop-Safe, rocksdb_batch_write_async-EndsIn, Safe-EndsIn,
  )
