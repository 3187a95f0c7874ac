-- ===== src/Ownership/Table.antt =====
-- Every function of NAPI_INIT, in the order of that table.
use rocksdb_ts.Prelude.{All, subst, sym}
use rocksdb_ts.Host.{Host}
use rocksdb_ts.Exports.{exports}
use rocksdb_ts.Exports.Bodies.{bodies, exports-bodies}
use rocksdb_ts.Ownership.Options.{
  rocksdb_slice-IsTame, rocksdb_options_init-IsTame, rocksdb_options_init_from_buffer-IsTame,
}
use rocksdb_ts.Ownership.WriteOptions as Write
use rocksdb_ts.Ownership.ReadOptions as Read
use rocksdb_ts.Ownership.Open.{
  rocksdb_open-IsTame, rocksdb_batch_init-IsTame, rocksdb_batch_init_ex-IsTame,
  rocksdb_snapshot_init-IsTame,
}
use rocksdb_ts.Ownership.Database.{
  rocksdb_close-IsSteady, rocksdb_put-IsSteady, rocksdb_put_string-IsSteady, rocksdb_get-IsSteady,
  rocksdb_get_string-IsSteady, rocksdb_delete-IsSteady, rocksdb_delete_string-IsSteady,
  rocksdb_delete_range-IsSteady, rocksdb_delete_range_string-IsSteady, at_location-IsSteady,
}
use rocksdb_ts.Ownership.Iterators.{
  rocksdb_iterator_init-IsTame, moved_to_buffer-IsSteady, moved_to_string-IsSteady, moved-IsSteady,
  rocksdb_iterator_valid-IsSteady, rocksdb_iterator_refresh-IsSteady, read_part-IsSteady,
  read_pair-IsSteady, read_status-IsSteady,
}
use rocksdb_ts.Ownership.Batches.{
  rocksdb_batch_put-IsSteady, rocksdb_batch_put_string-IsSteady, rocksdb_batch_delete-IsSteady,
  rocksdb_batch_delete_utf8-IsSteady, rocksdb_batch_delete_latin1-IsSteady,
  rocksdb_batch_clear-IsSteady, rocksdb_batch_write-IsSteady,
}
use rocksdb_ts.Ownership.Async.{
  rocksdb_batch_write_async-IsTame, logger_config-IsSteady, logger_start-IsSteady,
  logger_stop-IsSteady,
}
use rocksdb_ts.Ownership.{IsTame}
use rocksdb_ts.Ownership.Steps.{IsTame-of}

module _ ⦃h : Host⦄ where
  ruleset method_rules = (
    IsTame-of, rocksdb_slice-IsTame, rocksdb_options_init-IsTame,
    rocksdb_options_init_from_buffer-IsTame, Write.rocksdb_write_options_init-IsTame,
    Write.get_flag-IsSteady, Write.set_pointer-IsSteady, Write.reset_pointer_undefined-IsSteady,
    Write.set_flag-IsSteady, Read.get_flag-IsSteady, Read.set_pointer-IsSteady,
    Read.reset_pointer_undefined-IsSteady, Read.set_flag-IsSteady,
    Read.rocksdb_read_options_init-IsTame, Read.reset_pointer-IsSteady, Read.get_uint64-IsSteady,
    Read.rocksdb_read_options_get_read_tier-IsSteady, Read.set_uint64-IsSteady,
    Read.rocksdb_read_options_set_read_tier-IsSteady, rocksdb_open-IsTame,
    rocksdb_batch_init-IsTame, rocksdb_batch_init_ex-IsTame, rocksdb_snapshot_init-IsTame,
    rocksdb_close-IsSteady, rocksdb_put-IsSteady, rocksdb_put_string-IsSteady, rocksdb_get-IsSteady,
    rocksdb_get_string-IsSteady, rocksdb_delete-IsSteady, rocksdb_delete_string-IsSteady,
    rocksdb_delete_range-IsSteady, rocksdb_delete_range_string-IsSteady, at_location-IsSteady,
    rocksdb_iterator_init-IsTame, moved_to_buffer-IsSteady, moved_to_string-IsSteady,
    moved-IsSteady, rocksdb_iterator_valid-IsSteady, rocksdb_iterator_refresh-IsSteady,
    read_part-IsSteady, read_pair-IsSteady, read_status-IsSteady, rocksdb_batch_put-IsSteady,
    rocksdb_batch_put_string-IsSteady, rocksdb_batch_delete-IsSteady,
    rocksdb_batch_delete_utf8-IsSteady, rocksdb_batch_delete_latin1-IsSteady,
    rocksdb_batch_clear-IsSteady, rocksdb_batch_write-IsSteady, rocksdb_batch_write_async-IsTame,
    logger_config-IsSteady, logger_start-IsSteady, logger_stop-IsSteady,
  )

  bodies-IsTame : All (λ m. (info : h.napi.Info) → IsTame (m.1 info)) bodies
  unfolding bodies
  bodies-IsTame = search method_rules depth 2

  -- No exported method, with any arguments and in any state, harms an object that a finalizer will
  -- free, and what it registers with the engine it has made itself, each object once.
  pub exports-IsTame : All (λ m. (info : h.napi.Info) → IsTame (m.1 info)) exports
  exports-IsTame =
      subst (All (λ m. (info : h.napi.Info) → IsTame (m.1 info))) (sym exports-bodies) bodies-IsTame
