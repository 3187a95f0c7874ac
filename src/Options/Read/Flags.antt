-- ===== src/Options/Read/Flags.antt =====
-- The Boolean fields of rocksdb::ReadOptions.
use rocksdb_ts.Host.{Host}
use rocksdb_ts.Machine.{Method}
use rocksdb_ts.Options.Read.{get_flag, set_flag}

module _ ⦃h : Host⦄ where
  unfoldable pub rocksdb_read_options_get_verify_checksums : Method
  unfolding get_flag
  rocksdb_read_options_get_verify_checksums = get_flag (λ o. o.verify_checksums)

  unfoldable pub rocksdb_read_options_get_fill_cache : Method
  unfolding get_flag
  rocksdb_read_options_get_fill_cache = get_flag (λ o. o.fill_cache)

  unfoldable pub rocksdb_read_options_get_tailing : Method
  unfolding get_flag
  rocksdb_read_options_get_tailing = get_flag (λ o. o.tailing)

  unfoldable pub rocksdb_read_options_get_managed : Method
  unfolding get_flag
  rocksdb_read_options_get_managed = get_flag (λ o. o.managed)

  unfoldable pub rocksdb_read_options_get_total_order_seek : Method
  unfolding get_flag
  rocksdb_read_options_get_total_order_seek = get_flag (λ o. o.total_order_seek)

  unfoldable pub rocksdb_read_options_get_prefix_same_as_start : Method
  unfolding get_flag
  rocksdb_read_options_get_prefix_same_as_start = get_flag (λ o. o.prefix_same_as_start)

  unfoldable pub rocksdb_read_options_get_pin_data : Method
  unfolding get_flag
  rocksdb_read_options_get_pin_data = get_flag (λ o. o.pin_data)

  unfoldable pub rocksdb_read_options_get_background_purge_on_iterator_cleanup : Method
  unfolding get_flag
  rocksdb_read_options_get_background_purge_on_iterator_cleanup =
      get_flag (λ o. o.background_purge_on_iterator_cleanup)

  unfoldable pub rocksdb_read_options_get_ignore_range_deletions : Method
  unfolding get_flag
  rocksdb_read_options_get_ignore_range_deletions = get_flag (λ o. o.ignore_range_deletions)

  unfoldable pub rocksdb_read_options_set_verify_checksums : Method
  unfolding set_flag
  rocksdb_read_options_set_verify_checksums = set_flag (λ v o. record o { verify_checksums = v })

  unfoldable pub rocksdb_read_options_set_fill_cache : Method
  unfolding set_flag
  rocksdb_read_options_set_fill_cache = set_flag (λ v o. record o { fill_cache = v })

  unfoldable pub rocksdb_read_options_set_tailing : Method
  unfolding set_flag
  rocksdb_read_options_set_tailing = set_flag (λ v o. record o { tailing = v })

  unfoldable pub rocksdb_read_options_set_managed : Method
  unfolding set_flag
  rocksdb_read_options_set_managed = set_flag (λ v o. record o { managed = v })

  unfoldable pub rocksdb_read_options_set_total_order_seek : Method
  unfolding set_flag
  rocksdb_read_options_set_total_order_seek = set_flag (λ v o. record o { total_order_seek = v })

  unfoldable pub rocksdb_read_options_set_prefix_same_as_start : Method
  unfolding set_flag
  rocksdb_read_options_set_prefix_same_as_start =
      set_flag (λ v o. record o { prefix_same_as_start = v })

  unfoldable pub rocksdb_read_options_set_pin_data : Method
  unfolding set_flag
  rocksdb_read_options_set_pin_data = set_flag (λ v o. record o { pin_data = v })

  unfoldable pub rocksdb_read_options_set_background_purge_on_iterator_cleanup : Method
  unfolding set_flag
  rocksdb_read_options_set_background_purge_on_iterator_cleanup =
      set_flag (λ v o. record o { background_purge_on_iterator_cleanup = v })

  unfoldable pub rocksdb_read_options_set_ignore_range_deletions : Method
  unfolding set_flag
  rocksdb_read_options_set_ignore_range_deletions =
      set_flag (λ v o. record o { ignore_range_deletions = v })
