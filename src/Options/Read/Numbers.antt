-- ===== src/Options/Read/Numbers.antt =====
-- The numeric fields of rocksdb::ReadOptions. A uint64_t is below 2 ^ 64; `size_t` may be narrower,
-- and an int32_t is given by its bit pattern.
use rocksdb_ts.Prelude.{ℕ, ◌%◌, none}
use rocksdb_ts.Host.{Host, ReadOptions}
use rocksdb_ts.Machine.{◌>>=◌, ◌>>◌, Method}
use rocksdb_ts.Machine.Effects.{load_read_options}
use rocksdb_ts.Machine.Macros.{
  make, napi_argv, from_external_argument, int32_argument, uint64_argument, return_undefined,
}
use rocksdb_ts.Options.Read.{assign}

module _ ⦃h : Host⦄ where
  -- The body that the getters of a bigint share.
  unfoldable pub get_uint64 : (ReadOptions → ℕ) → Method
  unfolding napi_argv from_external_argument load_read_options make
  get_uint64 field info = do
    argv ← napi_argv 1 info
    options ← from_external_argument (argv 0)
    o ← load_read_options options
    make none (h.napi.create_bigint_uint64 (field o))

  -- The body that the setters of a bigint share.
  unfoldable pub set_uint64 : (ℕ → ReadOptions → ReadOptions) → Method
  unfolding napi_argv from_external_argument uint64_argument assign
  set_uint64 change info = do
    argv ← napi_argv 2 info
    options ← from_external_argument (argv 0)
    value ← uint64_argument (argv 1)
    assign options (change value)
    return_undefined

  unfoldable pub rocksdb_read_options_get_max_skippable_internal_keys : Method
  unfolding get_uint64
  rocksdb_read_options_get_max_skippable_internal_keys =
      get_uint64 (λ o. o.max_skippable_internal_keys)

  unfoldable pub rocksdb_read_options_get_read_tier : Method
  unfolding napi_argv from_external_argument load_read_options make
  rocksdb_read_options_get_read_tier info = do
    argv ← napi_argv 1 info
    options ← from_external_argument (argv 0)
    o ← load_read_options options
    make none (h.napi.create_int32 o.read_tier)

  unfoldable pub rocksdb_read_options_get_iter_start_seqnum : Method
  unfolding get_uint64
  rocksdb_read_options_get_iter_start_seqnum = get_uint64 (λ o. o.iter_start_seqnum)

  unfoldable pub rocksdb_read_options_get_readahead_size : Method
  unfolding get_uint64
  rocksdb_read_options_get_readahead_size = get_uint64 (λ o. o.readahead_size)

  unfoldable pub rocksdb_read_options_set_max_skippable_internal_keys : Method
  unfolding set_uint64
  rocksdb_read_options_set_max_skippable_internal_keys =
      set_uint64 (λ v o. record o { max_skippable_internal_keys = v })

  unfoldable pub rocksdb_read_options_set_read_tier : Method
  unfolding napi_argv from_external_argument int32_argument assign
  rocksdb_read_options_set_read_tier info = do
    argv ← napi_argv 2 info
    options ← from_external_argument (argv 0)
    value ← int32_argument (argv 1)
    assign options (λ o. record o { read_tier = h.rocks.read_tier_of_int value })
    return_undefined

  unfoldable pub rocksdb_read_options_set_iter_start_seqnum : Method
  unfolding set_uint64
  rocksdb_read_options_set_iter_start_seqnum =
      set_uint64 (λ v o. record o { iter_start_seqnum = v })

  -- The cast to `size_t` wraps.
  unfoldable pub rocksdb_read_options_set_readahead_size : Method
  unfolding set_uint64
  rocksdb_read_options_set_readahead_size =
      set_uint64 (λ v o. record o { readahead_size = v % h.size_mod })
