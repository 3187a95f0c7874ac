-- ===== src/Options/Write.antt =====
-- rocksdb::WriteOptions objects: rocksdb_write_options_* of binding.cc.
pub mod Fields
use rocksdb_ts.Prelude.{Bool, none, some, ◌==◌, if◌then◌else◌}
use rocksdb_ts.Host.{Host, Address, Finalizer, WriteOptions}
use rocksdb_ts.Machine.{write_options_cell, M, pure, ◌>>=◌, ◌>>◌, Method}
use rocksdb_ts.Machine.Effects.{new, put_cell, load_write_options, delete_write_options}
use rocksdb_ts.Machine.Macros.{
  make, napi_argv, from_external_argument, bool_argument, return_external, return_undefined,
}

module _ ⦃h : Host⦄ where
  unfoldable pub rocksdb_write_options_finalize : Address → M (Unit {0})
  unfolding delete_write_options
  rocksdb_write_options_finalize p = if p == 0 then pure tt else delete_write_options p

  unfoldable pub rocksdb_write_options_init : Method
  unfolding new return_external
  rocksdb_write_options_init info = do
    options ← new (write_options_cell h.rocks.default_write_options)
    return_external options Finalizer.rocksdb_write_options_finalize 0

  -- The body that the getters of a flag share.
  unfoldable pub get_flag : (WriteOptions → Bool) → Method
  unfolding napi_argv from_external_argument load_write_options make
  get_flag field info = do
    argv ← napi_argv 1 info
    options ← from_external_argument (argv 0)
    o ← load_write_options options
    make none (h.napi.get_boolean (field o))

  -- An assignment to a field of the struct.
  unfoldable pub assign : Address → (WriteOptions → WriteOptions) → M (Unit {0})
  unfolding load_write_options
  assign options change = do
    o ← load_write_options options
    put_cell options (some (write_options_cell (change o)))

  -- The body that the setters of a flag share.
  unfoldable pub set_flag : (Bool → WriteOptions → WriteOptions) → Method
  unfolding napi_argv from_external_argument bool_argument assign
  set_flag change info = do
    argv ← napi_argv 2 info
    options ← from_external_argument (argv 0)
    value ← bool_argument (argv 1)
    assign options (change value)
    return_undefined

  -- The body that the setters of a pointer share.
  unfoldable pub set_pointer : (Address → WriteOptions → WriteOptions) → Method
  unfolding napi_argv from_external_argument assign
  set_pointer change info = do
    argv ← napi_argv 2 info
    options ← from_external_argument (argv 0)
    target ← from_external_argument (argv 1)
    assign options (change target)
    return_undefined

  -- The resets that also ask the engine for `undefined`, which they do not use.
  unfoldable pub reset_pointer_undefined : (WriteOptions → WriteOptions) → Method
  unfolding napi_argv from_external_argument make assign
  reset_pointer_undefined change info = do
    argv ← napi_argv 2 info
    options ← from_external_argument (argv 0)
    make none h.napi.get_undefined
    assign options change
    return_undefined

  unfoldable pub rocksdb_write_options_get_sync : Method
  unfolding get_flag
  rocksdb_write_options_get_sync = get_flag (λ o. o.sync)

  unfoldable pub rocksdb_write_options_get_disable_wal : Method
  unfolding get_flag
  rocksdb_write_options_get_disable_wal = get_flag (λ o. o.disable_wal)

  unfoldable pub rocksdb_write_options_get_ignore_missing_column_families : Method
  unfolding get_flag
  rocksdb_write_options_get_ignore_missing_column_families =
      get_flag (λ o. o.ignore_missing_column_families)

  unfoldable pub rocksdb_write_options_get_no_slowdown : Method
  unfolding get_flag
  rocksdb_write_options_get_no_slowdown = get_flag (λ o. o.no_slowdown)

  unfoldable pub rocksdb_write_options_get_low_pri : Method
  unfolding get_flag
  rocksdb_write_options_get_low_pri = get_flag (λ o. o.low_pri)

  unfoldable pub rocksdb_write_options_set_timestamp : Method
  unfolding set_pointer
  rocksdb_write_options_set_timestamp = set_pointer (λ p o. record o { timestamp = p })

  unfoldable pub rocksdb_write_options_reset_timestamp : Method
  unfolding reset_pointer_undefined
  rocksdb_write_options_reset_timestamp = reset_pointer_undefined (λ o. record o { timestamp = 0 })

  unfoldable pub rocksdb_write_options_set_sync : Method
  unfolding set_flag
  rocksdb_write_options_set_sync = set_flag (λ v o. record o { sync = v })

  unfoldable pub rocksdb_write_options_set_disable_wal : Method
  unfolding set_flag
  rocksdb_write_options_set_disable_wal = set_flag (λ v o. record o { disable_wal = v })

  unfoldable pub rocksdb_write_options_set_ignore_missing_column_families : Method
  unfolding set_flag
  rocksdb_write_options_set_ignore_missing_column_families =
      set_flag (λ v o. record o { ignore_missing_column_families = v })

  unfoldable pub rocksdb_write_options_set_no_slowdown : Method
  unfolding set_flag
  rocksdb_write_options_set_no_slowdown = set_flag (λ v o. record o { no_slowdown = v })

  unfoldable pub rocksdb_write_options_set_low_pri : Method
  unfolding set_flag
  rocksdb_write_options_set_low_pri = set_flag (λ v o. record o { low_pri = v })
