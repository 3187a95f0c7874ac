-- ===== src/Options/Read.antt =====
-- rocksdb::ReadOptions objects: rocksdb_read_options_* of binding.cc.
pub mod Bigints
pub mod Fields
pub mod Flags
pub mod Numbers
pub mod Pointers
use rocksdb_ts.Prelude.{Bool, none, some, ◌==◌, if◌then◌else◌}
use rocksdb_ts.Host.{Host, Address, Finalizer, ReadOptions}
use rocksdb_ts.Machine.{read_options_cell, M, pure, ◌>>=◌, ◌>>◌, Method}
use rocksdb_ts.Machine.Effects.{new, put_cell, load_read_options, delete_read_options}
use rocksdb_ts.Machine.Macros.{
  make, napi_argv, from_external_argument, bool_argument, return_external, return_undefined,
}

module _ ⦃h : Host⦄ where
  unfoldable pub rocksdb_read_options_finalize : Address → M (Unit {0})
  unfolding delete_read_options
  rocksdb_read_options_finalize p = if p == 0 then pure tt else delete_read_options p

  unfoldable pub rocksdb_read_options_init : Method
  unfolding new return_external
  rocksdb_read_options_init info = do
    options ← new (read_options_cell h.rocks.default_read_options)
    return_external options Finalizer.rocksdb_read_options_finalize 0

  -- The body that the getters of a flag share.
  unfoldable pub get_flag : (ReadOptions → Bool) → Method
  unfolding napi_argv from_external_argument load_read_options make
  get_flag field info = do
    argv ← napi_argv 1 info
    options ← from_external_argument (argv 0)
    o ← load_read_options options
    make none (h.napi.get_boolean (field o))

  -- An assignment to a field of the struct.
  unfoldable pub assign : Address → (ReadOptions → ReadOptions) → M (Unit {0})
  unfolding load_read_options
  assign options change = do
    o ← load_read_options options
    put_cell options (some (read_options_cell (change o)))

  -- The body that the setters of a flag share.
  unfoldable pub set_flag : (Bool → ReadOptions → ReadOptions) → Method
  unfolding napi_argv from_external_argument bool_argument assign
  set_flag change info = do
    argv ← napi_argv 2 info
    options ← from_external_argument (argv 0)
    value ← bool_argument (argv 1)
    assign options (change value)
    return_undefined

  -- The body that the setters of a pointer share.
  unfoldable pub set_pointer : (Address → ReadOptions → ReadOptions) → Method
  unfolding napi_argv from_external_argument assign
  set_pointer change info = do
    argv ← napi_argv 2 info
    options ← from_external_argument (argv 0)
    target ← from_external_argument (argv 1)
    assign options (change target)
    return_undefined

  -- The resets that also ask the engine for `undefined`, which they do not use.
  unfoldable pub reset_pointer_undefined : (ReadOptions → ReadOptions) → Method
  unfolding napi_argv from_external_argument make assign
  reset_pointer_undefined change info = do
    argv ← napi_argv 2 info
    options ← from_external_argument (argv 0)
    make none h.napi.get_undefined
    assign options change
    return_undefined

  unfoldable pub reset_pointer : (ReadOptions → ReadOptions) → Method
  unfolding napi_argv from_external_argument assign
  reset_pointer change info = do
    argv ← napi_argv 1 info
    options ← from_external_argument (argv 0)
    assign options change
    return_undefined

  unfoldable pub rocksdb_read_options_set_snapshot : Method
  unfolding set_pointer
  rocksdb_read_options_set_snapshot = set_pointer (λ p o. record o { snapshot = p })

  unfoldable pub rocksdb_read_options_reset_snapshot : Method
  unfolding reset_pointer_undefined
  rocksdb_read_options_reset_snapshot = reset_pointer_undefined (λ o. record o { snapshot = 0 })

  unfoldable pub rocksdb_read_options_set_timestamp : Method
  unfolding set_pointer
  rocksdb_read_options_set_timestamp = set_pointer (λ p o. record o { timestamp = p })

  unfoldable pub rocksdb_read_options_reset_timestamp : Method
  unfolding reset_pointer_undefined
  rocksdb_read_options_reset_timestamp = reset_pointer_undefined (λ o. record o { timestamp = 0 })

  unfoldable pub rocksdb_read_options_set_iterate_lower_bound : Method
  unfolding set_pointer
  rocksdb_read_options_set_iterate_lower_bound =
      set_pointer (λ p o. record o { iterate_lower_bound = p })

  unfoldable pub rocksdb_read_options_reset_iterate_lower_bound : Method
  unfolding reset_pointer
  rocksdb_read_options_reset_iterate_lower_bound =
      reset_pointer (λ o. record o { iterate_lower_bound = 0 })

  unfoldable pub rocksdb_read_options_set_iterate_upper_bound : Method
  unfolding set_pointer
  rocksdb_read_options_set_iterate_upper_bound =
      set_pointer (λ p o. record o { iterate_upper_bound = p })

  unfoldable pub rocksdb_read_options_reset_iterate_upper_bound : Method
  unfolding reset_pointer
  rocksdb_read_options_reset_iterate_upper_bound =
      reset_pointer (λ o. record o { iterate_upper_bound = 0 })
