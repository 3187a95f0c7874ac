-- ===== src/Interface/Methods/Options.antt =====
-- The results of the methods on slices and options.
use rocksdb_ts.Prelude.{ℕ, Bool, false}
use rocksdb_ts.Host.{Host, Address, WriteOptions, ReadOptions}
use rocksdb_ts.Slices.{rocksdb_slice}
use rocksdb_ts.Options.Write.{rocksdb_write_options_init}
use rocksdb_ts.Options.Db.{rocksdb_options_init, rocksdb_options_init_from_buffer}
use rocksdb_ts.Options.Read.{rocksdb_read_options_init, reset_pointer}
use rocksdb_ts.Options.Read.Numbers.{
  get_uint64, set_uint64, rocksdb_read_options_get_read_tier, rocksdb_read_options_set_read_tier,
}
use rocksdb_ts.Options.Write as Write
use rocksdb_ts.Options.Read as Read
use rocksdb_ts.Interface.{
  void, boolean, number, bigint, context, slice_context, options_context, read_options_context,
  write_options_context,
}
use rocksdb_ts.Interface.Values.{Yields}
use rocksdb_ts.Interface.Results.{result_rules}

module _ ⦃h : Host⦄ where
  pub rocksdb_slice-Yields :
      (info : h.napi.Info) → Yields false (context slice_context) (rocksdb_slice info)
  unfolding rocksdb_slice
  rocksdb_slice-Yields info = search result_rules depth 14

  pub rocksdb_write_options_init-Yields :
      (info : h.napi.Info)
      → Yields false (context write_options_context) (rocksdb_write_options_init info)
  unfolding rocksdb_write_options_init
  rocksdb_write_options_init-Yields info = search result_rules depth 14

  pub write_get_flag-Yields :
      (field : WriteOptions → Bool) (info : h.napi.Info)
      → Yields false (boolean) (Write.get_flag field info)
  unfolding Write.get_flag
  write_get_flag-Yields field info = search result_rules depth 14

  pub write_set_flag-Yields :
      (change : Bool → WriteOptions → WriteOptions) (info : h.napi.Info)
      → Yields false (void) (Write.set_flag change info)
  unfolding Write.set_flag
  write_set_flag-Yields change info = search result_rules depth 14

  pub write_set_pointer-Yields :
      (change : Address → WriteOptions → WriteOptions) (info : h.napi.Info)
      → Yields false (void) (Write.set_pointer change info)
  unfolding Write.set_pointer
  write_set_pointer-Yields change info = search result_rules depth 14

  pub write_reset_pointer_undefined-Yields :
      (change : WriteOptions → WriteOptions) (info : h.napi.Info)
      → Yields false (void) (Write.reset_pointer_undefined change info)
  unfolding Write.reset_pointer_undefined
  write_reset_pointer_undefined-Yields change info = search result_rules depth 14

  pub rocksdb_options_init-Yields :
      (info : h.napi.Info) → Yields false (context options_context) (rocksdb_options_init info)
  unfolding rocksdb_options_init
  rocksdb_options_init-Yields info = search result_rules depth 14

  pub rocksdb_options_init_from_buffer-Yields :
      (info : h.napi.Info)
      → Yields false (context options_context) (rocksdb_options_init_from_buffer info)
  unfolding rocksdb_options_init_from_buffer
  rocksdb_options_init_from_buffer-Yields info = search result_rules depth 14

  pub rocksdb_read_options_init-Yields :
      (info : h.napi.Info)
      → Yields false (context read_options_context) (rocksdb_read_options_init info)
  unfolding rocksdb_read_options_init
  rocksdb_read_options_init-Yields info = search result_rules depth 14

  pub read_get_flag-Yields :
      (field : ReadOptions → Bool) (info : h.napi.Info)
      → Yields false (boolean) (Read.get_flag field info)
  unfolding Read.get_flag
  read_get_flag-Yields field info = search result_rules depth 14

  pub read_set_flag-Yields :
      (change : Bool → ReadOptions → ReadOptions) (info : h.napi.Info)
      → Yields false (void) (Read.set_flag change info)
  unfolding Read.set_flag
  read_set_flag-Yields change info = search result_rules depth 14

  pub read_set_pointer-Yields :
      (change : Address → ReadOptions → ReadOptions) (info : h.napi.Info)
      → Yields false (void) (Read.set_pointer change info)
  unfolding Read.set_pointer
  read_set_pointer-Yields change info = search result_rules depth 14

  pub read_reset_pointer_undefined-Yields :
      (change : ReadOptions → ReadOptions) (info : h.napi.Info)
      → Yields false (void) (Read.reset_pointer_undefined change info)
  unfolding Read.reset_pointer_undefined
  read_reset_pointer_undefined-Yields change info = search result_rules depth 14

  pub reset_pointer-Yields :
      (change : ReadOptions → ReadOptions) (info : h.napi.Info)
      → Yields false (void) (reset_pointer change info)
  unfolding reset_pointer
  reset_pointer-Yields change info = search result_rules depth 14

  pub get_uint64-Yields :
      (field : ReadOptions → ℕ) (info : h.napi.Info) → Yields false (bigint) (get_uint64 field info)
  unfolding get_uint64
  get_uint64-Yields field info = search result_rules depth 14

  pub set_uint64-Yields :
      (change : ℕ → ReadOptions → ReadOptions) (info : h.napi.Info)
      → Yields false (void) (set_uint64 change info)
  unfolding set_uint64
  set_uint64-Yields change info = search result_rules depth 14

  pub rocksdb_read_options_get_read_tier-Yields :
      (info : h.napi.Info) → Yields false (number) (rocksdb_read_options_get_read_tier info)
  unfolding rocksdb_read_options_get_read_tier
  rocksdb_read_options_get_read_tier-Yields info = search result_rules depth 14

  pub rocksdb_read_options_set_read_tier-Yields :
      (info : h.napi.Info) → Yields false (void) (rocksdb_read_options_set_read_tier info)
  unfolding rocksdb_read_options_set_read_tier
  rocksdb_read_options_set_read_tier-Yields info = search result_rules depth 14
