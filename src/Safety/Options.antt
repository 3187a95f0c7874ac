-- ===== src/Safety/Options.antt =====
-- Methods on options and slices.
use rocksdb_ts.Prelude.{Bool, ℕ, [], ◌∷◌, arith}
use rocksdb_ts.Host.{Host, Address, WriteOptions, ReadOptions}
use rocksdb_ts.Machine.{State}
use rocksdb_ts.Slices.{rocksdb_slice}
use rocksdb_ts.Options.Write as Write
use rocksdb_ts.Options.Read as Read
use rocksdb_ts.Options.Read.Numbers.{
  get_uint64, set_uint64, rocksdb_read_options_get_read_tier, rocksdb_read_options_set_read_tier,
}
use rocksdb_ts.Options.Db.{new_options, rocksdb_options_init, rocksdb_options_init_from_buffer}
use rocksdb_ts.Interface.{Context, write_options_context, read_options_context}
use rocksdb_ts.Interface.Parameters.{context, buffer, boolean, number, bigint}
use rocksdb_ts.Safety.{Documented, IsCall, Safe, Reads}
use rocksdb_ts.Safety.Arguments.{napi_argv-Safe}
use rocksdb_ts.Safety.Rules.{safe_rules, read_rules}

module _ ⦃h : Host⦄ where
  pub rocksdb_slice-Safe :
      {s : State} {info : h.napi.Info}
      → Documented
      → IsCall s (buffer ∷ []) info
      → Safe s (rocksdb_slice info)
  unfolding rocksdb_slice
  rocksdb_slice-Safe d c =
      napi_argv-Safe d c (omega arith) λ argv (a0, z). search safe_rules depth 14

  pub rocksdb_write_options_init-Safe :
      {s : State} {info : h.napi.Info}
      → Documented
      → IsCall s [] info
      → Safe s (Write.rocksdb_write_options_init info)
  unfolding Write.rocksdb_write_options_init
  rocksdb_write_options_init-Safe d c = search safe_rules depth 14

  pub rocksdb_read_options_init-Safe :
      {s : State} {info : h.napi.Info}
      → Documented
      → IsCall s [] info
      → Safe s (Read.rocksdb_read_options_init info)
  unfolding Read.rocksdb_read_options_init
  rocksdb_read_options_init-Safe d c = search safe_rules depth 14

  new_options-Reads : {s : State} → Reads s new_options
  unfolding new_options
  new_options-Reads = search read_rules depth 14

  pub rocksdb_options_init-Safe :
      {s : State} {info : h.napi.Info}
      → Documented
      → IsCall s [] info
      → Safe s (rocksdb_options_init info)
  unfolding rocksdb_options_init
  rocksdb_options_init-Safe d c = search (safe_rules, new_options-Reads) depth 14

  pub rocksdb_options_init_from_buffer-Safe :
      {s : State} {info : h.napi.Info}
      → Documented
      → IsCall s (buffer ∷ []) info
      → Safe s (rocksdb_options_init_from_buffer info)
  unfolding rocksdb_options_init_from_buffer
  rocksdb_options_init_from_buffer-Safe d c =
      napi_argv-Safe d c (omega arith)
        λ argv (a0, z). search (safe_rules, new_options-Reads) depth 14

  pub write_get_flag-Safe :
      {s : State} {info : h.napi.Info}
      → Documented
      → (field : WriteOptions → Bool) → IsCall s (context write_options_context ∷ []) info
      → Safe s (Write.get_flag field info)
  unfolding Write.get_flag
  write_get_flag-Safe d field c =
      napi_argv-Safe d c (omega arith) λ argv (a0, z). search safe_rules depth 14

  pub write_set_flag-Safe :
      {s : State} {info : h.napi.Info}
      → Documented
      → (change : Bool → WriteOptions → WriteOptions)
      → IsCall s (context write_options_context ∷ boolean ∷ []) info
      → Safe s (Write.set_flag change info)
  unfolding Write.set_flag Write.assign
  write_set_flag-Safe d change c =
      napi_argv-Safe d c (omega arith) λ argv (a0, (a1, z)). search safe_rules depth 14

  pub write_set_pointer-Safe :
      {s : State} {info : h.napi.Info}
      → Documented
      → (target : Context) (change : Address → WriteOptions → WriteOptions)
      → IsCall s (context write_options_context ∷ context target ∷ []) info
      → Safe s (Write.set_pointer change info)
  unfolding Write.set_pointer Write.assign
  write_set_pointer-Safe d target change c =
      napi_argv-Safe d c (omega arith) λ argv (a0, (a1, z)). search safe_rules depth 14

  pub write_reset_pointer_undefined-Safe :
      {s : State} {info : h.napi.Info}
      → Documented
      → (change : WriteOptions → WriteOptions) → IsCall s (context write_options_context ∷ []) info
      → Safe s (Write.reset_pointer_undefined change info)
  unfolding Write.reset_pointer_undefined Write.assign
  write_reset_pointer_undefined-Safe d change c =
      napi_argv-Safe d c (omega arith) λ argv (a0, z). search safe_rules depth 14

  pub read_get_flag-Safe :
      {s : State} {info : h.napi.Info}
      → Documented
      → (field : ReadOptions → Bool) → IsCall s (context read_options_context ∷ []) info
      → Safe s (Read.get_flag field info)
  unfolding Read.get_flag
  read_get_flag-Safe d field c =
      napi_argv-Safe d c (omega arith) λ argv (a0, z). search safe_rules depth 14

  pub read_set_flag-Safe :
      {s : State} {info : h.napi.Info}
      → Documented
      → (change : Bool → ReadOptions → ReadOptions)
      → IsCall s (context read_options_context ∷ boolean ∷ []) info
      → Safe s (Read.set_flag change info)
  unfolding Read.set_flag Read.assign
  read_set_flag-Safe d change c =
      napi_argv-Safe d c (omega arith) λ argv (a0, (a1, z)). search safe_rules depth 14

  pub read_set_pointer-Safe :
      {s : State} {info : h.napi.Info}
      → Documented
      → (target : Context) (change : Address → ReadOptions → ReadOptions)
      → IsCall s (context read_options_context ∷ context target ∷ []) info
      → Safe s (Read.set_pointer change info)
  unfolding Read.set_pointer Read.assign
  read_set_pointer-Safe d target change c =
      napi_argv-Safe d c (omega arith) λ argv (a0, (a1, z)). search safe_rules depth 14

  pub read_reset_pointer_undefined-Safe :
      {s : State} {info : h.napi.Info}
      → Documented
      → (change : ReadOptions → ReadOptions) → IsCall s (context read_options_context ∷ []) info
      → Safe s (Read.reset_pointer_undefined change info)
  unfolding Read.reset_pointer_undefined Read.assign
  read_reset_pointer_undefined-Safe d change c =
      napi_argv-Safe d c (omega arith) λ argv (a0, z). search safe_rules depth 14

  pub reset_pointer-Safe :
      {s : State} {info : h.napi.Info}
      → Documented
      → (change : ReadOptions → ReadOptions) → IsCall s (context read_options_context ∷ []) info
      → Safe s (Read.reset_pointer change info)
  unfolding Read.reset_pointer Read.assign
  reset_pointer-Safe d change c =
      napi_argv-Safe d c (omega arith) λ argv (a0, z). search safe_rules depth 14

  pub get_uint64-Safe :
      {s : State} {info : h.napi.Info}
      → Documented
      → (field : ReadOptions → ℕ) → IsCall s (context read_options_context ∷ []) info
      → Safe s (get_uint64 field info)
  unfolding get_uint64
  get_uint64-Safe d field c =
      napi_argv-Safe d c (omega arith) λ argv (a0, z). search safe_rules depth 14

  pub set_uint64-Safe :
      {s : State} {info : h.napi.Info}
      → Documented
      → (change : ℕ → ReadOptions → ReadOptions)
      → IsCall s (context read_options_context ∷ bigint ∷ []) info
      → Safe s (set_uint64 change info)
  unfolding set_uint64 Read.assign
  set_uint64-Safe d change c =
      napi_argv-Safe d c (omega arith) λ argv (a0, (a1, z)). search safe_rules depth 14

  pub rocksdb_read_options_get_read_tier-Safe :
      {s : State} {info : h.napi.Info}
      → Documented
      → IsCall s (context read_options_context ∷ []) info
      → Safe s (rocksdb_read_options_get_read_tier info)
  unfolding rocksdb_read_options_get_read_tier
  rocksdb_read_options_get_read_tier-Safe d c =
      napi_argv-Safe d c (omega arith) λ argv (a0, z). search safe_rules depth 14

  pub rocksdb_read_options_set_read_tier-Safe :
      {s : State} {info : h.napi.Info}
      → Documented
      → IsCall s (context read_options_context ∷ number ∷ []) info
      → Safe s (rocksdb_read_options_set_read_tier info)
  unfolding rocksdb_read_options_set_read_tier Read.assign
  rocksdb_read_options_set_read_tier-Safe d c =
      napi_argv-Safe d c (omega arith) λ argv (a0, (a1, z)). search safe_rules depth 14
