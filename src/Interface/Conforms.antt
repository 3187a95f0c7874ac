-- ===== src/Interface/Conforms.antt =====
-- The table of NAPI_INIT against the interface RocksBinding of src/binding.ts.
use Prim.Native.String.{String}
use text.Mathlib.Text.{◌==◌}
use rocksdb_ts.Prelude.{sym, subst, Bool, Option, none, some, ◌||◌, All}
use rocksdb_ts.Host.{Host}
use rocksdb_ts.Machine.{Method}
use rocksdb_ts.Exports.{exports}
use rocksdb_ts.Exports.Bodies.{bodies, exports-bodies}
use rocksdb_ts.Interface.Methods.Options.{
  rocksdb_slice-Yields, rocksdb_write_options_init-Yields, write_get_flag-Yields,
  write_set_flag-Yields, write_set_pointer-Yields, write_reset_pointer_undefined-Yields,
  rocksdb_options_init-Yields, rocksdb_options_init_from_buffer-Yields,
  rocksdb_read_options_init-Yields, read_get_flag-Yields, read_set_flag-Yields,
  read_set_pointer-Yields, read_reset_pointer_undefined-Yields, reset_pointer-Yields,
  get_uint64-Yields, set_uint64-Yields, rocksdb_read_options_get_read_tier-Yields,
  rocksdb_read_options_set_read_tier-Yields,
}
use rocksdb_ts.Interface.Methods.Database.{
  rocksdb_open-Yields, rocksdb_close-Yields, at_location-Yields, rocksdb_put-Yields,
  rocksdb_put_string-Yields, rocksdb_get-Yields, rocksdb_get_string-Yields, rocksdb_delete-Yields,
  rocksdb_delete_string-Yields, rocksdb_delete_range-Yields, rocksdb_delete_range_string-Yields,
  rocksdb_snapshot_init-Yields,
}
use rocksdb_ts.Interface.Methods.Iterators.{
  rocksdb_iterator_init-Yields, return_valid-Yields, moved-Yields, moved_to_buffer-Yields,
  moved_to_string-Yields, rocksdb_iterator_valid-Yields, rocksdb_iterator_refresh-Yields,
  read_part-Yields, read_pair-Yields, read_status-Yields, rocksdb_batch_init-Yields,
  rocksdb_batch_init_ex-Yields, rocksdb_batch_put-Yields, rocksdb_batch_put_string-Yields,
  rocksdb_batch_delete-Yields, rocksdb_batch_delete_utf8-Yields, rocksdb_batch_delete_latin1-Yields,
  rocksdb_batch_clear-Yields, rocksdb_batch_write-Yields, logger_config-Yields, logger_start-Yields,
  logger_stop-Yields,
}
use rocksdb_ts.Interface.Promises.{rocksdb_batch_write_async-Yields}
use rocksdb_ts.Interface.Results.{result_rules}
use rocksdb_ts.Interface.Values.{Yields}
use rocksdb_ts.Interface.{ResultType, find, interface}

-- The readers of a record, which return `undefined` for a key that is not found.
abbrev pub reads_record : String → Bool
reads_record name =
    name == "rocksdb_get" || name == "rocksdb_get_utf8" || name == "rocksdb_get_latin1"

-- A name that both tables have.
abbrev pub Declared : Option ResultType → Type 0
Declared none = ⊥
Declared (some τ) = Unit

module _ ⦃h : Host⦄ where
  -- The module has the method, and what it yields has the type.
  abbrev pub Implements : h.napi.Info → Bool → ResultType → Option Method → Type 0
  Implements info u τ none = ⊥
  Implements info u τ (some m) = Yields u τ (m info)

  ruleset yield_rules = (
    rocksdb_slice-Yields, rocksdb_write_options_init-Yields, write_get_flag-Yields,
    write_set_flag-Yields, write_set_pointer-Yields, write_reset_pointer_undefined-Yields,
    rocksdb_options_init-Yields, rocksdb_options_init_from_buffer-Yields,
    rocksdb_read_options_init-Yields, read_get_flag-Yields, read_set_flag-Yields,
    read_set_pointer-Yields, read_reset_pointer_undefined-Yields, reset_pointer-Yields,
    get_uint64-Yields, set_uint64-Yields, rocksdb_read_options_get_read_tier-Yields,
    rocksdb_read_options_set_read_tier-Yields, rocksdb_open-Yields, rocksdb_close-Yields,
    at_location-Yields, rocksdb_put-Yields, rocksdb_put_string-Yields, rocksdb_get-Yields,
    rocksdb_get_string-Yields, rocksdb_delete-Yields, rocksdb_delete_string-Yields,
    rocksdb_delete_range-Yields, rocksdb_delete_range_string-Yields, rocksdb_snapshot_init-Yields,
    rocksdb_iterator_init-Yields, return_valid-Yields, moved-Yields, moved_to_buffer-Yields,
    moved_to_string-Yields, rocksdb_iterator_valid-Yields, rocksdb_iterator_refresh-Yields,
    read_part-Yields, read_pair-Yields, read_status-Yields, rocksdb_batch_init-Yields,
    rocksdb_batch_init_ex-Yields, rocksdb_batch_put-Yields, rocksdb_batch_put_string-Yields,
    rocksdb_batch_delete-Yields, rocksdb_batch_delete_utf8-Yields,
    rocksdb_batch_delete_latin1-Yields, rocksdb_batch_clear-Yields, rocksdb_batch_write-Yields,
    logger_config-Yields, logger_start-Yields, logger_stop-Yields, rocksdb_batch_write_async-Yields,
    result_rules,
  )

  bodies-interface :
      (info : h.napi.Info)
      → All (λ row. Implements info (reads_record row.0) row.1 (find row.0 bodies)) interface
        × All (λ row. Declared (find row.0 interface)) bodies
  unfolding interface bodies
  bodies-interface info = (search yield_rules depth 3, search)

  -- The table of NAPI_INIT has a method for each name of the interface RocksBinding and for no other
  -- name. With any arguments and in any state, each method that does not end by an early return of
  -- a macro returns a value of the type that the interface declares, as the call of N-API for that
  -- type has made it: an external with the finalizer of its context, a boolean, a number, a bigint,
  -- a buffer, a string, an array of length two or a promise, and `undefined` for `void`. Only the
  -- three readers of a record may return `undefined` for another type.
  pub exports-interface :
      (info : h.napi.Info)
      → All (λ row. Implements info (reads_record row.0) row.1 (find row.0 exports)) interface
        × All (λ row. Declared (find row.0 interface)) exports
  exports-interface info =
      subst
        (λ rows.
          All (λ row. Implements info (reads_record row.0) row.1 (find row.0 rows)) interface
          × All (λ row. Declared (find row.0 interface)) rows)
        (sym exports-bodies) (bodies-interface info)
