-- ===== src/Ownership/Options.antt =====
-- Methods on slices and on database options.
use rocksdb_ts.Prelude.{refl, [], ◌∷◌}
use rocksdb_ts.Host.{Host, Address, Bytes, Finalizer}
use rocksdb_ts.Machine.{Slice, slice_cell, native, options, ◌>>=◌, ◌>>◌, State}
use rocksdb_ts.Machine.Effects.{new, library}
use rocksdb_ts.Machine.Macros.{return_external, rocksdb_status_throws}
use rocksdb_ts.Slices.{rocksdb_slice}
use rocksdb_ts.Options.Db.{new_options, rocksdb_options_init, rocksdb_options_init_from_buffer}
use rocksdb_ts.Ownership.{slice_sort, native_sort, IsTame}
use rocksdb_ts.Ownership.Heap.{library-IsSteady, library_do-IsSteady}
use rocksdb_ts.Ownership.Parts.{rocksdb_status_throws-IsSteady}
use rocksdb_ts.Ownership.Making.{Makes, new-Makes, Makes-Passes, Passes-then, Passes-pure}
use rocksdb_ts.Ownership.Finishing.{Finishes, IsTame-Makes, Finishes-bind, Finishes-then}
use rocksdb_ts.Ownership.Registers.{Finishes-return_external, Made-one}
use rocksdb_ts.Ownership.Rules.{tame_rules}

module _ ⦃h : Host⦄ where
  new_slice-IsTame :
      (x : Slice)
      → IsTame (new (slice_cell x) >>= λ p. return_external p Finalizer.rocksdb_slice_finalize 0)
  new_slice-IsTame x = IsTame-Makes (new-Makes (slice_cell x) refl) λ s p.
      Finishes-return_external p Finalizer.rocksdb_slice_finalize 0 (λ t. Made-one p slice_sort)
        (λ t v e x r m. tt)

  pub rocksdb_slice-IsTame : (info : h.napi.Info) → IsTame (rocksdb_slice info)
  unfolding rocksdb_slice
  rocksdb_slice-IsTame info = search (tame_rules, new_slice-IsTame) depth 12

  new_options-Makes : Makes (λ p. (p, native_sort options) ∷ []) new_options
  unfolding new_options
  new_options-Makes =
      Makes-Passes (new-Makes (native options) refl)
        λ p. Passes-then (library_do-IsSteady (λ m. h.rocks.new_options p)) (Passes-pure p)

  options_external-Finishes :
      {s : State} (p : Address)
      → Finishes s
          ((p, native_sort options) ∷ [])
          (return_external p Finalizer.rocksdb_options_finalize 0)
  options_external-Finishes p =
      Finishes-return_external p Finalizer.rocksdb_options_finalize 0
        (λ t. Made-one p (native_sort options)) (λ t v e x r m. tt)

  pub rocksdb_options_init-IsTame : (info : h.napi.Info) → IsTame (rocksdb_options_init info)
  unfolding rocksdb_options_init
  rocksdb_options_init-IsTame info =
      IsTame-Makes new_options-Makes λ s p. options_external-Finishes p

  parsed_options-IsTame :
      (b : Bytes)
      → IsTame (
          new_options >>= λ p. library (λ m. h.rocks.db_options_from_string p b p) >>= λ status.
          rocksdb_status_throws status >> return_external p Finalizer.rocksdb_options_finalize 0)
  parsed_options-IsTame b = IsTame-Makes new_options-Makes λ s p.
      Finishes-bind (library-IsSteady (λ m. h.rocks.db_options_from_string p b p)) λ status.
        Finishes-then (rocksdb_status_throws-IsSteady status) (options_external-Finishes p)

  pub rocksdb_options_init_from_buffer-IsTame :
      (info : h.napi.Info) → IsTame (rocksdb_options_init_from_buffer info)
  unfolding rocksdb_options_init_from_buffer
  rocksdb_options_init_from_buffer-IsTame info = search (tame_rules, parsed_options-IsTame) depth 12
