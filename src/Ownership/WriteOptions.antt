-- ===== src/Ownership/WriteOptions.antt =====
-- Methods on write options.
use rocksdb_ts.Prelude.{Bool, refl, ◌≡◌, Option, none, some}
use rocksdb_ts.Host.{Host, Address, Finalizer, WriteOptions}
use rocksdb_ts.Machine.{Cell, State, write_options_cell}
use rocksdb_ts.Options.Write.{
  rocksdb_write_options_init, get_flag, assign, set_flag, set_pointer, reset_pointer_undefined,
}
use rocksdb_ts.Ownership.{write_options_sort, Steady, After, IsSteady, IsTame}
use rocksdb_ts.Ownership.Heap.{Steady-put}
use rocksdb_ts.Ownership.Making.{new-Makes}
use rocksdb_ts.Ownership.Finishing.{IsTame-Makes}
use rocksdb_ts.Ownership.Registers.{Finishes-return_external, Made-one}
use rocksdb_ts.Ownership.Rules.{steady_rules}

module _ ⦃h : Host⦄ where
  pub rocksdb_write_options_init-IsTame :
      (info : h.napi.Info) → IsTame (rocksdb_write_options_init info)
  unfolding rocksdb_write_options_init
  rocksdb_write_options_init-IsTame info =
      IsTame-Makes (new-Makes (write_options_cell h.rocks.default_write_options) refl) λ s p.
        Finishes-return_external p Finalizer.rocksdb_write_options_finalize 0
          (λ t. Made-one p write_options_sort) (λ t v e x r m. tt)

  After-assign :
      (s : State) (p : Address) (change : WriteOptions → WriteOptions) (c : Option Cell)
      → s.cells p ≡ c
      → After (Steady s) (assign p change s)
  unfolding assign
  After-assign s p change (some (write_options_cell o)) e =
      rw (e, After) (Steady-put s p (some (write_options_cell (change o))) (rw e refl))
  After-assign s p change (some _) e = rw (e, After) tt
  After-assign s p change none e = rw (e, After) tt

  assign-IsSteady :
      (p : Address) (change : WriteOptions → WriteOptions) → IsSteady (assign p change)
  assign-IsSteady p change = record { steady = λ s. After-assign s p change (s.cells p) refl }

  pub get_flag-IsSteady :
      (field : WriteOptions → Bool) (info : h.napi.Info) → IsSteady (get_flag field info)
  unfolding get_flag
  get_flag-IsSteady field info = search steady_rules depth 12

  pub set_flag-IsSteady :
      (change : Bool → WriteOptions → WriteOptions) (info : h.napi.Info)
      → IsSteady (set_flag change info)
  unfolding set_flag
  set_flag-IsSteady change info = search (steady_rules, assign-IsSteady) depth 12

  pub set_pointer-IsSteady :
      (change : Address → WriteOptions → WriteOptions) (info : h.napi.Info)
      → IsSteady (set_pointer change info)
  unfolding set_pointer
  set_pointer-IsSteady change info = search (steady_rules, assign-IsSteady) depth 12

  pub reset_pointer_undefined-IsSteady :
      (change : WriteOptions → WriteOptions) (info : h.napi.Info)
      → IsSteady (reset_pointer_undefined change info)
  unfolding reset_pointer_undefined
  reset_pointer_undefined-IsSteady change info = search (steady_rules, assign-IsSteady) depth 12
