-- ===== src/Options/Read/Pointers.antt =====
-- The pointer fields of a rocksdb::ReadOptions: setting and resetting.
use rocksdb_ts.Prelude.{ℕ, ◌≡◌, refl, none, some, arith, update, ap, fun_ext, ◌∙◌}
use rocksdb_ts.Host.{Host, Address, ReadOptions}
use rocksdb_ts.Machine.{read_options_cell, State, ok, Method}
use rocksdb_ts.Machine.Calls.{ObjectCall, PairCall, HasUndefined}
use rocksdb_ts.Options.Read.{
  set_pointer, reset_pointer, reset_pointer_undefined, rocksdb_read_options_set_snapshot,
  rocksdb_read_options_set_timestamp, rocksdb_read_options_set_iterate_lower_bound,
  rocksdb_read_options_set_iterate_upper_bound, rocksdb_read_options_reset_snapshot,
  rocksdb_read_options_reset_timestamp, rocksdb_read_options_reset_iterate_lower_bound,
  rocksdb_read_options_reset_iterate_upper_bound,
}

pub data PointerField : Type 0 where
  snapshot timestamp iterate_lower_bound iterate_upper_bound : PointerField

abbrev pub pointed : PointerField → Address → ReadOptions → ReadOptions
pointed snapshot q o = record o { snapshot = q }
pointed timestamp q o = record o { timestamp = q }
pointed iterate_lower_bound q o = record o { iterate_lower_bound = q }
pointed iterate_upper_bound q o = record o { iterate_upper_bound = q }

pointed-pointed :
    (f : PointerField) (q r : Address) (o : ReadOptions)
    → pointed f r (pointed f q o) ≡ pointed f r o
pointed-pointed snapshot q r o = refl
pointed-pointed timestamp q r o = refl
pointed-pointed iterate_lower_bound q r o = refl
pointed-pointed iterate_upper_bound q r o = refl

-- How many arguments the reset of a field asks for.
abbrev pub arity : PointerField → ℕ
arity snapshot = 2
arity timestamp = 2
arity _ = 1

module _ ⦃h : Host⦄ where
  abbrev pub setter : PointerField → Method
  setter snapshot = rocksdb_read_options_set_snapshot
  setter timestamp = rocksdb_read_options_set_timestamp
  setter iterate_lower_bound = rocksdb_read_options_set_iterate_lower_bound
  setter iterate_upper_bound = rocksdb_read_options_set_iterate_upper_bound

  abbrev pub resetter : PointerField → Method
  resetter snapshot = rocksdb_read_options_reset_snapshot
  resetter timestamp = rocksdb_read_options_reset_timestamp
  resetter iterate_lower_bound = rocksdb_read_options_reset_iterate_lower_bound
  resetter iterate_upper_bound = rocksdb_read_options_reset_iterate_upper_bound

  setter-set_pointer : (f : PointerField) → setter f ≡ set_pointer (pointed f)
  unfolding rocksdb_read_options_set_snapshot rocksdb_read_options_set_timestamp
      rocksdb_read_options_set_iterate_lower_bound rocksdb_read_options_set_iterate_upper_bound
  setter-set_pointer snapshot = refl
  setter-set_pointer _ = refl

  abbrev pub after_point : PointerField → Address → Address → ReadOptions → State → State
  after_point f p q o s = record s {
    cells = update s.cells p (some (read_options_cell (pointed f q o)));
  }

  pub set_pointer_lem :
      {info : h.napi.Info} (s : State) {p q : Address} {o : ReadOptions} (f : PointerField)
      → s.cells p ≡ some (read_options_cell o)
      → PairCall info s.env p q
      → setter f info s ≡ ok none (after_point f p q o s)
  unfolding set_pointer
  set_pointer_lem s f live c = rw (setter-set_pointer f) (ground arith)

  pub reset_pointer_lem :
      {info : h.napi.Info} (s : State) {p : Address} {o : ReadOptions} (f : PointerField)
      → s.cells p ≡ some (read_options_cell o)
      → ObjectCall (arity f) info s.env p
      → HasUndefined s.env
      → resetter f info s ≡ ok none (after_point f p 0 o s)
  unfolding reset_pointer reset_pointer_undefined rocksdb_read_options_reset_snapshot
      rocksdb_read_options_reset_timestamp rocksdb_read_options_reset_iterate_lower_bound
      rocksdb_read_options_reset_iterate_upper_bound
  reset_pointer_lem s snapshot live c u = ground arith
  reset_pointer_lem s timestamp live c u = ground arith
  reset_pointer_lem s iterate_lower_bound live c u = ground arith
  reset_pointer_lem s iterate_upper_bound live c u = ground arith

  after_point_twice :
      (f : PointerField) (p q r : Address) (o : ReadOptions) (s : State)
      → after_point f p r (pointed f q o) (after_point f p q o s) ≡ after_point f p r o s
  after_point_twice f p q r o s =
      rw (pointed-pointed f q r o) (ap (λ c. record s { cells = c }) (fun_ext λ x. ground arith))

  -- Setting a pointer field of read options to an object and resetting the same field leaves the
  -- process as it was, but for that field, which is null.
  pub resetter-setter :
      {info info' : h.napi.Info} (s : State) {p q : Address} {o : ReadOptions} (f : PointerField)
      → s.cells p ≡ some (read_options_cell o)
      → PairCall info s.env p q
      → ObjectCall (arity f) info' s.env p
      → HasUndefined s.env
      → (t : State) × (setter f info s ≡ ok none t)
        × (resetter f info' t ≡ ok none (after_point f p 0 o s))
  resetter-setter s {p} {q} {o} f live c d u = (
    after_point f p q o s,
    set_pointer_lem s f live c,
    reset_pointer_lem (after_point f p q o s) f (ground arith) d u
        ∙ ap (ok none) (after_point_twice f p q 0 o s),
  )
