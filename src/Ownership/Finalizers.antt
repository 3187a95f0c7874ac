-- ===== src/Ownership/Finalizers.antt =====
-- What the finalizers do to the heap: each ends normally and frees its own objects alone.
use rocksdb_ts.Prelude.{
  ◌≤◌, ◌≡◌, ◌≢◌, refl, Bool, true, false, Option, none, some, List, [], ◌∷◌, ◌==◌, if◌then◌else◌,
  All, arith, update,
}
use rocksdb_ts.Host.{Host, Address, WriteOptions, ReadOptions}
use rocksdb_ts.Machine.{
  Kind, Cell, Slice, slice_cell, write_options_cell, read_options_cell, native, pure, State, ok, M,
}
use rocksdb_ts.Machine.Effects.{is_native, delete_slice, delete_write_options, delete_read_options}
use rocksdb_ts.Slices.{rocksdb_slice_finalize}
use rocksdb_ts.Options.Write.{rocksdb_write_options_finalize}
use rocksdb_ts.Options.Read.{rocksdb_read_options_finalize}
use rocksdb_ts.Options.Db.{delete_options, rocksdb_options_finalize}
use rocksdb_ts.Iterators.{delete_iterator, rocksdb_iterator_finalize}
use rocksdb_ts.Batches.{delete_batch, rocksdb_batch_finalize}
use rocksdb_ts.Ownership.{
  Sort, sort_of, Shape, shape_of, Room, container_sort, slice_sort, write_options_sort,
  read_options_sort, native_sort, Claim, unless_null, Holds,
}
use rocksdb_ts.Ownership.Steps.{same_class}

module _ ⦃h : Host⦄ where
  -- A finalizer leaves all but what it frees.
  pub record Frees (s t : State) (ds : List Claim) : Type 0 where
    pub kept : s.next ≤ t.next
    pub lives :
        (p : Address) (k : Shape)
        → All (λ d. d.0 ≢ p) ds
        → shape_of (s.cells p) ≡ some k
        → shape_of (t.cells p) ≡ some k
    pub room : Room s → Room t
    pub refs : All (λ d. d.1 ≢ container_sort) ds → t.references ≡ s.references
    pub same : t.externals ≡ s.externals

  pub Holds-Frees :
      {s t : State} {ds : List Claim}
      → Frees s t ds
      → (c : Claim) → All (λ d. d.0 ≢ c.0) ds
      → Holds s c
      → Holds t c
  Holds-Frees {s} {t} x c a (live, old) =
      let l = x.kept in
      (
        same_class (s.cells c.0) (t.cells c.0) c.1 (shape_of (s.cells c.0)) refl
            (λ k. x.lives c.0 k a) live,
        omega arith,
      )

  -- A run of a finalizer that ends normally and frees the objects.
  abbrev pub Ends : M (Unit {0}) → State → List Claim → Type 0
  Ends m s ds = (t : State) × (m s ≡ ok tt t) × Frees s t ds

  pub Frees-none : (s : State) → Frees s s []
  Frees-none s = record {
    kept = omega arith;
    lives = λ p k x y. y;
    room = λ m. m;
    refs = λ n. refl;
    same = refl;
  }

  pub Frees-one :
      (s : State) (p : Address) (k : Sort) {e : h.napi.Env} {l : h.rocks.Lib}
      → Frees s (record s { env = e; lib = l; cells = update s.cells p none }) ((p, k) ∷ [])
  Frees-one s p k = record {
    kept = omega arith;
    lives = λ q j (ne, x) live. ground arith;
    room = λ m q l. ground (arith, m q);
    refs = λ n. refl;
    same = refl;
  }

  slice_of :
      (c : Option Cell) → sort_of c ≡ some slice_sort → (x : Slice) × (c ≡ some (slice_cell x))
  slice_of (some (slice_cell x)) e = (x, refl)
  slice_of (some _) e = ground arith
  slice_of none e = ground arith

  pub is_native_of :
      (k : Kind) (c : Option Cell) → sort_of c ≡ some (native_sort k) → is_native k c ≡ true
  is_native_of k (some (native j)) e = ground arith
  is_native_of k (some _) e = ground arith
  is_native_of k none e = ground arith

  pub write_options_of :
      (c : Option Cell)
      → sort_of c ≡ some write_options_sort
      → (o : WriteOptions) × (c ≡ some (write_options_cell o))
  write_options_of (some (write_options_cell o)) e = (o, refl)
  write_options_of (some _) e = ground arith
  write_options_of none e = ground arith

  pub read_options_of :
      (c : Option Cell)
      → sort_of c ≡ some read_options_sort
      → (o : ReadOptions) × (c ≡ some (read_options_cell o))
  read_options_of (some (read_options_cell o)) e = (o, refl)
  read_options_of (some _) e = ground arith
  read_options_of none e = ground arith

  -- A finalizer that tests its pointer first.
  pub Ends-unless_null :
      {s : State} (p : Address) (k : Sort) (m : M (Unit {0})) (b : Bool)
      → (Holds s (p, k) → Ends m s ((p, k) ∷ []))
      → All (Holds s) (if b then [] else (p, k) ∷ [])
      → Ends (if b then pure tt else m) s (if b then [] else (p, k) ∷ [])
  Ends-unless_null {s} p k m true f x = (s, refl, Frees-none s)
  Ends-unless_null p k m false f (x, y) = f x

  pub slice-Ends :
      {s : State} (p : Address)
      → All (Holds s) (unless_null p slice_sort)
      → Ends (rocksdb_slice_finalize p) s (unless_null p slice_sort)
  unfolding rocksdb_slice_finalize delete_slice
  slice-Ends {s} p = Ends-unless_null p slice_sort (delete_slice p) (p == 0) λ x.
      let (c, e) = slice_of (s.cells p) x.0 in
      (record s { cells = update s.cells p none }, rw e refl, Frees-one s p slice_sort)

  pub write_options-Ends :
      {s : State} (p : Address)
      → All (Holds s) (unless_null p write_options_sort)
      → Ends (rocksdb_write_options_finalize p) s (unless_null p write_options_sort)
  unfolding rocksdb_write_options_finalize delete_write_options
  write_options-Ends {s} p =
      Ends-unless_null p write_options_sort (delete_write_options p) (p == 0) λ x.
        let (c, e) = write_options_of (s.cells p) x.0 in
        (record s { cells = update s.cells p none }, rw e refl, Frees-one s p write_options_sort)

  pub read_options-Ends :
      {s : State} (p : Address)
      → All (Holds s) (unless_null p read_options_sort)
      → Ends (rocksdb_read_options_finalize p) s (unless_null p read_options_sort)
  unfolding rocksdb_read_options_finalize delete_read_options
  read_options-Ends {s} p =
      Ends-unless_null p read_options_sort (delete_read_options p) (p == 0) λ x.
        let (c, e) = read_options_of (s.cells p) x.0 in
        (record s { cells = update s.cells p none }, rw e refl, Frees-one s p read_options_sort)

  pub options-Ends :
      {s : State} (p : Address)
      → All (Holds s) (unless_null p (native_sort Kind.options))
      → Ends (rocksdb_options_finalize p) s (unless_null p (native_sort Kind.options))
  unfolding rocksdb_options_finalize delete_options
  options-Ends {s} p =
      Ends-unless_null p (native_sort Kind.options) (delete_options p) (p == 0) λ x. (
        record s { lib = h.rocks.delete_options p s.lib; cells = update s.cells p none },
        rw (is_native_of Kind.options (s.cells p) x.0) refl,
        Frees-one s p (native_sort Kind.options),
      )

  pub iterator-Ends :
      {s : State} (p : Address)
      → All (Holds s) (unless_null p (native_sort Kind.iterator))
      → Ends (rocksdb_iterator_finalize p) s (unless_null p (native_sort Kind.iterator))
  unfolding rocksdb_iterator_finalize delete_iterator
  iterator-Ends {s} p =
      Ends-unless_null p (native_sort Kind.iterator) (delete_iterator p) (p == 0) λ x. (
        record s { lib = h.rocks.delete_iterator p s.lib; cells = update s.cells p none },
        rw (is_native_of Kind.iterator (s.cells p) x.0) refl,
        Frees-one s p (native_sort Kind.iterator),
      )

  pub batch-Ends :
      {s : State} (p : Address)
      → All (Holds s) (unless_null p (native_sort Kind.batch))
      → Ends (rocksdb_batch_finalize p) s (unless_null p (native_sort Kind.batch))
  unfolding rocksdb_batch_finalize delete_batch
  batch-Ends {s} p = Ends-unless_null p (native_sort Kind.batch) (delete_batch p) (p == 0) λ x. (
    record s { lib = h.rocks.delete_batch p s.lib; cells = update s.cells p none },
    rw (is_native_of Kind.batch (s.cells p) x.0) refl,
    Frees-one s p (native_sort Kind.batch),
  )
