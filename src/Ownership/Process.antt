-- ===== src/Ownership/Process.antt =====
-- The process: which finalizer the engine runs for an external, and that it is safe to run.
use rocksdb_ts.Prelude.{◌≡◌, ◌≢◌, true, List, [], ◌∷◌, ◌++◌, All, ap, ◌∙◌, sym, subst}
use rocksdb_ts.Host.{Host, Address, Finalizer}
use rocksdb_ts.Machine.{Kind, External, State, ok, M}
use rocksdb_ts.Machine.Effects.{is_native}
use rocksdb_ts.Slices.{rocksdb_slice_finalize}
use rocksdb_ts.Options.Write.{rocksdb_write_options_finalize}
use rocksdb_ts.Options.Read.{rocksdb_read_options_finalize}
use rocksdb_ts.Options.Db.{rocksdb_options_finalize}
use rocksdb_ts.Iterators.{rocksdb_iterator_finalize}
use rocksdb_ts.Batches.{rocksdb_batch_finalize}
use rocksdb_ts.Database.{rocksdb_finalize}
use rocksdb_ts.Database.Snapshots.{rocksdb_snapshot_finalize}
use rocksdb_ts.Async.{rocksdb_batch_write_async_finalize}
use rocksdb_ts.Ownership.{Claim, claims, freed, Holds, Distinct, Sound}
use rocksdb_ts.Ownership.Steps.{All-map}
use rocksdb_ts.Ownership.Keeps.{claims-append}
use rocksdb_ts.Ownership.Finalizers.{
  Frees, Holds-Frees, Ends, slice-Ends, write_options-Ends, read_options-Ends, options-Ends,
  iterator-Ends, batch-Ends,
}
use rocksdb_ts.Ownership.Databases.{database-Ends}
use rocksdb_ts.Ownership.Workers.{Idle, snapshot-Ends, worker-Ends}

module _ ⦃h : Host⦄ where
  -- The call that the engine makes when the value of an external dies.
  abbrev pub run : Finalizer → Address → Address → M (Unit {0})
  run Finalizer.rocksdb_slice_finalize p hint = rocksdb_slice_finalize p
  run Finalizer.rocksdb_write_options_finalize p hint = rocksdb_write_options_finalize p
  run Finalizer.rocksdb_options_finalize p hint = rocksdb_options_finalize p
  run Finalizer.rocksdb_finalize p hint = rocksdb_finalize p hint
  run Finalizer.rocksdb_iterator_finalize p hint = rocksdb_iterator_finalize p
  run Finalizer.rocksdb_batch_finalize p hint = rocksdb_batch_finalize p
  run Finalizer.rocksdb_batch_write_async_finalize p hint = rocksdb_batch_write_async_finalize p
  run Finalizer.rocksdb_snapshot_finalize p hint = rocksdb_snapshot_finalize p hint
  run Finalizer.rocksdb_read_options_finalize p hint = rocksdb_read_options_finalize p

  -- What a finalizer relies on beyond its own objects: the database of a snapshot is live, and a
  -- worker is not running.
  abbrev pub Ready : State → Finalizer → Address → Address → Type 0
  Ready s Finalizer.rocksdb_snapshot_finalize p hint =
      hint ≢ 0 → is_native Kind.database (s.cells hint) ≡ true
  Ready s Finalizer.rocksdb_batch_write_async_finalize p hint = Idle s p
  Ready s _ p hint = Unit

  run-Ends :
      (s : State) (fin : Finalizer) (p hint : Address)
      → Ready s fin p hint
      → All (Holds s) (freed fin p hint)
      → Ends (run fin p hint) s (freed fin p hint)
  run-Ends s Finalizer.rocksdb_slice_finalize p hint r x = slice-Ends p x
  run-Ends s Finalizer.rocksdb_write_options_finalize p hint r x = write_options-Ends p x
  run-Ends s Finalizer.rocksdb_options_finalize p hint r x = options-Ends p x
  run-Ends s Finalizer.rocksdb_finalize p hint r x = database-Ends s p hint x
  run-Ends s Finalizer.rocksdb_iterator_finalize p hint r x = iterator-Ends p x
  run-Ends s Finalizer.rocksdb_batch_finalize p hint r x = batch-Ends p x
  run-Ends s Finalizer.rocksdb_batch_write_async_finalize p hint r x = worker-Ends s p r x
  run-Ends s Finalizer.rocksdb_snapshot_finalize p hint r x = snapshot-Ends s p hint r x
  run-Ends s Finalizer.rocksdb_read_options_finalize p hint r x = read_options-Ends p x

  pub All-split :
      {A : Type 0} (P : A → Type 0) (xs ys : List A) → All P (xs ++ ys) → All P xs × All P ys
  All-split P [] ys a = (tt, a)
  All-split P (x ∷ xs) ys (p, a) = let (b, c) = All-split P xs ys a in ((p, b), c)

  All-middle :
      {A : Type 0} (P : A → Type 0) (xs ds ys : List A)
      → All P (xs ++ (ds ++ ys))
      → All P ds × All P (xs ++ ys)
  All-middle P [] ds ys a = All-split P ds ys a
  All-middle P (x ∷ xs) ds ys (p, a) = let (b, c) = All-middle P xs ds ys a in (b, (p, c))

  All-zip :
      {A : Type 0} {P Q R : A → Type 0} (xs : List A)
      → ((a : A) → P a → Q a → R a)
      → All P xs
      → All Q xs
      → All R xs
  All-zip [] f a b = tt
  All-zip (x ∷ xs) f (p, a) (q, b) = (f x p q, All-zip xs f a b)

  All-Unit : {A : Type 0} (xs : List A) → All (λ a. Unit {0}) xs
  All-Unit [] = tt
  All-Unit (x ∷ xs) = (tt, All-Unit xs)

  -- An object apart from some.
  abbrev Apart : List Claim → Claim → Type 0
  Apart ds c = All (λ d. d.0 ≢ c.0) ds

  Distinct-split : (ds ys : List Claim) → Distinct (ds ++ ys) → All (Apart ds) ys × Distinct ys
  Distinct-split [] ys a = (All-Unit ys, a)
  Distinct-split (d ∷ ds) ys (n, a) =
      let (b, c) = Distinct-split ds ys a in
      (All-zip ys (λ e p q. (p, q)) (All-split (λ e. d.0 ≢ e.0) ds ys n).1 b, c)

  Distinct-middle :
      (xs ds ys : List Claim)
      → Distinct (xs ++ (ds ++ ys))
      → All (Apart ds) (xs ++ ys) × Distinct (xs ++ ys)
  Distinct-middle [] ds ys a = Distinct-split ds ys a
  Distinct-middle (x ∷ xs) ds ys (n, a) =
      let (b, c) = Distinct-middle xs ds ys a in
      let (u, v) = All-middle (λ e. x.0 ≢ e.0) xs ds ys n in
      ((All-map ds (λ d p e. p (sym e)) u, b), (v, c))

  abbrev pub without : State → List External → State
  without s xs = record s { externals = xs }

  -- What a finalizer does to the heap and to the state's registrations.
  pub finalizer_lem :
      (s : State) (xs ys : List External) (x : External)
      → s.externals ≡ xs ++ (x ∷ ys)
      → Sound s
      → Ready (without s (xs ++ ys)) x.finalizer x.payload x.hint
      → (t : State) × (run x.finalizer x.payload x.hint (without s (xs ++ ys)) ≡ ok tt t)
        × All (Holds s) (freed x.finalizer x.payload x.hint)
        × Frees (without s (xs ++ ys)) t (freed x.finalizer x.payload x.hint)
        × Sound t
        × (t.externals ≡ xs ++ ys)
  finalizer_lem s xs ys x e a r =
      let ds = freed x.finalizer x.payload x.hint in
      let q : claims s.externals ≡ claims xs ++ (ds ++ claims ys) =
        ap claims e ∙ claims-append xs (x ∷ ys) in
      let held = subst (λ cs. All (Holds s) cs) q a.held in
      let once = subst (λ cs. Distinct cs) q a.once in
      let (mine, others) = All-middle (Holds s) (claims xs) ds (claims ys) held in
      let (apart, distinct) = Distinct-middle (claims xs) ds (claims ys) once in
      let (t, ends, frees) = run-Ends (without s (xs ++ ys)) x.finalizer x.payload x.hint r mine in
      let back : claims xs ++ claims ys ≡ claims t.externals =
        sym (ap claims frees.same ∙ claims-append xs ys) in
      (
        t,
        ends,
        mine,
        frees,
        record {
          held =
              subst (λ cs. All (Holds t) cs) back
                (All-zip (claims xs ++ claims ys) (λ c p y. Holds-Frees frees c p y) apart others);
          once = subst (λ cs. Distinct cs) back distinct;
        },
        frees.same,
      )

  pub finalizer-Sound :
      (s : State) (xs ys : List External) (x : External)
      → s.externals ≡ xs ++ (x ∷ ys)
      → Sound s
      → Ready (without s (xs ++ ys)) x.finalizer x.payload x.hint
      → (t : State) × (run x.finalizer x.payload x.hint (without s (xs ++ ys)) ≡ ok tt t)
        × Sound t
        × (t.externals ≡ xs ++ ys)
  finalizer-Sound s xs ys x e a r =
      let (t, ends, mine, frees, sound, rest) = finalizer_lem s xs ys x e a r in
      (t, ends, sound, rest)
