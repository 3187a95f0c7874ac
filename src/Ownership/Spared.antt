-- ===== src/Ownership/Spared.antt =====
-- What a finalizer that frees no database leaves of the databases and of the references on them.
use rocksdb_ts.Prelude.{
  ◌≡◌, ◌≢◌, Bool, true, false, none, some, List, [], ◌∷◌, ◌==◌, if◌then◌else◌, All, arith, subst,
  sym, ap, ◌∙◌,
}
use rocksdb_ts.Host.{Host, Address, Finalizer}
use rocksdb_ts.Machine.{database, State}
use rocksdb_ts.Ownership.{
  Sort, sort_of, container_sort, native_sort, shape_of, Claim, freed, Holds, Held, Registered,
}
use rocksdb_ts.Ownership.Steps.{All-map, class-shape_of, class}
use rocksdb_ts.Ownership.Finalizers.{Frees}

module _ ⦃h : Host⦄ where
  -- A finalizer that frees no database.
  abbrev pub FreesNone : Finalizer → Type 0
  FreesNone Finalizer.rocksdb_finalize = ⊥
  FreesNone _ = Unit

  pub FreesNone-Registered :
      (s : State) (fin : Finalizer) (v : h.napi.Value) (hint : Address)
      → ¬ (Held v s.references)
      → Registered s fin v hint
      → FreesNone fin
  FreesNone-Registered s Finalizer.rocksdb_finalize v hint n a = n a
  FreesNone-Registered s _ v hint n a = tt

  -- The class is none of a database and its container.
  abbrev pub Plain : Claim → Type 0
  Plain d = (d.1 ≢ container_sort) × (d.1 ≢ native_sort database)

  unless-Plain :
      (p : Address) (k : Sort) (b : Bool)
      → k ≢ container_sort
      → k ≢ native_sort database
      → All Plain (if b then [] else (p, k) ∷ [])
  unless-Plain p k true x y = tt
  unless-Plain p k false x y = ((x, y), tt)

  pub freed-Plain :
      (fin : Finalizer) (p hint : Address) → FreesNone fin → All Plain (freed fin p hint)
  freed-Plain Finalizer.rocksdb_finalize p hint n = elim n [ ]
  freed-Plain Finalizer.rocksdb_slice_finalize p hint n =
      unless-Plain p _ (p == 0) (λ e. ground arith) (λ e. ground arith)
  freed-Plain Finalizer.rocksdb_write_options_finalize p hint n =
      unless-Plain p _ (p == 0) (λ e. ground arith) (λ e. ground arith)
  freed-Plain Finalizer.rocksdb_options_finalize p hint n =
      unless-Plain p _ (p == 0) (λ e. ground arith) (λ e. ground arith)
  freed-Plain Finalizer.rocksdb_iterator_finalize p hint n =
      unless-Plain p _ (p == 0) (λ e. ground arith) (λ e. ground arith)
  freed-Plain Finalizer.rocksdb_batch_finalize p hint n =
      unless-Plain p _ (p == 0) (λ e. ground arith) (λ e. ground arith)
  freed-Plain Finalizer.rocksdb_batch_write_async_finalize p hint n =
      unless-Plain p _ (p == 0) (λ e. ground arith) (λ e. ground arith)
  freed-Plain Finalizer.rocksdb_snapshot_finalize p hint n =
      unless-Plain p _ (p == 0) (λ e. ground arith) (λ e. ground arith)
  freed-Plain Finalizer.rocksdb_read_options_finalize p hint n =
      unless-Plain p _ (p == 0) (λ e. ground arith) (λ e. ground arith)

  -- An object that is freed is none of the databases.
  apart_of :
      (s : State) (db : Address) (ds : List Claim)
      → shape_of (s.cells db) ≡ some (native_sort database, none)
      → All Plain ds
      → All (Holds s) ds
      → All (λ d. d.0 ≢ db) ds
  apart_of s db [] live x y = tt
  apart_of s db (d ∷ ds) live ((c, n), x) ((z, l), y) =
      let sort : sort_of (s.cells db) ≡ some (native_sort database) =
        class-shape_of (s.cells db) ∙ ap class live in
      (
        (λ e. n (some_same (sym z ∙ ap (λ p. sort_of (s.cells p)) e ∙ sort))),
        apart_of s db ds live x y,
      )
    where
      some_same : {a b : Sort} → some a ≡ some b → a ≡ b
      some_same e = ground arith

  not_container : (ds : List Claim) → All Plain ds → All (λ d. d.1 ≢ container_sort) ds
  not_container ds = All-map ds (λ d x. x.0)

  pub Registered-Frees :
      (s t : State) (ds : List Claim) (fin : Finalizer) (v : h.napi.Value) (hint : Address)
      → Frees s t ds
      → All Plain ds
      → All (Holds s) ds
      → Registered s fin v hint
      → Registered t fin v hint
  Registered-Frees s t ds Finalizer.rocksdb_finalize v hint x plain mine a =
      subst (λ rs. Held v rs) (sym (x.refs (not_container ds plain))) a
  Registered-Frees s t ds Finalizer.rocksdb_snapshot_finalize v hint x plain mine (a, l) =
      let g = x.kept in (x.lives hint _ (apart_of s hint ds a plain mine) a, omega arith)
  Registered-Frees s t ds _ v hint x plain mine a = tt
