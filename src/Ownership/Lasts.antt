-- ===== src/Ownership/Lasts.antt =====
-- What lasts while the process goes on: a worker keeps its promise, its work and its arguments.
use rocksdb_ts.Prelude.{◌<◌, ◌≡◌, ◌≢◌, Option, none, some, refl, arith, All, subst, sym, ◌∙◌}
use rocksdb_ts.Host.{Host, Address}
use rocksdb_ts.Machine.{Cell, Worker, worker_cell, State, ok, M}
use rocksdb_ts.Ownership.{
  Handles, handles, worker_sort, Shape, shape_of, Sound, Steady, Tame, After, freed, IsSteady,
}
use rocksdb_ts.Ownership.Steps.{Steady-Tame}
use rocksdb_ts.Ownership.Table.{exports-IsTame}
use rocksdb_ts.Ownership.Process.{finalizer_lem}
use rocksdb_ts.Ownership.Reaches.{
  Step, method_returns, method_returns_null, engine_acts, external_dies, worker_enters,
  worker_executes, worker_leaves, worker_finishes, Reaches, reached, further, begin_enter-IsSteady,
  begin_leave-IsSteady, begin_execute-IsSteady, finish-IsSteady, All-Mem, Reaches-Sound,
}

module _ ⦃h : Host⦄ where
  -- An object of the shape of a worker is one, with those handles.
  pub worker_of :
      (c : Option Cell) (k : Handles)
      → shape_of c ≡ some (worker_sort, some k)
      → (w : Worker) × (c ≡ some (worker_cell w)) × (handles w ≡ k)
  worker_of (some (worker_cell w)) k e = (w, refl, ground arith)
  worker_of (some _) k e = ground arith
  worker_of none k e = ground arith

  -- No finalizer that the steps run frees the object at `p`.
  abbrev StepSpares : Address → {s t : State} → Step s t → Type 0
  StepSpares p (external_dies xs ys x e r q) =
      All (λ d. d.0 ≢ p) (freed x.finalizer x.payload x.hint)
  StepSpares p _ = Unit

  abbrev pub Spares : Address → {s t : State} → Reaches s t → Type 0
  Spares p reached = Unit
  Spares p (further r x) = Spares p r × StepSpares p x

  -- The object is still there, with the same shape.
  abbrev pub Lasting : Address → Shape → State → Type 0
  Lasting p k s = (shape_of (s.cells p) ≡ some k) × (p < s.next)

  Lasting-Tame : {s t : State} (p : Address) (k : Shape) → Tame s t → Lasting p k s → Lasting p k t
  Lasting-Tame p k x (a, l) = let g = x.grows in (x.lives p k l a, omega arith)

  Lasting-Steady :
      {s t : State} {m : M (Unit {0})} (p : Address) (k : Shape)
      → IsSteady m
      → m s ≡ ok tt t
      → Lasting p k s
      → Lasting p k t
  Lasting-Steady {s} {t} p k f e =
      Lasting-Tame p k (Steady-Tame (subst (λ r. After (Steady s) r) e (f.steady s)))

  Step-Lasting :
      {s t : State} (p : Address) (k : Shape) (x : Step s t)
      → StepSpares p x
      → Sound s
      → Lasting p k s
      → Lasting p k t
  Step-Lasting {s} p k (method_returns {m} info x e) spares a l =
      Lasting-Tame p k (subst (λ r. After (Tame s) r) e ((All-Mem _ x exports-IsTame info).tame s))
        l
  Step-Lasting {s} p k (method_returns_null {m} info x e) spares a l =
      Lasting-Tame p k (subst (λ r. After (Tame s) r) e ((All-Mem _ x exports-IsTame info).tame s))
        l
  Step-Lasting p k (engine_acts e) spares a l = l
  Step-Lasting {s} p k (external_dies xs ys x e r q) spares a (live, old) =
      let (u, ends, mine, frees, sound, rest) = finalizer_lem s xs ys x e a r in
      let g = frees.kept in
      subst (λ o. After (Lasting p k) o) (sym ends ∙ q) (frees.lives p k spares live, omega arith)
  Step-Lasting p k (worker_enters q e) spares a l = Lasting-Steady p k (begin_enter-IsSteady q) e l
  Step-Lasting p k (worker_executes q e) spares a l =
      Lasting-Steady p k (begin_execute-IsSteady q) e l
  Step-Lasting p k (worker_leaves q e) spares a l = Lasting-Steady p k (begin_leave-IsSteady q) e l
  Step-Lasting p k (worker_finishes q e) spares a l = Lasting-Steady p k (finish-IsSteady q) e l

  pub Reaches-Lasting :
      {s t : State} (p : Address) (k : Shape) (r : Reaches s t)
      → Spares p r
      → Sound s
      → Lasting p k s
      → Lasting p k t
  Reaches-Lasting p k reached spares a l = l
  Reaches-Lasting p k (further r x) (y, z) a l =
      Step-Lasting p k x z (Reaches-Sound r a) (Reaches-Lasting p k r y a l)
