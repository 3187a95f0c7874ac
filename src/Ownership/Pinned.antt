-- ===== src/Ownership/Pinned.antt =====
-- The reference that rocksdb_open keeps on the external of a database, while the process goes on.
use rocksdb_ts.Prelude.{◌≡◌, List, [], ◌∷◌, ◌++◌, All, subst, sym, ◌∙◌}
use rocksdb_ts.Host.{Host, Address, Finalizer}
use rocksdb_ts.Machine.{database, External, State, ok, M}
use rocksdb_ts.Ownership.{
  container_sort, native_sort, unless_null, freed, claims, Holds, Distinct, Sound, Room, Held,
  References, Registered, Steady, Tame, After, IsSteady,
}
use rocksdb_ts.Ownership.Steps.{Steady-Tame, All-map, Registered-Lives}
use rocksdb_ts.Ownership.Keeps.{Sound-Tame}
use rocksdb_ts.Ownership.Making.{All-append}
use rocksdb_ts.Ownership.Workers.{Idle}
use rocksdb_ts.Ownership.Spared.{FreesNone-Registered, freed-Plain, Registered-Frees}
use rocksdb_ts.Ownership.Table.{exports-IsTame}
use rocksdb_ts.Ownership.Process.{without, finalizer_lem, All-split}
use rocksdb_ts.Ownership.Reaches.{
  Step, method_returns, method_returns_null, engine_acts, external_dies, worker_enters,
  worker_executes, worker_leaves, worker_finishes, Reaches, reached, further, begin_enter-IsSteady,
  begin_leave-IsSteady, begin_execute-IsSteady, finish-IsSteady, All-Mem, Step-Sound,
}

module _ ⦃h : Host⦄ where
  -- The engine collects no value that a strong reference keeps alive.
  abbrev StepRespects : {s t : State} → Step s t → Type 0
  StepRespects {s} (external_dies xs ys x e r q) = ¬ (Held x.value s.references)
  StepRespects _ = Unit

  abbrev pub Respects : {s t : State} → Reaches s t → Type 0
  Respects reached = Unit
  Respects (further r x) = Respects r × StepRespects x

  -- What keeps databases alive, of every external of a state.
  abbrev AllRegistered : State → List External → Type 0
  AllRegistered s = All (λ x. Registered s x.finalizer x.value x.hint)

  record Kept (s : State) : Type 0 where
    sound : Sound s
    unused : Room s
    registered : AllRegistered s s.externals

  Kept-Tame : {s t : State} → References → Tame s t → Sound t → Kept s → Kept t
  Kept-Tame {s} {t} refs x sound a = record {
    sound = sound;
    unused = x.room a.unused;
    registered = subst (AllRegistered t) (sym x.registered) (
        All-append _ x.added s.externals (x.pinned refs a.unused) (
          All-map s.externals
            (λ y. Registered-Lives s t y.finalizer y.value y.hint x.grows x.lives x.refs)
            a.registered));
  }

  Kept-Steady :
      {s t : State} {m : M (Unit {0})} → References → IsSteady m → m s ≡ ok tt t → Kept s → Kept t
  Kept-Steady {s} {t} refs f e a =
      let x : Tame s t = Steady-Tame (subst (λ r. After (Steady s) r) e (f.steady s)) in
      Kept-Tame refs x (Sound-Tame x a.sound) a

  others :
      {A : Type 0} (P : A → Type 0) (xs ys : List A) (x : A)
      → All P (xs ++ (x ∷ ys))
      → P x × All P (xs ++ ys)
  others P xs ys x a = let (b, (c, d)) = All-split P xs (x ∷ ys) a in (c, All-append P xs ys b d)

  pub each_held :
      (t : State) (xs : List External)
      → All (Holds t) (claims xs)
      → All (λ y. All (Holds t) (freed y.finalizer y.payload y.hint)) xs
  each_held t [] a = tt
  each_held t (x ∷ xs) a =
      let (b, c) = All-split (Holds t) (freed x.finalizer x.payload x.hint) (claims xs) a in
      (b, each_held t xs c)

  Step-Kept : {s t : State} → References → (x : Step s t) → StepRespects x → Kept s → Kept t
  Step-Kept {s} refs (method_returns {m} info x e) respects a =
      Kept-Tame refs (subst (λ r. After (Tame s) r) e ((All-Mem _ x exports-IsTame info).tame s))
        (Step-Sound (method_returns info x e) a.sound) a
  Step-Kept {s} refs (method_returns_null {m} info x e) respects a =
      Kept-Tame refs (subst (λ r. After (Tame s) r) e ((All-Mem _ x exports-IsTame info).tame s))
        (Step-Sound (method_returns_null info x e) a.sound) a
  Step-Kept refs (engine_acts e) respects a = record {
    sound = Step-Sound (engine_acts e) a.sound;
    unused = a.unused;
    registered = a.registered;
  }
  Step-Kept {s} {t} refs (external_dies xs ys x e r q) respects a =
      let (u, ends, mine, frees, sound, rest) = finalizer_lem s xs ys x e a.sound r in
      let (own, left) = others _ xs ys x (subst (AllRegistered s) e a.registered) in
      let plain =
        freed-Plain x.finalizer x.payload x.hint
          (FreesNone-Registered s x.finalizer x.value x.hint respects own) in
      let kept : Kept u = record {
        sound = sound;
        unused = frees.room a.unused;
        registered = subst (AllRegistered u) (sym rest) (
            All-map (xs ++ ys)
              (λ y.
                Registered-Frees (without s (xs ++ ys)) u (freed x.finalizer x.payload x.hint)
                  y.finalizer y.value y.hint frees plain mine)
              left);
      } in
      subst (λ o. After Kept o) (sym ends ∙ q) kept
  Step-Kept refs (worker_enters q e) respects a = Kept-Steady refs (begin_enter-IsSteady q) e a
  Step-Kept refs (worker_executes q e) respects a = Kept-Steady refs (begin_execute-IsSteady q) e a
  Step-Kept refs (worker_leaves q e) respects a = Kept-Steady refs (begin_leave-IsSteady q) e a
  Step-Kept refs (worker_finishes q e) respects a = Kept-Steady refs (finish-IsSteady q) e a

  Reaches-Kept : {s t : State} → References → (r : Reaches s t) → Respects r → Kept s → Kept t
  Reaches-Kept refs reached respects a = a
  Reaches-Kept refs (further r x) (y, z) a = Step-Kept refs x z (Reaches-Kept refs r y a)

  -- The finalizer of a worker needs the worker to be idle, and no other needs anything.
  abbrev pub IdleWorker : State → Finalizer → Address → Type 0
  IdleWorker s Finalizer.rocksdb_batch_write_async_finalize p = Idle s p
  IdleWorker s _ p = Unit

  none-Kept : (s : State) → s.externals ≡ [] → Room s → Kept s
  none-Kept s none_yet room = record {
    sound = record {
      held = subst (λ xs. All (Holds s) (claims xs)) (sym none_yet) tt;
      once = subst (λ xs. Distinct (claims xs)) (sym none_yet) tt;
    };
    unused = room;
    registered = subst (AllRegistered s) (sym none_yet) tt;
  }

  -- From a state in which the engine holds no external and no object lives at an address that is not
  -- given out yet, through any calls, finalizers and steps of workers in any order: if the engine
  -- collects no value that a strong reference keeps alive, and refuses no reference, then the
  -- external of every database that was opened is kept alive by a reference for as long as it is
  -- registered, and its database is live. So it is never collected and never finalized.
  pub Respects-Held :
      {s t : State} (xs ys : List External) (x : External)
      → s.externals ≡ []
      → Room s
      → References
      → (r : Reaches s t) → Respects r
      → t.externals ≡ xs ++ (x ∷ ys)
      → x.finalizer ≡ Finalizer.rocksdb_finalize
      → Held x.value t.references × All (Holds t) (unless_null x.payload (native_sort database))
  Respects-Held {s} {t} xs ys x none_yet room refs r respects e is =
      let a = Reaches-Kept refs r respects (none-Kept s none_yet room) in
      let (own, left) = others _ xs ys x (subst (AllRegistered t) e a.registered) in
      let (mine, rest) =
        others (λ y. All (Holds t) (freed y.finalizer y.payload y.hint)) xs ys x
          (each_held t (xs ++ (x ∷ ys)) (subst (λ zs. All (Holds t) (claims zs)) e a.sound.held)) in
      (
        subst (λ f. Registered t f x.value x.hint) is own,
        (All-split (Holds t) (unless_null x.hint container_sort) _
            (subst (λ f. All (Holds t) (freed f x.payload x.hint)) is mine)).1,
      )
