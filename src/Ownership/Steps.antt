-- ===== src/Ownership/Steps.antt =====
-- How what a method does to the heap follows from what its parts do.
use rocksdb_ts.Prelude.{
  ◌≡◌, ◌≤◌, ◌<◌, refl, sym, Bool, true, false, Option, none, some, List, [], ◌∷◌, ◌++◌,
  if◌then◌else◌, All, arith, ◌∙◌, ap,
}
use rocksdb_ts.Host.{Host, Address, Finalizer}
use rocksdb_ts.Machine.{
  Cell, slice_cell, write_options_cell, read_options_cell, chars_cell, reference_container,
  worker_cell, native, State, Outcome, ok, returned, fault, M, ◌>>=◌, ◌>>◌, and_then, end_call,
  call, pure,
}
use rocksdb_ts.Ownership.{
  Registered, Held, Sort, sort_of, Shape, shape_of, Lives, Claim, claims, Holds, Steady, Made, Tame,
  After, IsSteady, IsTame,
}

module _ ⦃h : Host⦄ where
  pub Steady-refl : (s : State) → Steady s s
  Steady-refl s = record {
    grows = omega arith;
    lives = λ p k l e. e;
    room = λ m. m;
    refs = λ v x. x;
    same = refl;
  }

  pub Steady-trans : {s t u : State} → Steady s t → Steady t u → Steady s u
  Steady-trans a b = record {
    grows = let x = a.grows in let y = b.grows in omega arith;
    lives = λ p k l e. let x = a.grows in b.lives p k (omega arith) (a.lives p k l e);
    room = λ m. b.room (a.room m);
    refs = λ v x. b.refs v (a.refs v x);
    same = b.same ∙ a.same;
  }

  pub After-map :
      {A : Type 0} {P Q : State → Type 0} (r : Outcome A)
      → ((t : State) → P t → Q t)
      → After P r
      → After Q r
  After-map (ok a t) f x = f t x
  After-map (returned t) f x = f t x
  After-map (fault e) f x = x

  pub After-and_then :
      {A B : Type 0} {P : State → Type 0} (r : Outcome A) (n : A → M B)
      → After P r
      → ((a : A) (t : State) → P t → After P (n a t))
      → After P (and_then r n)
  After-and_then (ok a t) n x f = f a t x
  After-and_then (returned t) n x f = x
  After-and_then (fault e) n x f = x

  pub IsSteady-bind :
      {A B : Type 0} {m : M A} {n : A → M B}
      → IsSteady m
      → ((a : A) → IsSteady (n a))
      → IsSteady (m >>= n)
  IsSteady-bind {m} {n} f g = record {
    steady = λ s.
        After-and_then (m s) n (f.steady s)
          (λ a t x. After-map (n a t) (λ u. Steady-trans x) ((g a).steady t));
  }

  pub IsSteady-then :
      {A B : Type 0} {m : M A} {n : M B} → IsSteady m → IsSteady n → IsSteady (m >> n)
  IsSteady-then f g = IsSteady-bind f λ a. g

  pub After-end_call :
      (P : State → Type 0) (r : Outcome (Unit {0})) → After P r → After P (end_call r)
  After-end_call P (ok a t) x = x
  After-end_call P (returned t) x = x
  After-end_call P (fault e) x = x

  pub IsSteady-call : {m : M (Unit {0})} → IsSteady m → IsSteady (call m)
  IsSteady-call {m} f = record { steady = λ s. After-end_call _ (m s) (f.steady s) }

  pub IsSteady-pure : {A : Type 0} (a : A) → IsSteady (pure a)
  IsSteady-pure a = record { steady = Steady-refl }

  pub IsSteady-if :
      {A : Type 0} (b : Bool) {m n : M A} → IsSteady m → IsSteady n → IsSteady (if b then m else n)
  IsSteady-if true f g = f
  IsSteady-if false f g = g

  abbrev pub class : Option Shape → Option Sort
  class none = none
  class (some x) = some x.0

  pub class-shape_of : (c : Option Cell) → sort_of c ≡ class (shape_of c)
  class-shape_of none = refl
  class-shape_of (some (slice_cell x)) = refl
  class-shape_of (some (write_options_cell o)) = refl
  class-shape_of (some (read_options_cell o)) = refl
  class-shape_of (some (chars_cell n b)) = refl
  class-shape_of (some (reference_container r)) = refl
  class-shape_of (some (worker_cell w)) = refl
  class-shape_of (some (native k)) = refl

  pub same_class :
      (c d : Option Cell) (k : Sort) (r : Option Shape)
      → shape_of c ≡ r
      → ((x : Shape) → shape_of c ≡ some x → shape_of d ≡ some x)
      → sort_of c ≡ some k
      → sort_of d ≡ some k
  same_class c d k none q f e = absurd (no_class (sym e ∙ class-shape_of c ∙ ap class q))
    where
      no_class : some k ≡ none → ⊥
      no_class e = ground arith
  same_class c d k (some x) q f e =
      class-shape_of d ∙ ap class (f x q) ∙ ap class (sym q) ∙ sym (class-shape_of c) ∙ e

  -- An object that has its class stays so.
  pub Lives-sort :
      (s t : State) (p : Address) (k : Sort)
      → Lives s t
      → p < s.next
      → sort_of (s.cells p) ≡ some k
      → sort_of (t.cells p) ≡ some k
  Lives-sort s t p k x l =
      same_class (s.cells p) (t.cells p) k (shape_of (s.cells p)) refl (λ y. x p y l)

  pub Holds-Steady : {s t : State} (c : Claim) → Steady s t → Holds s c → Holds t c
  Holds-Steady {s} {t} c x (a, l) =
      let g = x.grows in (Lives-sort s t c.0 c.1 x.lives l a, omega arith)

  pub All-map :
      {A : Type 0} {P Q : A → Type 0} (xs : List A) → ((a : A) → P a → Q a) → All P xs → All Q xs
  All-map [] f x = x
  All-map (a ∷ xs) f (x, y) = (f a x, All-map xs f y)

  pub Made-Steady : {s t u : State} {cs : List Claim} → Made s t cs → Steady t u → Made s u cs
  Made-Steady {cs} m x = record {
    held = All-map cs (λ c. Holds-Steady c x) m.held;
    since = m.since;
    once = m.once;
  }

  -- What keeps a database alive stays.
  pub Registered-Lives :
      (s t : State) (fin : Finalizer) (v : h.napi.Value) (hint : Address)
      → s.next ≤ t.next
      → Lives s t
      → ((v : h.napi.Value) → Held v s.references → Held v t.references)
      → Registered s fin v hint
      → Registered t fin v hint
  Registered-Lives s t Finalizer.rocksdb_finalize v hint g x r a = r v a
  Registered-Lives s t Finalizer.rocksdb_snapshot_finalize v hint g x r (a, l) =
      (x hint _ l a, omega arith)
  Registered-Lives s t _ v hint g x r a = tt

  pub Tame-Steady : {s t u : State} → Tame s t → Steady t u → Tame s u
  Tame-Steady {s} {t} {u} a b = record {
    grows = let x = a.grows in let y = b.grows in omega arith;
    lives = λ p k l e. let x = a.grows in b.lives p k (omega arith) (a.lives p k l e);
    room = λ m. b.room (a.room m);
    refs = λ v x. b.refs v (a.refs v x);
    added = a.added;
    registered = b.same ∙ a.registered;
    made = Made-Steady a.made b;
    pinned = λ r m.
        All-map a.added
          (λ x. Registered-Lives t u x.finalizer x.value x.hint b.grows b.lives b.refs)
          (a.pinned r m);
  }

  pub Steady-Tame : {s t : State} → Steady s t → Tame s t
  Steady-Tame a = record {
    grows = a.grows;
    lives = a.lives;
    room = a.room;
    refs = a.refs;
    added = [];
    registered = a.same;
    made = record { held = tt; since = tt; once = tt };
    pinned = λ r m. tt;
  }

  pub Steady-Tame-trans : {s t u : State} → Steady s t → Tame t u → Tame s u
  Steady-Tame-trans a b = record {
    grows = let x = a.grows in let y = b.grows in omega arith;
    lives = λ p k l e. let x = a.grows in b.lives p k (omega arith) (a.lives p k l e);
    room = λ m. b.room (a.room m);
    refs = λ v x. b.refs v (a.refs v x);
    added = b.added;
    registered = b.registered ∙ ap (λ xs. b.added ++ xs) a.same;
    made = record {
      held = b.made.held;
      since = All-map (claims b.added) (λ c l. let x = a.grows in omega arith) b.made.since;
      once = b.made.once;
    };
    pinned = λ r m. b.pinned r (a.room m);
  }

  pub IsTame-of : {A : Type 0} {m : M A} → IsSteady m → IsTame m
  IsTame-of {m} f = record { tame = λ s. After-map (m s) (λ t. Steady-Tame) (f.steady s) }

  Tame-and_then :
      {A B : Type 0} (s : State) (n : A → M B)
      → ((a : A) → IsTame (n a))
      → (r : Outcome A) → After (Steady s) r
      → After (Tame s) (and_then r n)
  Tame-and_then s n g (ok a t) x = After-map (n a t) (λ u. Steady-Tame-trans x) ((g a).tame t)
  Tame-and_then s n g (returned t) x = Steady-Tame x
  Tame-and_then s n g (fault e) x = x

  -- Code before and after the registration of an external.
  pub IsTame-bind :
      {A B : Type 0} {m : M A} {n : A → M B}
      → IsSteady m
      → ((a : A) → IsTame (n a))
      → IsTame (m >>= n)
  IsTame-bind {m} {n} f g = record { tame = λ s. Tame-and_then s n g (m s) (f.steady s) }
