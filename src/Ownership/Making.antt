-- ===== src/Ownership/Making.antt =====
-- Code that makes objects: what it has made is live, new, and made once.
use rocksdb_ts.Prelude.{
  ◌≤◌, ◌≡◌, ◌≢◌, refl, Bool, true, false, some, List, [], ◌∷◌, ◌++◌, ◌==◌, if◌then◌else◌, All,
  arith, subst, sym,
}
use rocksdb_ts.Host.{Host, Address}
use rocksdb_ts.Machine.{Cell, State, Outcome, ok, returned, fault, M, ◌>>=◌, ◌>>◌, and_then, pure}
use rocksdb_ts.Machine.Effects.{new}
use rocksdb_ts.Ownership.{
  Sort, sort_of, Claim, unless_null, Holds, Distinct, Steady, Made, Allowed, After, IsSteady,
}
use rocksdb_ts.Ownership.Steps.{Steady-refl, Steady-trans, All-map, Made-Steady}
use rocksdb_ts.Ownership.Heap.{Steady-new}

module _ ⦃h : Host⦄ where
  -- What holds of the value and the state if the code goes on, and of the state if it has returned.
  abbrev pub Given : {A : Type 0} → (A → State → Type 0) → (State → Type 0) → Outcome A → Type 0
  Given Q P (ok a t) = Q a t
  Given Q P (returned t) = P t
  Given Q P (fault e) = Allowed e

  -- The code makes the objects that it gives, and harms no other.
  pub record Makes {A : Type 0} (f : A → List Claim) (m : M A) : Type 0 where
    pub makes : (s : State) → Given (λ a t. Steady s t × Made s t (f a)) (Steady s) (m s)

  -- The code gives the value, and harms no object.
  pub record Passes {A : Type 0} (a : A) (m : M A) : Type 0 where
    pub passes : (s : State) → Given (λ b t. (b ≡ a) × Steady s t) (Steady s) (m s)

  pub All-append :
      {A : Type 0} (P : A → Type 0) (xs ys : List A) → All P xs → All P ys → All P (xs ++ ys)
  All-append P [] ys a b = b
  All-append P (x ∷ xs) ys (p, a) b = (p, All-append P xs ys a b)

  apart :
      (t : State) (d : Claim) (cs : List Claim)
      → t.next ≤ d.0
      → All (Holds t) cs
      → All (λ c. d.0 ≢ c.0) cs
  apart t d cs l a = All-map cs (λ c x e. let y = x.1 in omega arith) a

  pub Distinct-append :
      (t : State) (ds cs : List Claim)
      → All (λ c. t.next ≤ c.0) ds
      → Distinct ds
      → All (Holds t) cs
      → Distinct cs
      → Distinct (ds ++ cs)
  Distinct-append t [] cs a x b y = y
  Distinct-append t (d ∷ ds) cs (l, a) (z, x) b y =
      (All-append (λ c. d.0 ≢ c.0) ds cs z (apart t d cs l b), Distinct-append t ds cs a x b y)

  pub Made-append :
      {s t u : State} {cs ds : List Claim}
      → Steady s t
      → Steady t u
      → Made s t cs
      → Made t u ds
      → Made s u (ds ++ cs)
  Made-append {s} {t} {u} {cs} {ds} a b m n = record {
    held = All-append (Holds u) ds cs n.held (Made-Steady m b).held;
    since =
        All-append (λ c. s.next ≤ c.0) ds cs
          (All-map ds (λ c l. let x = a.grows in omega arith) n.since) m.since;
    once = Distinct-append t ds cs n.since n.once m.held m.once;
  }

  Made-tail : {s t : State} {c : Claim} {cs : List Claim} → Made s t (c ∷ cs) → Made s t cs
  Made-tail m = record { held = m.held.1; since = m.since.1; once = m.once.1 }

  -- An object at the null address counts for nothing.
  pub Made-unless_null :
      {s t : State} {p : Address} {k : Sort} {cs : List Claim}
      → Made s t ((p, k) ∷ cs)
      → Made s t (unless_null p k ++ cs)
  Made-unless_null {s} {t} {p} {k} {cs} m = lemma (p == 0)
    where
      lemma : (b : Bool) → Made s t ((if b then [] else (p, k) ∷ []) ++ cs)
      lemma true = Made-tail m
      lemma false = m

  pub new-Makes :
      (c : Cell) {k : Sort} → sort_of (some c) ≡ some k → Makes (λ p. (p, k) ∷ []) (new c)
  unfolding new
  new-Makes c e = record {
    makes = λ s. (
      Steady-new s c,
      record {
        held = ((ground arith, omega arith), tt);
        since = (omega arith, tt);
        once = (tt, tt);
      },
    );
  }

  pub Passes-pure : {A : Type 0} (a : A) → Passes a (pure a)
  Passes-pure a = record { passes = λ s. (refl, Steady-refl s) }

  Given-trans :
      {A : Type 0} {s t : State} (a : A) (r : Outcome A)
      → Steady s t
      → Given (λ b u. (b ≡ a) × Steady t u) (Steady t) r
      → Given (λ b u. (b ≡ a) × Steady s u) (Steady s) r
  Given-trans a (ok b u) x (e, y) = (e, Steady-trans x y)
  Given-trans a (returned u) x y = Steady-trans x y
  Given-trans a (fault e) x y = y

  Given-then :
      {A B : Type 0} (s : State) (a : A) (n : M A)
      → Passes a n
      → (r : Outcome B) → After (Steady s) r
      → Given (λ b u. (b ≡ a) × Steady s u) (Steady s) (and_then r (λ x. n))
  Given-then s a n f (ok b t) x = Given-trans a (n t) x (f.passes t)
  Given-then s a n f (returned t) x = x
  Given-then s a n f (fault e) x = x

  pub Passes-then :
      {A B : Type 0} {a : A} {m : M B} {n : M A} → IsSteady m → Passes a n → Passes a (m >> n)
  Passes-then {a} {m} {n} f g = record { passes = λ s. Given-then s a n g (m s) (f.steady s) }

  Makes-after :
      {A : Type 0} {s t : State} (f : A → List Claim) (a : A) (r : Outcome A)
      → Steady s t
      → Made s t (f a)
      → Given (λ b u. (b ≡ a) × Steady t u) (Steady t) r
      → Given (λ b u. Steady s u × Made s u (f b)) (Steady s) r
  Makes-after {s} f a (ok b u) x m (e, y) =
      (Steady-trans x y, subst (λ c. Made s u (f c)) (sym e) (Made-Steady m y))
  Makes-after f a (returned u) x m y = Steady-trans x y
  Makes-after f a (fault e) x m y = y

  Makes-and_then :
      {A : Type 0} (s : State) (f : A → List Claim) (n : A → M A)
      → ((a : A) → Passes a (n a))
      → (r : Outcome A) → Given (λ a t. Steady s t × Made s t (f a)) (Steady s) r
      → Given (λ a t. Steady s t × Made s t (f a)) (Steady s) (and_then r n)
  Makes-and_then s f n g (ok a t) (x, m) = Makes-after f a (n a t) x m ((g a).passes t)
  Makes-and_then s f n g (returned t) x = x
  Makes-and_then s f n g (fault e) x = x

  pub Makes-Passes :
      {A : Type 0} {f : A → List Claim} {m : M A} {n : A → M A}
      → Makes f m
      → ((a : A) → Passes a (n a))
      → Makes f (m >>= n)
  Makes-Passes {f} {m} {n} x g = record { makes = λ s. Makes-and_then s f n g (m s) (x.makes s) }

  Made-before : {s t u : State} {cs : List Claim} → Steady s t → Made t u cs → Made s u cs
  Made-before {cs} x m = record {
    held = m.held;
    since = All-map cs (λ c l. let y = x.grows in omega arith) m.since;
    once = m.once;
  }

  Given-before :
      {A : Type 0} {s t : State} (f : A → List Claim) (r : Outcome A)
      → Steady s t
      → Given (λ a u. Steady t u × Made t u (f a)) (Steady t) r
      → Given (λ a u. Steady s u × Made s u (f a)) (Steady s) r
  Given-before f (ok a u) x (y, m) = (Steady-trans x y, Made-before x m)
  Given-before f (returned u) x y = Steady-trans x y
  Given-before f (fault e) x y = y

  Makes-later :
      {A B : Type 0} (s : State) (f : B → List Claim) (n : A → M B)
      → ((a : A) → Makes f (n a))
      → (r : Outcome A) → After (Steady s) r
      → Given (λ a u. Steady s u × Made s u (f a)) (Steady s) (and_then r n)
  Makes-later s f n g (ok a t) x = Given-before f (n a t) x ((g a).makes t)
  Makes-later s f n g (returned t) x = x
  Makes-later s f n g (fault e) x = x

  pub Makes-bind :
      {A B : Type 0} {f : B → List Claim} {m : M A} {n : A → M B}
      → IsSteady m
      → ((a : A) → Makes f (n a))
      → Makes f (m >>= n)
  Makes-bind {f} {m} {n} x g = record { makes = λ s. Makes-later s f n g (m s) (x.steady s) }
