-- ===== src/Ownership/Finishing.antt =====
-- The rest of a method that has made objects, up to the registration of an external.
use rocksdb_ts.Prelude.{List, [], ◌++◌}
use rocksdb_ts.Host.{Host}
use rocksdb_ts.Machine.{State, Outcome, ok, returned, fault, M, ◌>>=◌, ◌>>◌, and_then}
use rocksdb_ts.Ownership.{Claim, Steady, Made, Tame, After, IsSteady, IsTame}
use rocksdb_ts.Ownership.Steps.{Steady-refl, Steady-trans, Made-Steady, Steady-Tame}
use rocksdb_ts.Ownership.Making.{Given, Makes, Made-append}

module _ ⦃h : Host⦄ where
  -- The rest of a method that began at a state and has made some objects.
  pub record Finishes {A : Type 0} (s : State) (cs : List Claim) (m : M A) : Type 0 where
    pub finishes : (t : State) → Steady s t → Made s t cs → After (Tame s) (m t)

  pub IsTame-Finishes : {A : Type 0} {m : M A} → ((s : State) → Finishes s [] m) → IsTame m
  IsTame-Finishes f = record {
    tame = λ s. (f s).finishes s (Steady-refl s) (record { held = tt; since = tt; once = tt });
  }

  Finishes-and_then :
      {A B : Type 0} (s t : State) {cs : List Claim} (n : A → M B)
      → ((a : A) → Finishes s cs (n a))
      → Steady s t
      → Made s t cs
      → (r : Outcome A) → After (Steady t) r
      → After (Tame s) (and_then r n)
  Finishes-and_then s t n g x m (ok a u) y = (g a).finishes u (Steady-trans x y) (Made-Steady m y)
  Finishes-and_then s t n g x m (returned u) y = Steady-Tame (Steady-trans x y)
  Finishes-and_then s t n g x m (fault e) y = y

  pub Finishes-bind :
      {A B : Type 0} {s : State} {cs : List Claim} {m : M A} {n : A → M B}
      → IsSteady m
      → ((a : A) → Finishes s cs (n a))
      → Finishes s cs (m >>= n)
  Finishes-bind {s} {m} {n} f g = record {
    finishes = λ t x y. Finishes-and_then s t n g x y (m t) (f.steady t);
  }

  pub Finishes-then :
      {A B : Type 0} {s : State} {cs : List Claim} {m : M A} {n : M B}
      → IsSteady m
      → Finishes s cs n
      → Finishes s cs (m >> n)
  Finishes-then f g = Finishes-bind f λ a. g

  pub Finishes-made :
      {A B : Type 0} (s t : State) {cs : List Claim} (f : A → List Claim) (n : A → M B)
      → ((a : A) → Finishes s (f a ++ cs) (n a))
      → Steady s t
      → Made s t cs
      → (r : Outcome A) → Given (λ a u. Steady t u × Made t u (f a)) (Steady t) r
      → After (Tame s) (and_then r n)
  Finishes-made s t f n g x m (ok a u) (y, z) =
      (g a).finishes u (Steady-trans x y) (Made-append x y m z)
  Finishes-made s t f n g x m (returned u) y = Steady-Tame (Steady-trans x y)
  Finishes-made s t f n g x m (fault e) y = y

  pub Finishes-Makes :
      {A B : Type 0} {s : State} {cs : List Claim} {f : A → List Claim} {m : M A} {n : A → M B}
      → Makes f m
      → ((a : A) → Finishes s (f a ++ cs) (n a))
      → Finishes s cs (m >>= n)
  Finishes-Makes {s} {f} {m} {n} x g = record {
    finishes = λ t y z. Finishes-made s t f n g y z (m t) (x.makes t);
  }

  pub IsTame-Makes :
      {A B : Type 0} {f : A → List Claim} {m : M A} {n : A → M B}
      → Makes f m
      → ((s : State) (a : A) → Finishes s (f a ++ []) (n a))
      → IsTame (m >>= n)
  IsTame-Makes x g = IsTame-Finishes λ s. Finishes-Makes x (g s)
