-- ===== src/Ownership/Fresh.antt =====
-- Code that also changes an object that it has just made.
use rocksdb_ts.Prelude.{
  ◌≤◌, ◌<◌, ◌≡◌, ◌≢◌, refl, some, [], ◌∷◌, arith, update, suc, ◌∙◌, sym, subst,
}
use rocksdb_ts.Host.{Host, Address}
use rocksdb_ts.Machine.{
  Cell, State, Outcome, ok, returned, fault, M, ◌>>=◌, ◌>>◌, and_then, call, pure,
}
use rocksdb_ts.Machine.Effects.{new}
use rocksdb_ts.Ownership.{Sort, sort_of, Shape, shape_of, Room, Held, Steady, Made, After, IsSteady}
use rocksdb_ts.Ownership.Steps.{Lives-sort, After-map, After-and_then, After-end_call}
use rocksdb_ts.Ownership.Making.{Given, Makes}

module _ ⦃h : Host⦄ where
  -- The object at `q` keeps its class, and all others their shapes.
  pub record Except (q : Address) (s t : State) : Type 0 where
    pub grows : s.next ≤ t.next
    pub lives :
        (p : Address) (k : Shape)
        → p ≢ q
        → p < s.next
        → shape_of (s.cells p) ≡ some k
        → shape_of (t.cells p) ≡ some k
    pub own : (k : Sort) → q < s.next → sort_of (s.cells q) ≡ some k → sort_of (t.cells q) ≡ some k
    pub room : Room s → Room t
    pub refs : (v : h.napi.Value) → Held v s.references → Held v t.references
    pub same : t.externals ≡ s.externals

  Except-Steady : {q : Address} {s t : State} → Steady s t → Except q s t
  Except-Steady {q} {s} {t} x = record {
    grows = x.grows;
    lives = λ p k n. x.lives p k;
    own = λ k. Lives-sort s t q k x.lives;
    room = x.room;
    refs = x.refs;
    same = x.same;
  }

  Except-trans : {q : Address} {s t u : State} → Except q s t → Except q t u → Except q s u
  Except-trans a b = record {
    grows = let x = a.grows in let y = b.grows in omega arith;
    lives = λ p k n l e. let x = a.grows in b.lives p k n (omega arith) (a.lives p k n l e);
    own = λ k l e. let x = a.grows in b.own k (omega arith) (a.own k l e);
    room = λ m. b.room (a.room m);
    refs = λ v x. b.refs v (a.refs v x);
    same = b.same ∙ a.same;
  }

  pub record IsExcept (q : Address) {A : Type 0} (m : M A) : Type 0 where
    pub except : (s : State) → After (Except q s) (m s)

  pub IsExcept-of : {q : Address} {A : Type 0} {m : M A} → IsSteady m → IsExcept q m
  IsExcept-of {m} f = record { except = λ s. After-map (m s) (λ t. Except-Steady) (f.steady s) }

  pub IsExcept-bind :
      {q : Address} {A B : Type 0} {m : M A} {n : A → M B}
      → IsExcept q m
      → ((a : A) → IsExcept q (n a))
      → IsExcept q (m >>= n)
  IsExcept-bind {m} {n} f g = record {
    except = λ s.
        After-and_then (m s) n (f.except s)
          (λ a t x. After-map (n a t) (λ u. Except-trans x) ((g a).except t));
  }

  pub IsExcept-then :
      {q : Address} {A B : Type 0} {m : M A} {n : M B}
      → IsExcept q m
      → IsExcept q n
      → IsExcept q (m >> n)
  IsExcept-then f g = IsExcept-bind f λ a. g

  pub IsExcept-call : {q : Address} {m : M (Unit {0})} → IsExcept q m → IsExcept q (call m)
  IsExcept-call {m} f = record { except = λ s. After-end_call _ (m s) (f.except s) }

  -- The code gives the object.
  pub record GivesBack (q : Address) (m : M Address) : Type 0 where
    pub passes : (s : State) → Given (λ p t. (p ≡ q) × Except q s t) (Except q s) (m s)

  pub GivesBack-pure : (q : Address) → GivesBack q (pure q)
  GivesBack-pure q = record {
    passes = λ s. (
      refl,
      record {
        grows = omega arith;
        lives = λ p k n l e. e;
        own = λ k l e. e;
        room = λ m. m;
        refs = λ v x. x;
        same = refl;
      },
    );
  }

  Given-Except :
      {q : Address} {s t : State} (r : Outcome Address)
      → Except q s t
      → Given (λ p u. (p ≡ q) × Except q t u) (Except q t) r
      → Given (λ p u. (p ≡ q) × Except q s u) (Except q s) r
  Given-Except (ok p u) x (e, y) = (e, Except-trans x y)
  Given-Except (returned u) x y = Except-trans x y
  Given-Except (fault e) x y = y

  Given-before :
      {q : Address} {B : Type 0} (s : State) (n : M Address)
      → GivesBack q n
      → (r : Outcome B) → After (Except q s) r
      → Given (λ p u. (p ≡ q) × Except q s u) (Except q s) (and_then r (λ x. n))
  Given-before s n f (ok b t) x = Given-Except (n t) x (f.passes t)
  Given-before s n f (returned t) x = x
  Given-before s n f (fault e) x = x

  pub GivesBack-then :
      {q : Address} {B : Type 0} {m : M B} {n : M Address}
      → IsExcept q m
      → GivesBack q n
      → GivesBack q (m >> n)
  GivesBack-then {m} {n} f g = record { passes = λ s. Given-before s n g (m s) (f.except s) }

  abbrev made : State → Cell → State
  made s c = record s { cells = update s.cells s.next (some c); next = suc s.next }

  -- What was there before the object was made keeps its shape.
  Steady-Except : {s t : State} (c : Cell) → Except s.next (made s c) t → Steady s t
  Steady-Except {s} c x = record {
    grows = let l = x.grows in omega arith;
    lives = λ p k l e. x.lives p k (λ n. omega arith) (omega arith) (ground arith);
    room = λ m. x.room (λ q l. ground (arith, m q));
    refs = x.refs;
    same = x.same;
  }

  own_held :
      {s t : State} (c : Cell) (k : Sort)
      → sort_of (some c) ≡ some k
      → Except s.next (made s c) t
      → Made s t ((s.next, k) ∷ [])
  own_held {s} c k e x =
      let l = x.grows in
      record {
        held = ((x.own k (omega arith) (ground arith), omega arith), tt);
        since = (omega arith, tt);
        once = (tt, tt);
      }

  own_made :
      (s : State) (c : Cell) (k : Sort) (r : Outcome Address)
      → sort_of (some c) ≡ some k
      → Given (λ p u. (p ≡ s.next) × Except s.next (made s c) u) (Except s.next (made s c)) r
      → Given (λ p u. Steady s u × Made s u ((p, k) ∷ [])) (Steady s) r
  own_made s c k (ok p u) e (q, x) =
      (Steady-Except c x, subst (λ p. Made s u ((p, k) ∷ [])) (sym q) (own_held c k e x))
  own_made s c k (returned u) e x = Steady-Except c x
  own_made s c k (fault f) e x = x

  -- An object that is made, changed and given.
  pub Makes-own :
      (c : Cell) (k : Sort) {n : Address → M Address}
      → sort_of (some c) ≡ some k
      → ((q : Address) → GivesBack q (n q))
      → Makes (λ p. (p, k) ∷ []) (new c >>= n)
  unfolding new
  Makes-own c k {n} e f = record {
    makes = λ s. own_made s c k (n s.next (made s c)) e ((f s.next).passes (made s c));
  }
