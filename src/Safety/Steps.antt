-- ===== src/Safety/Steps.antt =====
-- How code ends because its parts do.
use rocksdb_ts.Prelude.{refl, ap, ◌∙◌, Bool, true, false, if◌then◌else◌, arith}
use rocksdb_ts.Host.{Host, Address}
use rocksdb_ts.Machine.{State, Outcome, ok, returned, fault, M, Slice, ◌>>=◌, ◌>>◌, and_then, pure}
use rocksdb_ts.Ownership.{Sort, sort_of, Claim, Holds}
use rocksdb_ts.Safety.{Ends, Leads, Points, Calm, Reads, Safe, EndsIn, Readable}

module _ ⦃h : Host⦄ where
  pub Calm-refl : (s : State) → Calm s s
  Calm-refl s = record { grows = omega arith; same = λ p l. refl }

  pub Calm-trans : {s t u : State} → Calm s t → Calm t u → Calm s u
  Calm-trans a b = record {
    grows = let x = a.grows in let y = b.grows in omega arith;
    same = λ p l. let x = a.grows in b.same p (omega arith) ∙ a.same p l;
  }

  -- What is known of a state is known of those that leave its objects as they are.
  pub Holds-Calm : {s t : State} (c : Claim) → Calm s t → Holds s c → Holds t c
  Holds-Calm c x (live, old) = let g = x.grows in (ap sort_of (x.same c.0 old) ∙ live, omega arith)

  pub live-Calm :
      {s t : State} {p : Address} {k : Sort} → Calm s t → Holds s (p, k) → Holds t (p, k)
  live-Calm {p} {k} x a = Holds-Calm (p, k) x a

  pub Points-Calm :
      {s t : State} {k : Sort} {v : h.napi.Value} → Calm s t → Points s k v → Points t k v
  Points-Calm {k} x a = record { points = λ e p q. Holds-Calm (p, k) x (a.points e p q) }

  pub Readable-Calm : {s t : State} {x : Slice} → Calm s t → Readable s x → Readable t x
  Readable-Calm a r = record { bytes = λ u b. r.bytes u (Calm-trans a b) }

  pub Leads-and_then :
      {A B : Type 0} (P : A → State → Type 0) (Q : B → State → Type 0) (r : Outcome A) (n : A → M B)
      → Leads P r
      → ((a : A) (t : State) → P a t → Leads Q (n a t))
      → Leads Q (and_then r n)
  Leads-and_then P Q (ok a t) n x f = f a t x
  Leads-and_then P Q (returned t) n x f = tt
  Leads-and_then P Q (fault e) n x f = x

  -- The end of a method, after what is known of the part before.
  pub Ends-and_then :
      {A B : Type 0} (P : A → State → Type 0) (r : Outcome A) (n : A → M B)
      → Leads P r
      → ((a : A) (t : State) → P a t → Ends (n a t))
      → Ends (and_then r n)
  Ends-and_then P (ok a t) n x f = f a t x
  Ends-and_then P (returned t) n x f = tt
  Ends-and_then P (fault e) n x f = x

  pub Leads-Ends : {A : Type 0} (P : A → State → Type 0) (r : Outcome A) → Leads P r → Ends r
  Leads-Ends P (ok a t) x = tt
  Leads-Ends P (returned t) x = tt
  Leads-Ends P (fault e) x = x

  pub Reads-bind :
      {s : State} {A B : Type 0} {m : M A} {n : A → M B}
      → Reads s m
      → ((a : A) → Reads s (n a))
      → Reads s (m >>= n)
  Reads-bind {m} {n} f g = record {
    reads = λ t x. Leads-and_then _ _ (m t) n (f.reads t x) (λ a u. (g a).reads u);
  }

  pub Reads-then :
      {s : State} {A B : Type 0} {m : M A} {n : M B} → Reads s m → Reads s n → Reads s (m >> n)
  Reads-then f g = Reads-bind f λ a. g

  pub Reads-pure : {s : State} {A : Type 0} (a : A) → Reads s (pure a)
  Reads-pure a = record { reads = λ t x. x }

  pub Reads-if :
      {s : State} {A : Type 0} (b : Bool) {m n : M A}
      → Reads s m
      → Reads s n
      → Reads s (if b then m else n)
  Reads-if true f g = f
  Reads-if false f g = g

  -- A part that leaves all objects of the state in which it runs leaves those of an earlier state.
  pub Reads-all :
      (s : State) {A : Type 0} {m : M A} → ((t : State) → Leads (λ a. Calm t) (m t)) → Reads s m
  Reads-all s {m} f = record { reads = λ t x. later (m t) (f t) x }
    where
      later :
          {A : Type 0} {s t : State} (r : Outcome A)
          → Leads (λ a. Calm t) r
          → Calm s t
          → Leads (λ a. Calm s) r
      later (ok a u) y x = Calm-trans x y
      later (returned u) y x = tt
      later (fault e) y x = y

  pub Safe-bind :
      {s : State} {A B : Type 0} {m : M A} {n : A → M B}
      → Reads s m
      → ((a : A) → Safe s (n a))
      → Safe s (m >>= n)
  Safe-bind {m} {n} f g = record {
    safe = λ t x. Ends-and_then _ (m t) n (f.reads t x) (λ a u. (g a).safe u);
  }

  pub Safe-then :
      {s : State} {A B : Type 0} {m : M A} {n : M B} → Reads s m → Safe s n → Safe s (m >> n)
  Safe-then f g = Safe-bind f λ a. g

  pub Safe-Reads : {s : State} {A : Type 0} {m : M A} → Reads s m → Safe s m
  Safe-Reads {m} f = record { safe = λ t x. Leads-Ends _ (m t) (f.reads t x) }

  pub Safe-EndsIn : {s : State} {A : Type 0} {m : M A} → Safe s m → EndsIn s m
  Safe-EndsIn {s} f = record { ends = f.safe s (Calm-refl s) }

  -- The last effect of a method, before it answers.
  pub Safe-last : {s : State} {A B : Type 0} {m : M A} (b : B) → Safe s m → Safe s (m >> pure b)
  Safe-last {s} {A} {m} b f = record { safe = λ t x. ended (m t) (f.safe t x) }
    where
      ended : (r : Outcome A) → Ends r → Ends (and_then r (λ a. pure b))
      ended (ok a t) x = tt
      ended (returned t) x = tt
      ended (fault e) x = x
