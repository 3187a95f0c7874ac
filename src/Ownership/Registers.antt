-- ===== src/Ownership/Registers.antt =====
-- The registration of an external over objects that a method has made.
use rocksdb_ts.Prelude.{
  ◌≡◌, refl, Option, none, some, List, [], ◌∷◌, ◌++◌, All, arith, ap, sym, subst, ◌∙◌,
}
use rocksdb_ts.Host.{Host, Address, Finalizer, Control, return_null, proceed}
use rocksdb_ts.Machine.{State, Outcome, M, ◌>>=◌, and_then, pure}
use rocksdb_ts.Machine.Macros.{create_external, return_external, napi_status_throws}
use rocksdb_ts.Ownership.{
  References, Room, Registered, Sort, Claim, unless_null, freed, Holds, Steady, Made, Tame, After,
}
use rocksdb_ts.Ownership.Steps.{Steady-refl, Steady-trans, After-map, Made-Steady, Steady-Tame}
use rocksdb_ts.Ownership.Parts.{Steady-outside}
use rocksdb_ts.Ownership.Making.{Made-unless_null}
use rocksdb_ts.Ownership.Finishing.{Finishes}

module _ ⦃h : Host⦄ where
  pub append-nil : {A : Type 0} (xs : List A) → xs ++ [] ≡ xs
  append-nil [] = refl
  append-nil (x ∷ xs) = ap (λ ys. x ∷ ys) (append-nil xs)

  Made-append_nil : {s t : State} {cs : List Claim} → Made s t (cs ++ []) → Made s t cs
  Made-append_nil {s} {t} {cs} m = subst (λ ds. Made s t ds) (append-nil cs) m

  -- One object that has been made, or one that may be null.
  pub Made-one :
      {s t : State} (p : Address) (k : Sort) → Made s t ((p, k) ∷ []) → Made s t (unless_null p k)
  Made-one p k m = Made-append_nil (Made-unless_null m)

  pub Made-perhaps :
      {s t : State} (p : Address) (k : Sort)
      → Made s t (unless_null p k ++ [])
      → Made s t (unless_null p k)
  Made-perhaps p k m = Made-append_nil m

  abbrev pub with_external :
      State → h.napi.Value → h.napi.Env → Address → Finalizer → Address → State
  with_external t v e p fin hint = record t {
    env = e;
    externals = record { value = v; payload = p; finalizer = fin; hint = hint } ∷ t.externals;
  }

  -- The registration of an external, and what the method does after it.
  pub Tame-external :
      {s t w : State} (v : h.napi.Value) (e : h.napi.Env) (p : Address) (fin : Finalizer)
      (hint : Address)
      → Steady s t
      → Made s t (freed fin p hint)
      → Steady (with_external t v e p fin hint) w
      → (References → Room s → Registered w fin v hint)
      → Tame s w
  Tame-external {s} {t} {w} v e p fin hint x m y g =
      let u = with_external t v e p fin hint in
      let made : Made s u (freed fin p hint ++ []) =
        subst (λ cs. Made s u cs) (sym (append-nil (freed fin p hint)))
          (record { held = m.held; since = m.since; once = m.once }) in
      record {
        grows = let a = x.grows in let b = y.grows in omega arith;
        lives = λ q k l a. let b = x.grows in y.lives q k (omega arith) (x.lives q k l a);
        room = λ r. y.room (x.room r);
        refs = λ z a. y.refs z (x.refs z a);
        added = record { value = v; payload = p; finalizer = fin; hint = hint } ∷ [];
        registered =
            y.same
            ∙ ap (λ xs. record { value = v; payload = p; finalizer = fin; hint = hint } ∷ xs)
                x.same;
        made = Made-Steady made y;
        pinned = λ r n. (g r n, tt);
      }

  -- Where the engine refuses to make the external, the method ends.
  refused :
      {A : Type 0} (s t : State) (n : h.napi.Value → M A) (r : Control × h.napi.Env)
      → h.napi.on_bad_status t.env ≡ r
      → Steady s t
      → After (Tame s) (and_then (napi_status_throws none none t) n)
  unfolding napi_status_throws
  refused s t n (return_null, e) q x = rw (q, After) (Steady-Tame (Steady-trans x Steady-outside))
  refused s t n (proceed, e) q x = rw (q, After) tt

  -- What a method may do after the registration of the external.
  abbrev pub EndsRegistered :
      {A : Type 0} → State → State → Finalizer → h.napi.Value → Address → Outcome A → Type 0
  EndsRegistered s u fin v hint =
      After (λ w. Steady u w × (References → Room s → Registered w fin v hint))

  After-created :
      {A : Type 0} {s : State} (t : State) {cs : List Claim} (p : Address) (fin : Finalizer)
      (hint : Address) (n : h.napi.Value → M A) (r : Option (h.napi.Value × h.napi.Env))
      → h.napi.create_external p fin hint t.env ≡ r
      → Steady s t
      → Made s t cs
      → Made s t (freed fin p hint)
      → ((v : h.napi.Value) (e : h.napi.Env)
          → All (Holds t) cs
          → EndsRegistered s
              (with_external t v e p fin hint)
              fin
              v
              hint
              (n v (with_external t v e p fin hint)))
      → After (Tame s) (and_then (create_external p fin hint t) n)
  unfolding create_external
  After-created {s} t p fin hint n none q x m made f =
      rw (q, After) (refused s t n (h.napi.on_bad_status t.env) refl x)
  After-created t p fin hint n (some (v, e)) q x m made f =
      rw (q, After)
        (After-map (n v (with_external t v e p fin hint))
          (λ w y. Tame-external v e p fin hint x made y.0 y.1) (f v e m.held))

  -- A method that registers an external over what it has made, and goes on with care.
  pub Finishes-create_external :
      {A : Type 0} {s : State} {cs : List Claim} (p : Address) (fin : Finalizer) (hint : Address)
      (n : h.napi.Value → M A)
      → ((t : State) → Made s t cs → Made s t (freed fin p hint))
      → ((t : State) (v : h.napi.Value) (e : h.napi.Env)
          → Steady s t
          → All (Holds t) cs
          → EndsRegistered s
              (with_external t v e p fin hint)
              fin
              v
              hint
              (n v (with_external t v e p fin hint)))
      → Finishes s cs (create_external p fin hint >>= n)
  Finishes-create_external p fin hint n f g = record {
    finishes = λ t x m.
        After-created t p fin hint n (h.napi.create_external p fin hint t.env) refl x m (f t m)
          (λ v e. g t v e x);
  }

  pub Finishes-return_external :
      {s : State} {cs : List Claim} (p : Address) (fin : Finalizer) (hint : Address)
      → ((t : State) → Made s t cs → Made s t (freed fin p hint))
      → ((t : State) (v : h.napi.Value) (e : h.napi.Env)
          → Steady s t
          → References
          → Room s
          → Registered (with_external t v e p fin hint) fin v hint)
      → Finishes s cs (return_external p fin hint)
  unfolding return_external
  Finishes-return_external p fin hint f g =
      Finishes-create_external p fin hint (λ v. pure (some v)) f
        (λ t v e x y. (Steady-refl (with_external t v e p fin hint), g t v e x))
