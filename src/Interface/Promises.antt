-- ===== src/Interface/Promises.antt =====
-- The result of rocksdb_batch_write_async: the promise that its worker holds.
use rocksdb_ts.Prelude.{suc, ◌≡◌, refl, false, Option, none, some, update, subst, sym}
use rocksdb_ts.Host.{Host, Address}
use rocksdb_ts.Machine.{
  Cell, Worker, worker_cell, State, Outcome, ok, returned, fault, M, pure, ◌>>=◌, ◌>>◌, and_then,
}
use rocksdb_ts.Machine.Effects.{new, load_worker}
use rocksdb_ts.Async.{
  blank, set_worker, construct_promise, new_batch_write_promise, start, get_promise, add_finalizer,
  defined, rocksdb_batch_write_async,
}
use rocksdb_ts.Ownership.{After}
use rocksdb_ts.Ownership.Making.{Given}
use rocksdb_ts.Interface.{promise}
use rocksdb_ts.Interface.Values.{Returns, AfterValue, Yields}
use rocksdb_ts.Interface.Results.{Yields-bind}
use rocksdb_ts.Interface.Guards.{
  PromiseOf, Promised, Guards, updated, Guards-construct_promise, Guards-set_worker,
  Guards-get_promise, Guards-start, Guards-add_finalizer,
}

module _ ⦃h : Host⦄ where
  -- What the code yields from a state in which the worker at `q` holds a promise or none.
  record Ends (q : Address) (m : M (Option h.napi.Value)) : Type 0 where
    ends : (s : State) → Promised (s.cells q) → AfterValue (Returns false promise) (m s)

  AfterValue-After :
      {A B : Type 0} (P : State → Type 0) (Q : B → Type 0) (r : Outcome A) (n : A → M B)
      → After P r
      → ((a : A) (t : State) → P t → AfterValue Q (n a t))
      → AfterValue Q (and_then r n)
  AfterValue-After P Q (ok a t) n x f = f a t x
  AfterValue-After P Q (returned t) n x f = tt
  AfterValue-After P Q (fault e) n x f = tt

  Ends-bind :
      (q : Address) {A : Type 0} {m : M A} {n : A → M (Option h.napi.Value)}
      → Guards q m
      → ((a : A) → Ends q (n a))
      → Ends q (m >>= n)
  Ends-bind q {m} {n} f g = record {
    ends = λ s x.
        AfterValue-After (λ t. Promised (t.cells q)) (Returns false promise) (m s) n (f.guards s x)
          (λ a t. (g a).ends t);
  }

  result_ends :
      (s : State) (q : Address) (c : Option Cell)
      → s.cells q ≡ c
      → Promised c
      → AfterValue (Returns false promise) ((get_promise q >>= λ v. pure (some v)) s)
  unfolding get_promise load_worker
  result_ends s q (some (worker_cell w)) e x = rw (e, AfterValue) (lemma w.promise x)
    where
      lemma :
          (r : Option h.napi.Value)
          → PromiseOf r
          → AfterValue (Returns false promise) (and_then (defined r s) (λ v. pure (some v)))
      lemma none y = tt
      lemma (some v) y = y
  result_ends s q (some _) e x = rw (e, AfterValue) tt
  result_ends s q none e x = rw (e, AfterValue) tt

  Ends-result : (q : Address) → Ends q (get_promise q >>= λ v. pure (some v))
  Ends-result q = record { ends = λ s. result_ends s q (s.cells q) refl }

  -- From the call of `get` on.
  Ends-get :
      (q : Address)
      → Ends q (
          get_promise q >>= λ p.
          add_finalizer p q >> (start q >> (get_promise q >>= λ v. pure (some v))))
  Ends-get q = Ends-bind q (Guards-get_promise q) λ p.
      Ends-bind q (Guards-add_finalizer q p) λ a. Ends-bind q (Guards-start q) λ b. Ends-result q

  Given-After :
      {A B : Type 0} (P : State → Type 0) (Q : B → State → Type 0) (r : Outcome A) (n : A → M B)
      → After P r
      → ((a : A) (t : State) → P t → Given Q (λ t. Unit) (n a t))
      → Given Q (λ t. Unit) (and_then r n)
  Given-After P Q (ok a t) n x f = f a t x
  Given-After P Q (returned t) n x f = tt
  Given-After P Q (fault e) n x f = x

  -- A new worker holds no promise, and holds the engine's after its constructor.
  created :
      (db batch options : Address) (s : State)
      → Given (λ q t. Promised (t.cells q)) (λ t. Unit) (new_batch_write_promise db batch options s)
  unfolding new_batch_write_promise new
  created db batch options s =
      let q = s.next in
      let t : State = record s {
        cells = update s.cells q (some (worker_cell blank));
        next = suc q;
      } in
      let change : Worker → Worker = λ w. record w { db = db; batch = batch; options = options } in
      let holds = λ (t : State). Promised (t.cells q) in
      let result = λ (q : Address) (t : State). Promised (t.cells q) in
      Given-After holds result (construct_promise q t) _
        ((Guards-construct_promise q).guards t
          (subst Promised (sym (updated s.cells q (some (worker_cell blank)))) tt))
        λ a u x.
          Given-After holds result (set_worker q change u) _
            ((Guards-set_worker q change (λ w y. y)).guards u x) λ b v y. y

  Yields-created :
      (db batch options : Address) {n : Address → M (Option h.napi.Value)}
      → ((q : Address) → Ends q (n q))
      → Yields false promise (new_batch_write_promise db batch options >>= n)
  Yields-created db batch options {n} f = record {
    yields = λ s. lemma (new_batch_write_promise db batch options s) (created db batch options s);
  }
    where
      lemma :
          (r : Outcome Address)
          → Given (λ q t. Promised (t.cells q)) (λ t. Unit) r
          → AfterValue (Returns false promise) (and_then r n)
      lemma (ok q t) x = (f q).ends t x
      lemma (returned t) x = tt
      lemma (fault e) x = tt

  pub rocksdb_batch_write_async-Yields :
      (info : h.napi.Info) → Yields false promise (rocksdb_batch_write_async info)
  unfolding rocksdb_batch_write_async
  rocksdb_batch_write_async-Yields info = search (Yields-bind, Yields-created, Ends-get) depth 8
