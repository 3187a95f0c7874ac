-- ===== src/Batches/Replay.antt =====
-- A batch as a list of edits: what calls of the exported methods put into it, and what a write of it
-- does to the records of a database.
use rocksdb_ts.Prelude.{
  ℕ, suc, ◌≤◌, ◌≡◌, refl, Bool, true, false, ◌&&◌, Option, none, some, List, [], ◌∷◌, ◌++◌, ◌==◌,
  if◌then◌else◌, arith, ap, ◌∙◌, sym, subst, fun_ext,
}
use rocksdb_ts.Host.{Host, Address, Bytes, Encoding, utf8, latin1, WriteOptions, Memory}
use rocksdb_ts.Machine.{State, Outcome, ok, returned, fault, database, write_options_cell}
use rocksdb_ts.Machine.Calls.{ObjectCall}
use rocksdb_ts.Machine.Effects.{is_native, memory}
use rocksdb_ts.Database.Strings.{thrown}
use rocksdb_ts.Batches.{
  rocksdb_batch_put_string, rocksdb_batch_delete_utf8, rocksdb_batch_delete_latin1,
  rocksdb_batch_clear, rocksdb_batch_write,
}
use rocksdb_ts.Batches.Calls.{
  BatchPutCall, BatchKeyCall, HasBatch, rocksdb_batch_put_string_lem, rocksdb_batch_delete_utf8_lem,
  rocksdb_batch_delete_latin1_lem, rocksdb_batch_clear_lem,
}
use rocksdb_ts.Async.Promises.{WriteCall, rocksdb_batch_write_lem}

-- An entry of a batch.
pub data Edit : Type 0 where
  put : Bytes → Bytes → Edit
  erase : Bytes → Edit

abbrev pub same_bytes : Bytes → Bytes → Bool
same_bytes [] [] = true
same_bytes (x ∷ xs) (y ∷ ys) = (x == y) && same_bytes xs ys
same_bytes _ _ = false

-- The records after the edits, one by one.
abbrev pub replay : List Edit → (Bytes → Option Bytes) → Bytes → Option Bytes
replay [] f j = f j
replay (put k v ∷ es) f j = replay es (λ i. if same_bytes k i then some v else f i) j
replay (erase k ∷ es) f j = replay es (λ i. if same_bytes k i then none else f i) j

-- What write_batch.h and db.h say of a batch: it holds the edits in their order, no record changes
-- before the batch is written, and a write that succeeds applies the edits in that order.
pub record IsBatchStore ⦃h : Host⦄ : Type 0 where
  pub contents : h.rocks.Lib → Address → Bytes → Option Bytes
  pub edits : h.rocks.Lib → Address → List Edit
  pub put_edits :
      (q : Address) (k v : Bytes) (l : h.rocks.Lib)
      → h.rocks.ok? (h.rocks.batch_put q k v l).0 ≡ true
      → edits (h.rocks.batch_put q k v l).1 q ≡ edits l q ++ (put k v ∷ [])
  pub put_contents :
      (q db : Address) (k v : Bytes) (l : h.rocks.Lib) (j : Bytes)
      → contents (h.rocks.batch_put q k v l).1 db j ≡ contents l db j
  pub erase_edits :
      (q : Address) (k : Bytes) (l : h.rocks.Lib)
      → h.rocks.ok? (h.rocks.batch_delete q k l).0 ≡ true
      → edits (h.rocks.batch_delete q k l).1 q ≡ edits l q ++ (erase k ∷ [])
  pub erase_contents :
      (q db : Address) (k : Bytes) (l : h.rocks.Lib) (j : Bytes)
      → contents (h.rocks.batch_delete q k l).1 db j ≡ contents l db j
  pub clear_edits : (q : Address) (l : h.rocks.Lib) → edits (h.rocks.batch_clear q l) q ≡ []
  pub clear_contents :
      (q db : Address) (l : h.rocks.Lib) (j : Bytes)
      → contents (h.rocks.batch_clear q l) db j ≡ contents l db j
  pub write_contents :
      (m : Memory) (db q : Address) (o : WriteOptions) (l : h.rocks.Lib) (j : Bytes)
      → h.rocks.ok? (h.rocks.write m db o q l).0 ≡ true
      → contents (h.rocks.write m db o q l).1 db j ≡ replay (edits l q) (contents l db) j

module _ ⦃h : Host⦄ where
  -- Calls of exported methods fill a batch: each is a call with good arguments whose status is OK,
  -- and returns. The list has the edits since the batch was last cleared.
  pub data Fills (q : Address) (s : State) : List Edit → State → Type 0 where
    start : Fills q s [] s
    call_put :
        {es : List Edit} {t u : State} {enc : Encoding} {info : h.napi.Info} {k v : Bytes}
        → Fills q s es t
        → BatchPutCall enc info t.env q k v
        → h.rocks.ok? (h.rocks.batch_put q k v t.lib).0 ≡ true
        → rocksdb_batch_put_string enc info t ≡ ok none u
        → Fills q s (es ++ (put k v ∷ [])) u
    call_delete_utf8 :
        {es : List Edit} {t u : State} {info : h.napi.Info} {k : Bytes}
        → Fills q s es t
        → BatchKeyCall utf8 info t.env q k
        → h.rocks.ok? (h.rocks.batch_delete q k t.lib).0 ≡ true
        → rocksdb_batch_delete_utf8 info t ≡ ok none u
        → Fills q s (es ++ (erase k ∷ [])) u
    call_delete_latin1 :
        {es : List Edit} {t u : State} {info : h.napi.Info} {k : Bytes}
        → Fills q s es t
        → BatchKeyCall latin1 info t.env q k
        → h.rocks.ok? (h.rocks.batch_delete q k t.lib).0 ≡ true
        → rocksdb_batch_delete_latin1 info t ≡ ok none u
        → Fills q s (es ++ (erase k ∷ [])) u
    call_clear :
        {es : List Edit} {t u : State} {info : h.napi.Info}
        → Fills q s es t
        → ObjectCall 1 info t.env q
        → rocksdb_batch_clear info t ≡ ok none u
        → Fills q s [] u

  abbrev end_of : {A : Type 0} → State → Outcome A → State
  end_of d (ok a s) = s
  end_of d (returned s) = s
  end_of d (fault e) = d

  -- The state that a call of known outcome ends in.
  ended : {A : Type 0} {r : Outcome A} {a b : A} {t u : State} → r ≡ ok a t → r ≡ ok b u → u ≡ t
  ended {t} p q = ap (end_of t) (sym q ∙ p)

  -- What holds on the way.
  record Holding (store : IsBatchStore) (q db : Address) (j : Bytes) (s : State) (es : List Edit)
      (t : State) : Type 0 where
    pub batch : HasBatch t q
    pub grows : s.next ≤ t.next
    pub cells : t.cells ≡ s.cells
    pub edits : store.edits t.lib q ≡ es
    pub contents : store.contents t.lib db j ≡ store.contents s.lib db j

  HasBatch-later :
      {t : State} {q : Address} {e : h.napi.Env} {l : h.rocks.Lib} (n : ℕ)
      → HasBatch t q
      → t.next ≤ n
      → HasBatch (record t { env = e; lib = l; next = n }) q
  HasBatch-later n b g = record {
    room = record { unused = λ p x. b.room.unused p (omega arith) };
    live = b.live;
    old = let x = b.old in omega arith;
  }

  Holding-put :
      (store : IsBatchStore) {q db : Address} {j : Bytes} {s t : State} {es : List Edit}
      (k v : Bytes) (e : h.napi.Env)
      → Holding store q db j s es t
      → h.rocks.ok? (h.rocks.batch_put q k v t.lib).0 ≡ true
      → Holding store q db j s
          (es ++ (put k v ∷ []))
          (record t { env = e; lib = (h.rocks.batch_put q k v t.lib).1; next = suc (suc t.next) })
  Holding-put store {q} {db} {j} {s} {t} k v e x fine = record {
    batch = HasBatch-later (suc (suc t.next)) x.batch (omega arith);
    grows = let g = x.grows in omega arith;
    cells = x.cells;
    edits = store.put_edits q k v t.lib fine ∙ ap (λ ds. ds ++ (put k v ∷ [])) x.edits;
    contents = store.put_contents q db k v t.lib j ∙ x.contents;
  }

  Holding-erase :
      (store : IsBatchStore) {q db : Address} {j : Bytes} {s t : State} {es : List Edit} (k : Bytes)
      (e : h.napi.Env)
      → Holding store q db j s es t
      → h.rocks.ok? (h.rocks.batch_delete q k t.lib).0 ≡ true
      → Holding store q db j s
          (es ++ (erase k ∷ []))
          (record t { env = e; lib = (h.rocks.batch_delete q k t.lib).1; next = suc t.next })
  Holding-erase store {q} {db} {j} {s} {t} k e x fine = record {
    batch = HasBatch-later (suc t.next) x.batch (omega arith);
    grows = let g = x.grows in omega arith;
    cells = x.cells;
    edits = store.erase_edits q k t.lib fine ∙ ap (λ ds. ds ++ (erase k ∷ [])) x.edits;
    contents = store.erase_contents q db k t.lib j ∙ x.contents;
  }

  Fills-Holding :
      (store : IsBatchStore) {q : Address} (db : Address) (j : Bytes) {s t : State} {es : List Edit}
      → HasBatch s q
      → store.edits s.lib q ≡ []
      → Fills q s es t
      → Holding store q db j s es t
  Fills-Holding store db j b none_yet start = record {
    batch = b;
    grows = omega arith;
    cells = refl;
    edits = none_yet;
    contents = refl;
  }
  Fills-Holding store {q} db j {s} b none_yet (call_put {es} {t} {k} {v} f c fine e) =
      let x = Fills-Holding store db j b none_yet f in
      subst (λ u. Holding store q db j s (es ++ (put k v ∷ [])) u)
        (sym (ended (rocksdb_batch_put_string_lem t x.batch c) e))
        (Holding-put store k v (thrown (h.rocks.batch_put q k v t.lib).0 t.env) x fine)
  Fills-Holding store {q} db j {s} b none_yet (call_delete_utf8 {es} {t} {k} f c fine e) =
      let x = Fills-Holding store db j b none_yet f in
      subst (λ u. Holding store q db j s (es ++ (erase k ∷ [])) u)
        (sym (ended (rocksdb_batch_delete_utf8_lem t x.batch c) e))
        (Holding-erase store k (thrown (h.rocks.batch_delete q k t.lib).0 t.env) x fine)
  Fills-Holding store {q} db j {s} b none_yet (call_delete_latin1 {es} {t} {k} f c fine e) =
      let x = Fills-Holding store db j b none_yet f in
      subst (λ u. Holding store q db j s (es ++ (erase k ∷ [])) u)
        (sym (ended (rocksdb_batch_delete_latin1_lem t x.batch c) e))
        (Holding-erase store k (thrown (h.rocks.batch_delete q k t.lib).0 t.env) x fine)
  Fills-Holding store {q} db j {s} b none_yet (call_clear {t} f c e) =
      let x = Fills-Holding store db j b none_yet f in
      subst (λ u. Holding store q db j s [] u)
        (sym (ended (rocksdb_batch_clear_lem t x.batch.live c) e))
        (record {
          batch = HasBatch-later t.next x.batch (omega arith);
          grows = x.grows;
          cells = x.cells;
          edits = store.clear_edits q t.lib;
          contents = store.clear_contents q db t.lib j ∙ x.contents;
        })

  -- An empty batch is filled by any sequence of calls of the string variants of put and delete and
  -- of clear, with good arguments and OK statuses, and then written to a database with an OK status:
  -- the call of rocksdb_batch_write returns, and every key of the database has the value that it
  -- would have if the edits since the last clear had been made on the database one by one. The
  -- native heap is as it was before the first call.
  pub rocksdb_batch_write-Fills :
      (store : IsBatchStore) {info : h.napi.Info} {q db p : Address} {o : WriteOptions}
      {s t : State} {es : List Edit} (j : Bytes)
      → HasBatch s q
      → store.edits s.lib q ≡ []
      → Fills q s es t
      → WriteCall info t.env db q p
      → is_native database (s.cells db) ≡ true
      → s.cells p ≡ some (write_options_cell o)
      → h.rocks.ok? (h.rocks.write (memory t) db o q t.lib).0 ≡ true
      → (u : State) × (rocksdb_batch_write info t ≡ ok none u)
        × (store.contents u.lib db j ≡ replay es (store.contents s.lib db) j)
        × (u.cells ≡ s.cells)
  rocksdb_batch_write-Fills store {q} {db} {p} {o} {s} {t} {es} j b none_yet f c db_live live fine =
      let x = Fills-Holding store db j b none_yet f in
      let same : store.contents t.lib db ≡ store.contents s.lib db =
        fun_ext λ i. (Fills-Holding store db i b none_yet f).contents in
      let r = h.rocks.write (memory t) db o q t.lib in
      (
        record t { env = thrown r.0 t.env; lib = r.1 },
        rocksdb_batch_write_lem t (ap (λ g. is_native database (g db)) x.cells ∙ db_live)
            (ap (λ g. g p) x.cells ∙ live) x.batch.live c,
        store.write_contents (memory t) db q o t.lib j fine ∙ rw (x.edits, same) refl,
        x.cells,
      )
