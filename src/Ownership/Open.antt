-- ===== src/Ownership/Open.antt =====
-- Methods that register databases, snapshots and batches.
use rocksdb_ts.Prelude.{
  ◌≡◌, ◌<◌, refl, inl, inr, Bool, true, false, Option, none, some, [], ◌∷◌, ◌++◌, arith, update,
  suc, subst, ℕ,
}
use rocksdb_ts.Host.{Host, Address, Bytes, Finalizer, Control, return_null, proceed}
use rocksdb_ts.Machine.{
  Cell, fault, dangling, Kind, native, reference_container, State, M, ◌>>=◌, ◌>>◌, pure, database,
  batch, snapshot,
}
use rocksdb_ts.Machine.Effects.{new, library_do, is_native}
use rocksdb_ts.Machine.Macros.{
  napi_status_throws, create_external, return_external, rocksdb_status_throws,
}
use rocksdb_ts.Database.{open_database, hold_reference, rocksdb_open}
use rocksdb_ts.Database.Snapshots.{get_snapshot, rocksdb_snapshot_init}
use rocksdb_ts.Batches.{rocksdb_batch_init, rocksdb_batch_init_ex}
use rocksdb_ts.Ownership.{
  References, Room, LiveDatabase, Tame, shape_of, sort_of, container_sort, native_sort, unless_null,
  Steady, Made, After, IsTame,
}
use rocksdb_ts.Ownership.Steps.{Steady-refl, After-and_then}
use rocksdb_ts.Ownership.Parts.{rocksdb_status_throws-IsSteady, Steady-outside}
use rocksdb_ts.Ownership.Heap.{library_do-IsSteady}
use rocksdb_ts.Ownership.Making.{Given, Makes, new-Makes, Made-unless_null}
use rocksdb_ts.Ownership.Finishing.{
  Finishes-made, Finishes, IsTame-Makes, Finishes-then, Finishes-Makes,
}
use rocksdb_ts.Ownership.Registers.{
  with_external, EndsRegistered, Finishes-create_external, Finishes-return_external, Made-one,
  Made-perhaps, append-nil,
}
use rocksdb_ts.Ownership.Rules.{tame_rules}

module _ ⦃h : Host⦄ where
  abbrev with_native : State → h.rocks.Lib → Kind → State
  with_native s l k = record s {
    lib = l;
    cells = update s.cells s.next (some (native k));
    next = suc s.next;
  }

  Made-native :
      (s : State) (l : h.rocks.Lib) (k : Kind)
      → Steady s (with_native s l k)
        × Made s (with_native s l k) (unless_null s.next (native_sort k))
  Made-native s l k = (
    record {
      grows = omega arith;
      lives = λ q j a e. ground arith;
      room = λ m q l. ground (arith, m q);
      refs = λ v x. x;
      same = refl;
    },
    Made-one s.next (native_sort k) (record {
      held = ((ground arith, omega arith), tt);
      since = (omega arith, tt);
      once = (tt, tt);
    }),
  )

  opened :
      (s : State) (p : Address) (b : Bytes) (stored : Bool)
      → (h.rocks.open_db p b s.next s.lib).0.1 ≡ stored
      → Given
          (λ r t. Steady s t × Made s t (unless_null r.1 (native_sort database)))
          (Steady s)
          (open_database p b s)
  unfolding open_database
  opened s p b true e = rw (e, Given) (Made-native s _ database)
  opened s p b false e = rw (e, Given) (Steady-outside, record { held = tt; since = tt; once = tt })

  open_database-Makes :
      (p : Address) (b : Bytes)
      → Makes (λ r. unless_null r.1 (native_sort database)) (open_database p b)
  open_database-Makes p b = record {
    makes = λ s. opened s p b (h.rocks.open_db p b s.next s.lib).0.1 refl;
  }

  -- The external of a database is referenced, unless the engine refuses.
  held_badly :
      (s u : State) (v : h.napi.Value) (c : Address) (r : Control × h.napi.Env)
      → h.napi.on_bad_status u.env ≡ r
      → (References → ⊥)
      → EndsRegistered s u Finalizer.rocksdb_finalize v c (napi_status_throws (some tt) none u)
  unfolding napi_status_throws
  held_badly s u v c (return_null, e) q n = rw (q, After) (Steady-outside, λ r m. absurd (n r))
  held_badly s u v c (proceed, e) q n = rw (q, After) (Steady-outside, λ r m. absurd (n r))

  refuses_none :
      (v : h.napi.Value) (e : h.napi.Env) → h.napi.create_reference v 1 e ≡ none → References → ⊥
  refuses_none v e n r = let (x, d, q) = r v e in ground arith

  After-hold_reference :
      (s u : State) (c : Address) (v : h.napi.Value) (r : Option (h.napi.Ref × h.napi.Env))
      → h.napi.create_reference v 1 u.env ≡ r
      → sort_of (u.cells c) ≡ some container_sort
      → EndsRegistered s u Finalizer.rocksdb_finalize v c (hold_reference c v u)
  unfolding hold_reference
  After-hold_reference s u c v none e live =
      rw (e, After) (held_badly s u v c (h.napi.on_bad_status u.env) refl (refuses_none v u.env e))
  After-hold_reference s u c v (some (r, env)) e live =
      rw (e, After)
        (
          record {
            grows = omega arith;
            lives = λ q j a f. ground arith;
            room = λ m q l. ground (arith, m q);
            refs = λ v x. inr x;
            same = refl;
          },
          λ r m. inl refl,
        )

  covered :
      {s t : State} (p c : Address)
      → Made s t ((c, container_sort) ∷ (unless_null p (native_sort database) ++ []))
      → Made s t (unless_null c container_sort ++ unless_null p (native_sort database))
  covered {s} {t} p c m =
      subst (λ cs. Made s t (unless_null c container_sort ++ cs))
        (append-nil (unless_null p (native_sort database))) (Made-unless_null m)

  -- What rocksdb_open does once the library has been called.
  abbrev open_rest : h.rocks.Status × Address → M (Option h.napi.Value)
  open_rest r = do
    rocksdb_status_throws r.0
    container ← new (reference_container none)
    result ← create_external r.1 Finalizer.rocksdb_finalize container
    hold_reference container result
    pure (some result)

  open_database-IsTame : (p : Address) (b : Bytes) → IsTame (open_database p b >>= open_rest)
  open_database-IsTame p b = IsTame-Makes (open_database-Makes p b) λ s r.
      Finishes-then (rocksdb_status_throws-IsSteady r.0) (
        Finishes-Makes (new-Makes (reference_container none) refl) λ c.
          Finishes-create_external r.1 Finalizer.rocksdb_finalize c
            (λ v. hold_reference c v >> pure (some v)) (λ t. covered r.1 c)
            (λ t v e x held.
              let u = with_external t v e r.1 Finalizer.rocksdb_finalize c in
              After-and_then (hold_reference c v u) (λ x. pure (some v))
                (After-hold_reference s u c v (h.napi.create_reference v 1 u.env) refl held.0.0)
                (λ a w x. x)))

  pub rocksdb_open-IsTame : (info : h.napi.Info) → IsTame (rocksdb_open info)
  unfolding rocksdb_open
  rocksdb_open-IsTame info = search (tame_rules, open_database-IsTame) depth 14

  snapshot_given :
      (s : State) (db : Address) (given : Bool)
      → (h.rocks.get_snapshot db s.next s.lib).0 ≡ given
      → is_native database (s.cells db) ≡ true
      → Given
          (λ p t. Steady s t × Made s t (unless_null p (native_sort snapshot)))
          (Steady s)
          (get_snapshot db s)
  unfolding get_snapshot
  snapshot_given s db true e live = rw (live, e, Given) (Made-native s _ snapshot)
  snapshot_given s db false e live =
      rw (live, e, Given) (Steady-outside, record { held = tt; since = tt; once = tt })

  asked_badly :
      (s : State) (db : Address)
      → is_native database (s.cells db) ≡ false
      → get_snapshot db s ≡ fault dangling
  unfolding get_snapshot
  asked_badly s db e = rw e refl

  live_database :
      (c : Option Cell)
      → is_native database c ≡ true
      → shape_of c ≡ some (native_sort Kind.database, none)
  live_database (some (native Kind.database)) e = refl
  live_database (some _) e = ground arith
  live_database none e = ground arith

  LiveDatabase-Steady :
      (s t : State) (db : Address)
      → is_native database (s.cells db) ≡ true
      → Steady s t
      → Room s
      → LiveDatabase t db
  LiveDatabase-Steady s t db live x m =
      let e = live_database (s.cells db) live in
      let old : db < s.next = ground (arith, m db, e) in
      let g = x.grows in (x.lives db _ old e, omega arith)

  -- A snapshot is registered over a live database.
  snapshot_asked :
      (s : State) (db : Address) (live : Bool)
      → is_native database (s.cells db) ≡ live
      → After
          (Tame s)
          ((get_snapshot db >>= λ p. return_external p Finalizer.rocksdb_snapshot_finalize db) s)
  snapshot_asked s db true e =
      Finishes-made s s (λ p. unless_null p (native_sort snapshot))
        (λ p. return_external p Finalizer.rocksdb_snapshot_finalize db)
        (λ p.
          Finishes-return_external p Finalizer.rocksdb_snapshot_finalize db
            (λ t. Made-perhaps p (native_sort snapshot))
            (λ t v env x r m. LiveDatabase-Steady s t db e x m))
        (Steady-refl s) (record { held = tt; since = tt; once = tt }) (get_snapshot db s)
        (snapshot_given s db (h.rocks.get_snapshot db s.next s.lib).0 refl e)
  snapshot_asked s db false e = rw (asked_badly s db e, After) tt

  get_snapshot-IsTame :
      (db : Address)
      → IsTame (get_snapshot db >>= λ p. return_external p Finalizer.rocksdb_snapshot_finalize db)
  get_snapshot-IsTame db = record {
    tame = λ s. snapshot_asked s db (is_native database (s.cells db)) refl;
  }

  pub rocksdb_snapshot_init-IsTame : (info : h.napi.Info) → IsTame (rocksdb_snapshot_init info)
  unfolding rocksdb_snapshot_init
  rocksdb_snapshot_init-IsTame info = search (tame_rules, get_snapshot-IsTame) depth 14

  batch_external-Finishes :
      {s : State} (p : Address)
      → Finishes s
          ((p, native_sort batch) ∷ [])
          (return_external p Finalizer.rocksdb_batch_finalize 0)
  batch_external-Finishes p =
      Finishes-return_external p Finalizer.rocksdb_batch_finalize 0
        (λ t. Made-one p (native_sort batch)) (λ t v e x r m. tt)

  pub rocksdb_batch_init-IsTame : (info : h.napi.Info) → IsTame (rocksdb_batch_init info)
  unfolding rocksdb_batch_init
  rocksdb_batch_init-IsTame info = IsTame-Makes (new-Makes (native batch) refl) λ s p.
      Finishes-then (library_do-IsSteady (λ m. h.rocks.new_batch p)) (batch_external-Finishes p)

  new_batch-IsTame :
      (a b : ℕ)
      → IsTame (
          new (native batch) >>= λ p.
          library_do (λ m. h.rocks.new_batch_sized a b p)
          >> return_external p Finalizer.rocksdb_batch_finalize 0)
  new_batch-IsTame a b = IsTame-Makes (new-Makes (native batch) refl) λ s p.
      Finishes-then (library_do-IsSteady (λ m. h.rocks.new_batch_sized a b p))
        (batch_external-Finishes p)

  pub rocksdb_batch_init_ex-IsTame : (info : h.napi.Info) → IsTame (rocksdb_batch_init_ex info)
  unfolding rocksdb_batch_init_ex
  rocksdb_batch_init_ex-IsTame info = search (tame_rules, new_batch-IsTame) depth 14
