-- ===== src/Experiments/Lifetimes.antt =====
-- The databases that an object of the two classes `Rocksdb` leaves, which is opened many times.
use rocksdb_ts.Prelude.{ℕ, zero, suc, some, update}
use rocksdb_ts.Host.{Host, Address, Bytes}
use rocksdb_ts.Machine.{database, native, State, M, pure, ◌>>=◌}
use rocksdb_ts.Database.{open_database}
use rocksdb_ts.Experiments.PromiseWorker.{Ending, returns, throws, throws_other}
use rocksdb_ts.Experiments.Genepi as Genepi
use rocksdb_ts.Experiments.Nbind as Nbind

module _ ⦃h : Host⦄ where
  -- `DB::Open` that throws nothing.
  unfoldable pub open_db : Address → Bytes → M (Ending (h.rocks.Status × Address))
  unfolding open_database
  open_db options name = do r ← open_database options name; pure (returns r)

  abbrev kept : {R : Type 0} → R → Ending (h.rocks.Status × R) → R
  kept self (returns (status, new_self)) = new_self
  kept self (throws what) = self
  kept self throws_other = self

  -- The calls of `Open` on an object, one after the other.
  abbrev pub reopen : {R : Type 0} → (R → M (Ending (h.rocks.Status × R))) → ℕ → R → M R
  reopen f zero self = pure self
  reopen f (suc n) self = f self >>= λ r. reopen f n (kept self r)

  -- A call has stored a new database.
  abbrev opened : Address → Bytes → State → State
  opened options name s = record s {
    lib = (h.rocks.open_db options name s.next s.lib).1;
    cells = update s.cells s.next (some (native database));
    next = suc s.next;
  }

  -- The whole life of an object of bindings-using-genepi, and of bindings-using-nbind.
  abbrev pub genepi_life : Address → Bytes → ℕ → M (Unit {0})
  unfolding Genepi.open_rocksdb Genepi.destruct_rocksdb
  genepi_life options name n =
      reopen (Genepi.open_rocksdb open_db options name) n Genepi.new_rocksdb
      >>= Genepi.destruct_rocksdb

  abbrev pub nbind_life : Address → Bytes → ℕ → M (Unit {0})
  unfolding Nbind.open_rocksdb Nbind.destruct_rocksdb
  nbind_life options name n =
      reopen (Nbind.open_rocksdb open_db options name) n Nbind.new_rocksdb
      >>= Nbind.destruct_rocksdb
