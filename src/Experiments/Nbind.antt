-- ===== src/Experiments/Nbind.antt =====
-- The class `Rocksdb` of bindings-using-nbind/hello.cc.
use rocksdb_ts.Prelude.{Option, none, some}
use rocksdb_ts.Host.{Host, Address, Bytes}
use rocksdb_ts.Machine.{M, pure, ◌>>=◌}
use rocksdb_ts.Experiments.PromiseWorker.{Ending, returns, throws, throws_other}

-- The field `db` has no value before the first `Open`.
pub record Rocksdb : Type 0 where
  pub db : Option Address

-- The constructor.
abbrev pub new_rocksdb : Rocksdb
new_rocksdb = record { db = none }

module _ ⦃h : Host⦄ where
  abbrev opened : Ending (h.rocks.Status × Address) → Rocksdb → Ending (h.rocks.Status × Rocksdb)
  opened (returns (status, p)) self = returns (status, record self { db = some p })
  opened (throws what) self = throws what
  opened throws_other self = throws_other

  -- `Open`, given `DB::Open`.
  unfoldable pub open_rocksdb :
      (Address → Bytes → M (Ending (h.rocks.Status × Address)))
      → Address
      → Bytes
      → Rocksdb
      → M (Ending (h.rocks.Status × Rocksdb))
  open_rocksdb db_open options name self = do r ← db_open options name; pure (opened r self)

  -- The destructor, which is empty.
  unfoldable pub destruct_rocksdb : Rocksdb → M (Unit {0})
  destruct_rocksdb self = pure tt
