-- ===== src/Experiments/Genepi.antt =====
-- The class `Rocksdb` of bindings-using-genepi/src/rocks_db/objects.cpp.
use rocksdb_ts.Prelude.{Option, none, some, ◌==◌, if◌then◌else◌}
use rocksdb_ts.Host.{Host, Address, Bytes}
use rocksdb_ts.Machine.{indeterminate, database, fault, M, pure, ◌>>=◌, ◌>>◌}
use rocksdb_ts.Machine.Effects.{delete_native, library_do}
use rocksdb_ts.Experiments.PromiseWorker.{Ending, returns, throws, throws_other}

-- The field `db` has no value before the first `Open`.
pub record Rocksdb : Type 0 where
  pub db : Option Address

-- The constructor.
abbrev pub new_rocksdb : Rocksdb
new_rocksdb = record { db = none }

module _ ⦃h : Host⦄ where
  -- The end of the `try`. The handler prints the text, and then the function ends without a value.
  abbrev try_open :
      Ending (h.rocks.Status × Address) → Rocksdb → M (Ending (h.rocks.Status × Rocksdb))
  try_open (returns (status, p)) self = pure (returns (status, record self { db = some p }))
  try_open (throws what) self = λ s. fault indeterminate
  try_open throws_other self = pure throws_other

  -- `Open`, given `DB::Open`.
  unfoldable pub open_rocksdb :
      (Address → Bytes → M (Ending (h.rocks.Status × Address)))
      → Address
      → Bytes
      → Rocksdb
      → M (Ending (h.rocks.Status × Rocksdb))
  open_rocksdb db_open options name self = do r ← db_open options name; try_open r self

  -- `delete this->db`
  abbrev delete_field : Option Address → M (Unit {0})
  unfolding delete_native library_do
  delete_field none = λ s. fault indeterminate
  delete_field (some p) =
      if p == 0
      then pure tt
      else (delete_native database p >> library_do (λ m. h.rocks.delete_db p))

  -- The destructor.
  unfoldable pub destruct_rocksdb : Rocksdb → M (Unit {0})
  unfolding delete_field
  destruct_rocksdb self = delete_field self.db
