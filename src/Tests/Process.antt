-- ===== src/Tests/Process.antt =====
-- The theorem on calls with values of the module, at `db.snapshot_init(db)` for a database that the
-- process has opened.
use rocksdb_ts.Prelude.{List, [], ◌∷◌}
use rocksdb_ts.Interface.{database_context}
use rocksdb_ts.Interface.Parameters.{ParameterType, context}
use rocksdb_ts.Demo.{demo, Value}

abbrev own_info : List Value
own_info = Value.outside 7 ∷ []

abbrev own_parameters : List ParameterType
own_parameters = context database_context ∷ []
