-- ===== src/Tests/Safety.antt =====
-- The theorem on calls that end, at `db.get_utf8("k", options)` in the small process of `Tests`.
use rocksdb_ts.Prelude.{◌-◌, ◌≡◌, refl, some, List, [], ◌∷◌, arith}
use rocksdb_ts.Interface.{database_context, read_options_context}
use rocksdb_ts.Interface.Parameters.{ParameterType, context, string}
use rocksdb_ts.Safety.{Documented}
use rocksdb_ts.Demo.{demo, Value, to_text}
use rocksdb_ts.Tests.{key_text}
use rocksdb_ts.Tests.Ownership.{cut}

abbrev get_info : List Value
get_info = Value.outside 1 ∷ Value.text key_text ∷ Value.outside 4 ∷ []

abbrev get_parameters : List ParameterType
get_parameters = context database_context ∷ string ∷ context read_options_context ∷ []

pub documented : Documented
documented = record { returns = λ e. refl; fits = λ enc v n e b q. cut (n - 1) (to_text v) b q }

pub same : {A : Type 0} {x y : A} → some x ≡ some y → x ≡ y
same e = ground arith
