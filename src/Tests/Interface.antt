-- ===== src/Tests/Interface.antt =====
-- The theorem on the interface at the small host.
use rocksdb_ts.Prelude.{List, [], ◌∷◌, All}
use rocksdb_ts.Exports.{exports}
use rocksdb_ts.Interface.{find, interface}
use rocksdb_ts.Interface.Conforms.{Implements, reads_record, Declared, exports-interface}
use rocksdb_ts.Demo.{demo, Value}

abbrev get_info : List Value
get_info = Value.outside 1 ∷ Value.text (107 ∷ []) ∷ Value.outside 4 ∷ []

exports-interface_example :
    All (λ row. Implements get_info (reads_record row.0) row.1 (find row.0 exports)) interface
    × All (λ row. Declared (find row.0 interface)) exports
exports-interface_example = exports-interface get_info
