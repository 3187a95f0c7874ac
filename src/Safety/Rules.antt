-- ===== src/Safety/Rules.antt =====
-- The rules from which a search finds that a method ends, by the text of the method.
use rocksdb_ts.Safety.Steps.{
  Reads-bind, Reads-then, Reads-pure, Reads-if, Safe-bind, Safe-then, Safe-Reads, Safe-last,
}
use rocksdb_ts.Safety.Parts.{
  napi_status_throws-Reads, napi_call_throws-Reads, make-Reads, make_value-Reads, tell-Reads,
  bool_argument-Reads, int32_argument-Reads, uint64_argument-Reads, rocksdb_status_throws-Reads,
  library-Reads, library_do-Reads, gets-Reads, new-Reads, put_cell-Safe, return_external-Reads,
}
use rocksdb_ts.Safety.Arguments.{
  from_external_argument-Safe, from_external_argument-Reads, slice_from_buffer_argument-Safe,
  read_slice-Reads, expect-Reads, load_write_options-Reads, load_read_options-Reads,
}

-- Parts that leave all objects as they are.
pub ruleset read_rules = (
  Reads-bind, Reads-then, Reads-pure, Reads-if, napi_status_throws-Reads, napi_call_throws-Reads,
  make-Reads, make_value-Reads, tell-Reads, bool_argument-Reads, int32_argument-Reads,
  uint64_argument-Reads, rocksdb_status_throws-Reads, library-Reads, library_do-Reads, gets-Reads,
  new-Reads, return_external-Reads, from_external_argument-Reads, read_slice-Reads, expect-Reads,
  load_write_options-Reads, load_read_options-Reads,
)

-- The same, and the last effects of a method.
pub ruleset safe_rules = (
  from_external_argument-Safe, slice_from_buffer_argument-Safe, Safe-bind, Safe-then, Safe-last,
  put_cell-Safe, Safe-Reads, read_rules,
)
