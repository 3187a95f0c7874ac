-- ===== src/Ownership/Rules.antt =====
-- The rules from which a search finds what a method does to the heap, by the text of the method.
use rocksdb_ts.Ownership.Steps.{
  IsSteady-bind, IsSteady-then, IsSteady-call, IsSteady-pure, IsSteady-if, IsTame-bind,
}
use rocksdb_ts.Ownership.Parts.{
  make-IsSteady, make_value-IsSteady, tell-IsSteady, napi_argv-IsSteady,
  napi_status_throws-IsSteady, napi_call_throws-IsSteady, from_external_argument-IsSteady,
  bool_argument-IsSteady, int32_argument-IsSteady, uint64_argument-IsSteady,
  slice_from_buffer_argument-IsSteady, rocksdb_status_throws-IsSteady,
}
use rocksdb_ts.Ownership.Heap.{
  load_write_options-IsSteady, load_read_options-IsSteady, load_worker-IsSteady,
  read_slice-IsSteady, expect-IsSteady, library-IsSteady, library_do-IsSteady, gets-IsSteady,
  new-IsSteady, slice_from_string_argument_release-IsSteady,
}
use rocksdb_ts.Ownership.Texts.{slice_from_string_argument-IsSteady}

pub ruleset steady_rules = (
  IsSteady-bind, IsSteady-then, IsSteady-call, IsSteady-pure, IsSteady-if, make-IsSteady,
  make_value-IsSteady, tell-IsSteady, napi_argv-IsSteady, napi_status_throws-IsSteady,
  napi_call_throws-IsSteady, from_external_argument-IsSteady, bool_argument-IsSteady,
  int32_argument-IsSteady, uint64_argument-IsSteady, slice_from_buffer_argument-IsSteady,
  rocksdb_status_throws-IsSteady, load_write_options-IsSteady, load_read_options-IsSteady,
  load_worker-IsSteady, read_slice-IsSteady, expect-IsSteady, library-IsSteady, library_do-IsSteady,
  gets-IsSteady, new-IsSteady, slice_from_string_argument_release-IsSteady,
  slice_from_string_argument-IsSteady,
)

-- The same before an external is registered.
pub ruleset tame_rules = (steady_rules, IsTame-bind)
