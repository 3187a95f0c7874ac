-- ===== src/Safety/Arguments.antt =====
-- What the macros tell of the values that they read, and the uses of live objects.
use rocksdb_ts.Prelude.{ℕ, ◌≡◌, ◌≤◌, refl, subst, arith, Option, none, some, List, length}
use rocksdb_ts.Host.{Host, Address, Bytes}
use rocksdb_ts.Machine.{Kind, Slice, nowhere, State, M, ◌>>=◌}
use rocksdb_ts.Machine.Effects.{
  load_write_options, load_read_options, expect, read_slice, slice_bytes, found,
}
use rocksdb_ts.Machine.Macros.{
  napi_argv, from_external_argument, slice_from_buffer_argument, region_slice,
}
use rocksdb_ts.Interface.Parameters.{ParameterType}
use rocksdb_ts.Ownership.{Sort, write_options_sort, read_options_sort, native_sort, Holds}
use rocksdb_ts.Ownership.Finalizers.{is_native_of, write_options_of, read_options_of}
use rocksdb_ts.Safety.{
  Leads, Documented, Points, IsBuffer, IsCall, AreArguments, Calm, Reads, Safe, Readable,
}
use rocksdb_ts.Safety.Steps.{Ends-and_then, Holds-Calm}
use rocksdb_ts.Safety.Parts.{napi_status_throws-Leads}

module _ ⦃h : Host⦄ where
  -- The arguments of a call.
  pub napi_argv-Safe :
      {s : State} {B : Type 0} {f : (ℕ → h.napi.Value) → M B} {τs : List ParameterType} {n : ℕ}
      {info : h.napi.Info}
      → Documented
      → IsCall s τs info
      → length τs ≤ n
      → ((argv : ℕ → h.napi.Value) → AreArguments s τs argv 0 → Safe s (f argv))
      → Safe s (napi_argv n info >>= f)
  unfolding napi_argv
  napi_argv-Safe {s} {f} {τs} {n} {info} d c l g = record {
    safe = λ t x.
        Ends-and_then (λ argv u. Calm s u × AreArguments s τs argv 0) (napi_argv n info t) f
          (napi_status_throws-Leads d t _ none (h.napi.get_cb_info n info t.env)
            (λ argv e. (x, c.arguments n t.env argv l e)))
          (λ argv u (y, a). (g argv a).safe u y);
  }

  pub napi_argv-Reads :
      {s : State} → Documented → (n : ℕ) (info : h.napi.Info) → Reads s (napi_argv n info)
  unfolding napi_argv
  napi_argv-Reads d n info = record {
    reads = λ t x. napi_status_throws-Leads d t _ none (h.napi.get_cb_info n info t.env) (λ a e. x);
  }

  -- A pointer that is only kept.
  pub from_external_argument-Reads :
      {s : State} → Documented → (v : h.napi.Value) → Reads s (from_external_argument v)
  unfolding from_external_argument
  from_external_argument-Reads d v = record {
    reads = λ t x.
        napi_status_throws-Leads d t _ (some 0) (h.napi.get_value_external v t.env) (λ a e. x);
  }

  -- A pointer to a live object.
  pub from_external_argument-Safe :
      {s : State} {B : Type 0} {f : Address → M B} {k : Sort} {v : h.napi.Value}
      → Documented
      → Points s k v
      → ((p : Address) → Holds s (p, k) → Safe s (f p))
      → Safe s (from_external_argument v >>= f)
  unfolding from_external_argument
  from_external_argument-Safe {s} {f} {k} {v} d a g = record {
    safe = λ t x.
        Ends-and_then (λ p u. Calm s u × Holds s (p, k)) (from_external_argument v t) f
          (napi_status_throws-Leads d t _ (some 0) (h.napi.get_value_external v t.env)
            (λ p e. (x, a.points t.env p e)))
          (λ p u (y, b). (g p b).safe u y);
  }

  bytes_of :
      (s : State) (v : h.napi.Value)
      → IsBuffer v
      → (e : h.napi.Env) (x : Slice) → (o : Option (h.napi.Region × ℕ))
      → h.napi.get_buffer_info v e ≡ o
      → region_slice o ≡ some x
      → (b : Bytes) × (slice_bytes s x ≡ some b)
  unfolding slice_bytes
  bytes_of s v a e x none q r = ground arith
  bytes_of s v a e x (some (m, n)) q r =
      subst (λ y. (b : Bytes) × (slice_bytes s y ≡ some b)) (same r) (a.readable e s.env m n q)
    where
      same : {x y : Slice} → some x ≡ some y → x ≡ y
      same e = ground arith

  -- A slice of a buffer.
  pub slice_from_buffer_argument-Safe :
      {s : State} {B : Type 0} {f : Slice → M B} {v : h.napi.Value}
      → Documented
      → IsBuffer v
      → ((x : Slice) → Readable s x → Safe s (f x))
      → Safe s (slice_from_buffer_argument v >>= f)
  unfolding slice_from_buffer_argument
  slice_from_buffer_argument-Safe {s} {f} {v} d a g = record {
    safe = λ t y.
        Ends-and_then (λ x u. Calm s u × Readable s x) (slice_from_buffer_argument v t) f
          (napi_status_throws-Leads d t _ (some (record { start = nowhere; size = 0 }))
            (region_slice (h.napi.get_buffer_info v t.env))
            (λ x e. (
              y,
              record {
                bytes = λ u c. bytes_of u v a t.env x (h.napi.get_buffer_info v t.env) refl e;
              },
            )))
          (λ x u (z, b). (g x b).safe u z);
  }

  Leads-found :
      {A : Type 0} {s t : State} (r : Option A) (a : A)
      → r ≡ some a
      → Calm s t
      → Leads (λ a. Calm s) (found r t)
  Leads-found r a e x = rw (e, Leads) x

  pub read_slice-Reads : {s : State} {x : Slice} → Readable s x → Reads s (read_slice x)
  unfolding read_slice
  read_slice-Reads {s} {x} a = record {
    reads = λ t y. let (b, e) = a.bytes t y in Leads-found (slice_bytes t x) b e y;
  }

  pub expect-Reads :
      {s : State} {k : Kind} {p : Address} → Holds s (p, native_sort k) → Reads s (expect k p)
  unfolding expect
  expect-Reads {s} {k} {p} a = record {
    reads = λ t x.
        let (live, old) = Holds-Calm (p, native_sort k) x a in
        let live = is_native_of k (t.cells p) live in rw (live, Leads) x;
  }

  pub load_write_options-Reads :
      {s : State} {p : Address} → Holds s (p, write_options_sort) → Reads s (load_write_options p)
  unfolding load_write_options
  load_write_options-Reads {s} {p} a = record {
    reads = λ t x.
        let (live, old) = Holds-Calm (p, write_options_sort) x a in
        let (o, e) = write_options_of (t.cells p) live in rw (e, Leads) x;
  }

  pub load_read_options-Reads :
      {s : State} {p : Address} → Holds s (p, read_options_sort) → Reads s (load_read_options p)
  unfolding load_read_options
  load_read_options-Reads {s} {p} a = record {
    reads = λ t x.
        let (live, old) = Holds-Calm (p, read_options_sort) x a in
        let (o, e) = read_options_of (t.cells p) live in rw (e, Leads) x;
  }
