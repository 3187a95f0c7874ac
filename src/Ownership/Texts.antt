-- ===== src/Ownership/Texts.antt =====
-- String arguments and the rules that derive what a method does to the heap from its text.
use rocksdb_ts.Prelude.{
  ℕ, suc, ◌+◌, ◌%◌, ◌≡◌, refl, Bool, true, false, Option, none, some, [], ◌≤◌, ◌-◌, leb, length,
  arith, update,
}
use rocksdb_ts.Host.{Host, Bytes, Encoding}
use rocksdb_ts.Machine.{chars_cell, State, pure, ◌>>◌}
use rocksdb_ts.Machine.Macros.{
  slice_from_string_argument, copy_string, string_size, array_slice, write_chars, bytes_written,
}
use rocksdb_ts.Ownership.{TextsFit, Steady, After, IsSteady}
use rocksdb_ts.Ownership.Steps.{Steady-trans, After-and_then, After-map}
use rocksdb_ts.Ownership.Parts.{After-napi_status_throws}

module _ ⦃h : Host⦄ where
  -- The array is new, so the copy into it changes no object that was there.
  Steady-array :
      (s : State) (n m : ℕ) (b : Bytes)
      → Steady s (record s {
        cells =
            update (update s.cells s.next (some (chars_cell n []))) s.next (some (chars_cell m b));
        next = suc s.next;
      })
  Steady-array s n m b = record {
    grows = omega arith;
    lives = λ q k l f. ground arith;
    room = λ m q l. ground (arith, m q);
    refs = λ v x. x;
    same = refl;
  }

  Steady-fresh_array :
      (s : State) (n : ℕ)
      → Steady s
          (record s { cells = update s.cells s.next (some (chars_cell n [])); next = suc s.next })
  Steady-fresh_array s n = record {
    grows = omega arith;
    lives = λ q k l f. ground arith;
    room = λ m q l. ground (arith, m q);
    refs = λ v x. x;
    same = refl;
  }

  -- The state with the array that is not written yet.
  abbrev blank : State → ℕ → State
  blank s n = record s { cells = update s.cells s.next (some (chars_cell n [])); next = suc s.next }

  found_blank : (s : State) (n : ℕ) → (blank s n).cells s.next ≡ some (chars_cell n [])
  found_blank s n = ground arith

  -- A text that fits is written within the array.
  After-write :
      (s : State) (n : ℕ) (b : Bytes) (r : Bool)
      → leb (bytes_written n b) n ≡ r
      → (TextsFit → length b ≤ n - 1)
      → After (Steady s) (
          (write_chars (some (chars_cell n [])) s.next (bytes_written n b) b >> pure (length b))
            (blank s n))
  After-write s n b true e f = rw (e, After) (Steady-array s n n b)
  After-write s n b false e f = rw (e, After) (λ fits. let l = f fits in ground arith)

  After-copy :
      (s : State) (enc : Encoding) (v : h.napi.Value) (n : ℕ) (r : Option Bytes)
      → h.napi.string_copy enc v n s.env ≡ r
      → After (Steady s) (copy_string enc v s.next n (blank s n))
  unfolding copy_string
  After-copy s enc v n none e =
      rw (e, After)
        (After-map _ (λ t. Steady-trans (Steady-fresh_array s n))
          (After-napi_status_throws (blank s n) (some n) none))
  After-copy s enc v n (some b) e =
      rw (e, After, found_blank s n)
        (After-write s n b (leb (bytes_written n b) n) refl (λ fits. fits enc v n s.env b e))

  After-sized :
      (s : State) (enc : Encoding) (v : h.napi.Value) (r : Option ℕ)
      → h.napi.string_length enc v s.env ≡ r
      → After (Steady s) (slice_from_string_argument enc v s)
  unfolding slice_from_string_argument string_size
  After-sized s enc v none e = rw (e, After) tt
  After-sized s enc v (some n) e =
      let size = (n + 1) % h.size_mod in
      rw (e, After)
        (After-and_then {P = Steady s} (copy_string enc v s.next size (blank s size))
          (λ m. pure (array_slice s.next m))
          (After-copy s enc v size (h.napi.string_copy enc v size s.env) refl) (λ a t x. x))

  pub slice_from_string_argument-IsSteady :
      (enc : Encoding) (v : h.napi.Value) → IsSteady (slice_from_string_argument enc v)
  slice_from_string_argument-IsSteady enc v = record {
    steady = λ s. After-sized s enc v (h.napi.string_length enc v s.env) refl;
  }
