-- ===== src/Machine/Strings.antt =====
-- The temporary arrays of SLICE_FROM_STRING_ARGUMENT: what they hold, and that releasing them
-- restores the heap.
use rocksdb_ts.Prelude.{
  ℕ, suc, ◌+◌, ◌<◌, ◌≤◌, ◌≡◌, Option, none, some, [], le→leb, arith, length, take-length, update,
  ap, fun_ext,
}
use native.Mathlib.Nat.{mod-eq_of_lt}
use rocksdb_ts.Host.{Host, Address, Bytes, Encoding}
use rocksdb_ts.Machine.{Cell, chars_cell, State, ok, M, ◌>>◌}
use rocksdb_ts.Machine.Calls.{Encodes}
use rocksdb_ts.Machine.Effects.{read_slice}
use rocksdb_ts.Machine.Macros.{
  array_slice, slice_from_string_argument, slice_from_string_argument_release,
}

module _ ⦃h : Host⦄ where
  -- The state with one more array, which holds the text and has room for a final zero.
  abbrev pub with_array : Bytes → State → State
  with_array b s = record s {
    cells = update s.cells s.next (some (chars_cell (length b + 1) b));
    next = suc s.next;
  }

  update-update :
      (f : Address → Option Cell) (p : Address) (c d : Option Cell)
      → update (update f p c) p d ≡ update f p d
  update-update f p c d = fun_ext λ q. ground arith

  pub slice_from_string_argument_lem :
      (s : State) (enc : Encoding) {v : h.napi.Value} {b : Bytes}
      → Encodes enc v s.env b
      → slice_from_string_argument enc v s ≡ ok (array_slice s.next (length b)) (with_array b s)
  unfolding slice_from_string_argument
  slice_from_string_argument_lem s enc {v} {b} c = ground (
    arith,
    mod-eq_of_lt c.fits,
    update-update s.cells s.next (some (chars_cell (length b + 1) []))
        (some (chars_cell (length b + 1) b)),
  )

  pub read_array :
      (s : State) (p : Address) {n : ℕ} (b : Bytes)
      → s.cells p ≡ some (chars_cell n b)
      → read_slice (array_slice p (length b)) s ≡ ok b s
  unfolding read_slice
  read_array s p b live = rw (live, le→leb (length b) (length b) (omega arith), take-length b)

  pub release_array :
      (s : State) (p : Address) (m : ℕ) {n : ℕ} {b : Bytes}
      → s.cells p ≡ some (chars_cell n b)
      → slice_from_string_argument_release (array_slice p m) s
        ≡ ok tt (record s { cells = update s.cells p none })
  unfolding slice_from_string_argument_release
  release_array s p m live = rw live

  -- No object lives at an address that `new` has not given out yet.
  pub record HasRoom (s : State) : Type 0 where
    pub unused : (p : Address) → s.next ≤ p → s.cells p ≡ none

  -- Two arrays in the order in which a method makes them.
  abbrev pub both : Bytes → Bytes → State → State
  both k v s = with_array v (with_array k s)

  -- What lives below the unused addresses is found where two arrays stand behind it.
  pub old_cell_both :
      (s : State) (k v : Bytes) {p : Address} → p < s.next → (both k v s).cells p ≡ s.cells p
  old_cell_both s k v old = ground arith

  pub old_cell :
      (s : State) (k : Bytes) {p : Address} → p < s.next → (with_array k s).cells p ≡ s.cells p
  old_cell s k old = ground arith

  pub first_of_both :
      (s : State) (k v : Bytes) → (both k v s).cells s.next ≡ some (chars_cell (length k + 1) k)
  first_of_both s k v = ground arith

  pub second_of_both :
      (s : State) (k v : Bytes)
      → (both k v s).cells (suc s.next) ≡ some (chars_cell (length v + 1) v)
  second_of_both s k v = ground arith

  pub only_array :
      (s : State) (k : Bytes) → (with_array k s).cells s.next ≡ some (chars_cell (length k + 1) k)
  only_array s k = ground arith

  -- Addresses that held nothing hold nothing again.
  emptied_both :
      (s : State) (c d : Option Cell)
      → HasRoom s
      → update
          (update (update (update s.cells s.next c) (suc s.next) d) s.next none)
          (suc s.next)
          none
        ≡ s.cells
  emptied_both s c d room =
      fun_ext λ q.
        ground (arith, room.unused s.next (omega arith), room.unused (suc s.next) (omega arith))

  emptied :
      (s : State) (c : Option Cell)
      → HasRoom s
      → update (update s.cells s.next c) s.next none ≡ s.cells
  emptied s c room = fun_ext λ q. ground (arith, room.unused s.next (omega arith))

  still :
      (s : State) (k v : Bytes)
      → update (both k v s).cells s.next none (suc s.next) ≡ some (chars_cell (length v + 1) v)
  still s k v = ground arith

  pub release_both :
      {A : Type 0} (s : State) (k v : Bytes) (l : h.rocks.Lib) (m : M A)
      → HasRoom s
      → (slice_from_string_argument_release (array_slice s.next (length k))
            >> (slice_from_string_argument_release (array_slice (suc s.next) (length v)) >> m))
          (record (both k v s) { lib = l })
        ≡ m (record s { lib = l; next = suc (suc s.next) })
  release_both s k v l m room =
      rw
        (
          release_array (record (both k v s) { lib = l }) s.next (length k) (first_of_both s k v),
          release_array
              (record (both k v s) { lib = l; cells = update (both k v s).cells s.next none })
              (suc s.next) (length v) (still s k v),
        )
        (ap (λ f. m (record s { lib = l; next = suc (suc s.next); cells = f }))
          (emptied_both s _ _ room))

  pub release_one :
      {A : Type 0} (s : State) (k : Bytes) (l : h.rocks.Lib) (m : M A)
      → HasRoom s
      → (slice_from_string_argument_release (array_slice s.next (length k)) >> m)
          (record (with_array k s) { lib = l })
        ≡ m (record s { lib = l; next = suc s.next })
  release_one s k l m room =
      rw (release_array (record (with_array k s) { lib = l }) s.next (length k) (only_array s k))
        (ap (λ f. m (record s { lib = l; next = suc s.next; cells = f })) (emptied s _ room))
