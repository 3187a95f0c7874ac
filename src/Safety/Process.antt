-- ===== src/Safety/Process.antt =====
-- Calls with values that the module itself has made, whatever the process did before.
use Prim.Native.String.{String}
use mathlib.Core.List.{Memᴰ}
use rocksdb_ts.Prelude.{ℕ, suc, ◌≤◌, ◌≡◌, ◌≢◌, some, List, [], ◌∷◌, length}
use rocksdb_ts.Host.{Host, Address}
use rocksdb_ts.Machine.{State, External}
use rocksdb_ts.Interface.{Context}
use rocksdb_ts.Interface.Values.{finalizer_of}
use rocksdb_ts.Interface.Parameters.{
  ParameterType, context, buffer, string, boolean, number, bigint,
}
use rocksdb_ts.Ownership.Reaches.{Reaches}
use rocksdb_ts.Safety.{IsBuffer, IsText}

module _ ⦃h : Host⦄ where
  -- A value that a method has returned for the context, over no null pointer, whose finalizer has not
  -- run. N-API gives the pointer that the value was made with.
  pub record IsOwned (s : State) (c : Context) (v : h.napi.Value) : Type 0 where
    pub owner : External
    pub listed : Memᴰ owner s.externals
    pub kind : owner.finalizer ≡ finalizer_of c
    pub given : owner.payload ≢ 0
    pub leads :
        (e : h.napi.Env) (p : Address) → h.napi.get_value_external v e ≡ some p → owner.payload ≡ p

  abbrev pub IsOwnArgument : State → ParameterType → h.napi.Value → Type 0
  IsOwnArgument s (context c) v = IsOwned s c v
  IsOwnArgument s buffer v = IsBuffer v
  IsOwnArgument s string v = IsText v
  IsOwnArgument s boolean v = Unit
  IsOwnArgument s number v = Unit
  IsOwnArgument s bigint v = Unit

  abbrev pub AreOwnArguments : State → List ParameterType → (ℕ → h.napi.Value) → ℕ → Type 0
  AreOwnArguments s [] argv i = Unit
  AreOwnArguments s (τ ∷ τs) argv i = IsOwnArgument s τ (argv i) × AreOwnArguments s τs argv (suc i)

  -- The arguments of the call are of the parameters' types, and the contexts are values that the
  -- module has made.
  pub record IsOwnCall (s : State) (τs : List ParameterType) (info : h.napi.Info) : Type 0 where
    pub arguments :
        (n : ℕ) (e : h.napi.Env) (argv : ℕ → h.napi.Value)
        → length τs ≤ n
        → h.napi.get_cb_info n info e ≡ some argv
        → AreOwnArguments s τs argv 0
