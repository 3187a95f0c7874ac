-- ===== src/Safety/Open.antt =====
-- Opening a database, and the methods of the logger.
use rocksdb_ts.Prelude.{◌≡◌, refl, Bool, true, false, Option, none, some, [], ◌∷◌, arith}
use rocksdb_ts.Host.{Host, Address, Bytes}
use rocksdb_ts.Machine.{State, ok}
use rocksdb_ts.Database.{rocksdb_open, open_database, hold_reference}
use rocksdb_ts.Logger.{logger_config, logger_start, logger_stop, configure_loggers}
use rocksdb_ts.Interface.{options_context}
use rocksdb_ts.Interface.Parameters.{context, buffer}
use rocksdb_ts.Safety.{Ends, Documented, IsCall, Reads, Safe}
use rocksdb_ts.Safety.Steps.{Leads-Ends, Safe-Reads, Reads-all, Reads-then, Reads-pure}
use rocksdb_ts.Safety.Parts.{Calm-outside, create_external-Reads, napi_status_throws-Leads}
use rocksdb_ts.Safety.Arguments.{napi_argv-Safe, napi_argv-Reads}
use rocksdb_ts.Safety.Rules.{read_rules, safe_rules}

module _ ⦃h : Host⦄ where
  open_database-Reads :
      {s : State} (p : Address) (location : Bytes) → Reads s (open_database p location)
  unfolding open_database
  open_database-Reads p location = search read_rules depth 14

  holds :
      (d : Documented) (c : Address) (v : h.napi.Value) (t : State)
      (r : Option (h.napi.Ref × h.napi.Env))
      → h.napi.create_reference v 1 t.env ≡ r
      → Ends (hold_reference c v t)
  unfolding hold_reference
  holds d c v t none e =
      rw (e, Ends)
        (Leads-Ends _ _ (napi_status_throws-Leads d t (λ a u. Unit) (some tt) none (λ a q. tt)))
  holds d c v t (some (r, env)) e = rw (e, Ends) tt

  hold_reference-Safe :
      {s : State} → Documented → (c : Address) (v : h.napi.Value) → Safe s (hold_reference c v)
  hold_reference-Safe d c v = record {
    safe = λ t x. holds d c v t (h.napi.create_reference v 1 t.env) refl;
  }

  pub rocksdb_open-Safe :
      {s : State} {info : h.napi.Info}
      → Documented
      → IsCall s (buffer ∷ context options_context ∷ []) info
      → Safe s (rocksdb_open info)
  unfolding rocksdb_open
  rocksdb_open-Safe d c = napi_argv-Safe d c (omega arith) λ argv (a0, (a1, z)).
      search (safe_rules, open_database-Reads, create_external-Reads, hold_reference-Safe) depth 14

  configure_loggers-Reads : {s : State} (path : Bytes) → Reads s (configure_loggers path)
  unfolding configure_loggers
  configure_loggers-Reads {s} path = Reads-all s λ t. Calm-outside refl refl

  pub logger_config-Safe :
      {s : State} {info : h.napi.Info}
      → Documented
      → IsCall s (buffer ∷ []) info
      → Safe s (logger_config info)
  unfolding logger_config
  logger_config-Safe d c =
      napi_argv-Safe d c (omega arith)
        λ argv (a0, z). search (safe_rules, configure_loggers-Reads) depth 14

  switched :
      {s : State} (b : Bool)
      → Reads s {A = Unit {0}} (λ t. ok tt (record t { logging_enabled = b }))
  switched {s} b = Reads-all s λ t. Calm-outside refl refl

  pub logger_start-Safe :
      {s : State} {info : h.napi.Info} → Documented → IsCall s [] info → Safe s (logger_start info)
  unfolding logger_start
  logger_start-Safe {info} d c =
      Safe-Reads
        (Reads-then (napi_argv-Reads d 0 info) (Reads-then (switched true) (Reads-pure none)))

  pub logger_stop-Safe :
      {s : State} {info : h.napi.Info} → Documented → IsCall s [] info → Safe s (logger_stop info)
  unfolding logger_stop
  logger_stop-Safe {info} d c =
      Safe-Reads
        (Reads-then (napi_argv-Reads d 0 info) (Reads-then (switched false) (Reads-pure none)))
