-- ===== src/Logger.antt =====
-- The switch of the logger and its configuration: logger_* of binding.cc.
use rocksdb_ts.Prelude.{true, false, [], ◌∷◌}
use rocksdb_ts.Host.{Host, Bytes}
use rocksdb_ts.Machine.{ok, M, ◌>>=◌, ◌>>◌, Method}
use rocksdb_ts.Machine.Effects.{read_slice}
use rocksdb_ts.Machine.Macros.{napi_argv, slice_from_buffer_argument, return_undefined}

module _ ⦃h : Host⦄ where
  -- `el::Configurations conf(path)`, then the two calls that install it.
  unfoldable pub configure_loggers : Bytes → M (Unit {0})
  configure_loggers path s =
      let conf = h.logging.configurations path in
      let one =
        h.logging.reconfigure_logger (b'd' ∷ b'e' ∷ b'f' ∷ b'a' ∷ b'u' ∷ b'l' ∷ b't' ∷ []) conf
          s.loggers in
      ok tt (record s { loggers = h.logging.reconfigure_all_loggers conf one })

  unfoldable pub logger_config : Method
  unfolding napi_argv slice_from_buffer_argument read_slice configure_loggers
  logger_config info = do
    argv ← napi_argv 1 info
    x ← slice_from_buffer_argument (argv 0)
    logger_config_path ← read_slice x
    configure_loggers logger_config_path
    return_undefined

  unfoldable pub logger_start : Method
  unfolding napi_argv
  logger_start info = do
    napi_argv 0 info
    λ s. ok tt (record s { logging_enabled = true })
    return_undefined

  unfoldable pub logger_stop : Method
  unfolding napi_argv
  logger_stop info = do
    napi_argv 0 info
    λ s. ok tt (record s { logging_enabled = false })
    return_undefined
