-- ===== src/Host/Logging.antt =====
-- easylogging++ (deps/easyloggingpp) as `logger_config` of binding.cc calls it: configurations read
-- from the file with a given path, and the two functions that install them.
use rocksdb_ts.Host.Engine.{Bytes}

pub record Logging : Type 1 where
  pub Loggers : Type 0
  pub Configurations : Type 0
  pub configurations : Bytes → Configurations
  pub reconfigure_logger : Bytes → Configurations → Loggers → Loggers
  pub reconfigure_all_loggers : Configurations → Loggers → Loggers
