-- ===== src/Logger.antt =====
-- pkg/logger/logger.go: the logger that errors are printed with, which is a variable of the package.
use go_exasol.Base.{Option, none, some}
use go_exasol.Errors.{err_logger_nil}
use go_exasol.Result.{Result, ok, err}

-- `SetLogger`, on the variable `ErrorLogger`; `none` is a nil logger.
unfoldable pub set_logger : {Logger : Type 0} → Option Logger → Logger → Result (Unit {0}) × Logger
set_logger none error_logger = (err err_logger_nil, error_logger)
set_logger (some logger) error_logger = (ok tt, logger)
