-- ===== src/Logging/Examples.antt =====
-- Assignment3: the theorems of the logger at concrete texts.
use unx.Prelude.{false, some, [], ◌∷◌, ◌≡◌, refl, arith}
use unx.Prelude.Bytes.{Bytes, codes}
use unx.Logging.{warning, error, Logger, log_text, log, dump_log_file}
use unx.Logging.Levels.{log-shown}

abbrev client : Logger
client = record { log_level = 1; client_fd = some 3 }

abbrev time : Bytes
time = codes "2025-08-01 10:00:00"

abbrev message : Bytes
message = codes "No CRITICAL fault"

abbrev line_of_error : Bytes
line_of_error = log_text time error (codes "Automobile.cpp") (codes "drive") 48 message

log-shown_example :
    dump_log_file false warning (line_of_error ∷ [])
    ≡ line_of_error ∷ dump_log_file false warning []
unfolding log
log-shown_example =
    log-shown time (codes "Automobile.cpp") (codes "drive") message error warning 48 client
      (3, line_of_error) [] (omega arith) refl
