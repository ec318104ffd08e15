-- ===== src/Logging/Menu/Examples.antt =====
-- Assignment3/LogServer.cpp: the theorems at a menu.
use unx.Prelude.{true, some, [], ◌∷◌}
use unx.Prelude.Bytes.{codes}
use unx.Logging.{Logger}
use unx.Logging.Menu.{Surroundings, menu_round, at_menu}
use unx.Logging.Menu.Agreement.{Agrees, menu_round-Agrees}

abbrev around : Surroundings
around = record {
  socket = true;
  before = codes "2024 ERROR a.cpp:f:1 x" ∷ [];
  asleep = codes "2024 WARNING a.cpp:f:2 y" ∷ [];
}

abbrev logger : Logger
logger = record { log_level = 0; client_fd = some 3 }

menu_round-Agrees_example : Agrees logger (menu_round around (at_menu (codes "1\n2\n\n")))
menu_round-Agrees_example = menu_round-Agrees around (at_menu (codes "1\n2\n\n")) logger
