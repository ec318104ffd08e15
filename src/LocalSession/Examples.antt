-- ===== src/LocalSession/Examples.antt =====
-- Lab6: the theorems at a session.
use unx.Prelude.{List, [], ◌∷◌, ◌≡◌, refl, ◌⊎◌}
use unx.LocalSession.{Move, by_server, by_client, all, moves, connected}
use unx.LocalSession.Phases.{Phase, ended, session, Nearer, moves-phases}

abbrev turns : List Move
turns =
    by_client all
    ∷ by_server all
    ∷ by_client all
    ∷ by_client all
    ∷ by_server all
    ∷ by_server all
    ∷ by_client all
    ∷ []

moves-phases_example :
    (p : Phase) × (moves 4711 turns connected ≡ session 4711 p) × ((p ≡ ended) ⊎ Nearer 4711 p)
moves-phases_example =
    moves-phases 4711 turns (refl, (refl, (refl, (refl, (refl, (refl, (refl, tt)))))))
