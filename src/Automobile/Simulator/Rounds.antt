-- ===== src/Automobile/Simulator/Rounds.antt =====
-- Assignment3/TravelSimulator.cpp: the tracks and their distances.
use unx.Prelude.{ℕ, ◌+◌, ◌≤◌, ◌≡◌, refl, arith}
use unx.Automobile.{distances, next_track}

-- From track 1 the rounds come to 3, 5, 2, 4 and 1 again; on each the two distances are 500 km together.
tracks-cycle :
    (next_track 1 ≡ 3)
    × (next_track 3 ≡ 5)
    × (next_track 5 ≡ 2)
    × (next_track 2 ≡ 4)
    × (next_track 4 ≡ 1)
unfolding next_track
tracks-cycle = (refl, refl, refl, refl, refl)

distances-sum : (track : ℕ) → track ≤ 5 → (distances track).0 + (distances track).1 ≡ 500
unfolding distances
distances-sum track h = omega (arith, h)
