-- ===== src/Automobile/Simulator.antt =====
-- Assignment3/TravelSimulator.cpp: four cars on a track until SIGINT comes.
use unx.Prelude.{
  ℕ, zero, suc, Bool, true, false, Option, none, some, List, [], ◌∷◌, ◌++◌, replicate,
  if◌then◌else◌,
}
use Prim.Native.String.{String}
use unx.Prelude.Bytes.{Bytes, codes}
use unx.Logging.{LogLevel, debug}
use unx.Automobile.{
  Double, Identity, Automobile, Method, set_fuel_efficiency, add_fuel, drive, empty_fuel,
  automobile, calls, and_then, distances, next_track,
}
pub mod Rounds

abbrev pub Logged : Type 0
Logged = LogLevel × Bytes

abbrev pub corolla : Identity
corolla = record {
  make = codes "Toyota";
  model = codes "Corolla";
  colour = codes "grey";
  year = 2013;
}

abbrev pub civic : Identity
civic = record { make = codes "Honda"; model = codes "Civic"; colour = codes "red"; year = 2012 }

abbrev pub impala : Identity
impala = record {
  make = codes "Chevrolet";
  model = codes "Impala";
  colour = codes "blue";
  year = 2008;
}

abbrev pub escalade : Identity
escalade = record {
  make = codes "Cadillac";
  model = codes "Escalade";
  colour = codes "black";
  year = 2016;
}

-- How a run goes: to its end, to a message that is too long for its buffer, or on and on.
pub data Run (A : Type 0) : Type 0 where
  ends : A → Run A
  overruns goes_on : Run A

module _ (d : Double) where
  -- What the source calls on the cars, car by car.
  unfoldable pub each :
      List (List (Method d)) → List (Automobile d) → Option (List (Automobile d) × List Logged)
  unfolding calls and_then
  each [] cars = some (cars, [])
  each (ms ∷ mss) [] = some ([], [])
  each (ms ∷ mss) (car ∷ cars) =
      let rest = each mss cars in
      and_then (calls d ms car) (λ c. and_then rest (λ cs. some (c ∷ cs, [])))

  abbrev pub fill : List (List (Method d))
  fill = replicate 4 (add_fuel (d.literal 50 0) ∷ [])

  abbrev pub leg : d.Value → ℕ → List (Method d)
  leg efficiency distance = set_fuel_efficiency efficiency ∷ drive (d.literal distance 0) ∷ []

  abbrev pub city : ℕ → List (List (Method d))
  city distance =
      leg (d.literal 82 1) distance
      ∷ leg (d.literal 78 1) distance
      ∷ leg (d.literal 106 1) distance
      ∷ leg (d.literal 1729 2) distance
      ∷ []

  abbrev pub highway : ℕ → List (List (Method d))
  highway distance =
      leg (d.literal 62 1) distance
      ∷ leg (d.literal 58 1) distance
      ∷ leg (d.literal 75 1) distance
      ∷ leg (d.literal 125 1) distance
      ∷ []

  abbrev line : String → List Logged
  line text = (debug, codes text) ∷ []

  -- A call of `Log` in `main`.
  abbrev say : String → List (Automobile d) → Option (List (Automobile d) × List Logged)
  say text cars = some (cars, line text)

  -- A round of the loop: the cars, and what was logged.
  unfoldable pub round : ℕ → List (Automobile d) → Option (List (Automobile d) × List Logged)
  unfolding each distances and_then
  round track cars =
      let first =
        and_then (and_then (each (replicate 4 (empty_fuel ∷ [])) cars) (each fill))
          (say "Added the fuel") in
      let in_city =
        and_then (and_then first (each (city (distances track).0))) (say "Set the efficiency") in
      let filled = and_then (and_then in_city (each fill)) (say "Added the fuel again") in
      and_then (and_then filled (each (highway (distances track).1))) (say "Drove the cars")

  unfoldable pub before_rest :
      List Logged
      → Run (List (Automobile d) × List Logged)
      → Run (List (Automobile d) × List Logged)
  before_rest lines (ends r) = ends (r.0, lines ++ r.1)
  before_rest lines overruns = overruns
  before_rest lines goes_on = goes_on

  -- The loop, where each round has SIGINT in it or not; it goes on where there is none in all of them.
  unfoldable pub simulate :
      List Bool → ℕ → List (Automobile d) → Run (List (Automobile d) × List Logged)
  unfolding round next_track before_rest
  simulate [] track cars = goes_on
  simulate (interrupted ∷ later) track cars = elim (round track cars) [
    | none ↦ overruns
    | some r ↦ elim interrupted [
      | true ↦ ends r
      | false ↦ before_rest r.1 (simulate later (next_track track) r.0)
    ]
  ]

  -- The cars, with what the memory holds for their efficiencies.
  unfoldable pub created : d.Value → d.Value → d.Value → d.Value → List (Automobile d)
  unfolding automobile
  created m1 m2 m3 m4 =
      automobile d corolla m1
      ∷ automobile d civic m2
      ∷ automobile d impala m3
      ∷ automobile d escalade m4
      ∷ []

  -- What `displayReport` prints of a car: its name and its tank.
  abbrev pub display_report : Automobile d → Identity × d.Value
  display_report car = (car.identity, car.fuel_in_tank)

  unfoldable pub reports : List (Automobile d) → List (Identity × d.Value)
  reports [] = []
  reports (car ∷ cars) = let rest = reports cars in display_report car ∷ rest

  unfoldable pub finished :
      Run (List (Automobile d) × List Logged) → Run (List (Identity × d.Value) × List Logged)
  unfolding reports
  finished overruns = overruns
  finished goes_on = goes_on
  finished (ends r) = ends (
    reports r.0,
    line "Created the objects" ++ r.1 ++ line "Displayed the report" ++ line "Deleted the objects",
  )

  -- `main`, from the logger on: the reports, and what was logged.
  unfoldable pub main :
      List Bool
      → d.Value
      → d.Value
      → d.Value
      → d.Value
      → Run (List (Identity × d.Value) × List Logged)
  unfolding simulate created finished
  main interrupts m1 m2 m3 m4 = finished (simulate interrupts 1 (created m1 m2 m3 m4))
