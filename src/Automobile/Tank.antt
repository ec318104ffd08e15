-- ===== src/Automobile/Tank.antt =====
-- Assignment3/Automobile.cpp: the fuel in the tank.
use unx.Prelude.{◌≤◌, false, Option, some, List, ◌≡◌}
use unx.Automobile.{
  Double, IsOrdered, Automobile, Method, set_fuel_efficiency, add_fuel, drive, empty_fuel,
}
use unx.Automobile.Messages.{words}
use unx.Prelude.Bytes.{Bytes}
use unx.Logging.{LogLevel}

module _ (d : Double) (laws : IsOrdered d) where
  abbrev pub NotBelow : d.Value → Type 0
  NotBelow a = d.less a (d.literal 0 0) ≡ false

  -- Neither less than nothing nor more than 50 liters.
  pub record IsContent (fuel : d.Value) : Type 0 where
    pub not_below : NotBelow fuel
    pub not_above : d.less (d.literal 50 0) fuel ≡ false

  -- The tank is in its bounds, and the efficiency not below 0.
  pub record IsInTank (a : Automobile d) : Type 0 where
    pub content : IsContent a.fuel_in_tank
    pub efficient : NotBelow a.fuel_efficiency

  -- The argument of a method is not below 0.
  abbrev pub IsForward : Method d → Type 0
  IsForward (set_fuel_efficiency e) = NotBelow e
  IsForward (add_fuel l) = NotBelow l
  IsForward (drive x) = NotBelow x
  IsForward empty_fuel = Unit

  -- The words of its name are short enough for both messages.
  abbrev IsNamed : Automobile d → Type 0
  IsNamed a = words a.identity ≤ 16

  -- A call that gives a car with a property, and does not change its name.
  pub record Gives (P : Automobile d → Type 0) (a : Automobile d)
      (r : Option (Automobile d × List (LogLevel × Bytes))) : Type 0 where
    pub car : Automobile d
    pub lines : List (LogLevel × Bytes)
    pub gives : r ≡ some (car, lines)
    pub same : car.identity ≡ a.identity
    pub has : P car
