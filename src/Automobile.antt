-- ===== src/Automobile.antt =====
-- Assignment3/Automobile.cpp, and its use in TravelSimulator.cpp. The arithmetic of double is a parameter.
use unx.Prelude.{
  ℕ, zero, suc, ◌+◌, ◌-◌, ◌*◌, ◌%◌, Bool, true, false, Option, none, some, List, [], ◌∷◌, ◌++◌,
  if◌then◌else◌, ◌≡◌, length, ltb,
}
use unx.Prelude.Bytes.{Bytes, codes, decimal}
use unx.Logging.{LogLevel, warning, error}
pub mod Messages
pub mod Tank
pub mod Simulator
pub mod Examples

-- The operations of double that the source uses: a literal with so many decimals, and `a < b`.
pub record Double : Type 1 where
  pub Value : Type 0
  pub literal : ℕ → ℕ → Value
  pub plus : Value → Value → Value
  pub minus : Value → Value → Value
  pub times : Value → Value → Value
  pub over : Value → Value → Value
  pub less : Value → Value → Bool

-- Signs and order, in the form in which they hold for NaN too: what is not below 0 stays so under a sum,
-- a quotient by 100 and a product; what is not above 50 stays so when such a number is taken away; no literal
-- without a sign is below 0, and 50 is not below itself.
pub record IsOrdered (d : Double) : Type 0 where
  pub plus_sign :
      (a b : d.Value)
      → d.less a (d.literal 0 0) ≡ false
      → d.less b (d.literal 0 0) ≡ false
      → d.less (d.plus a b) (d.literal 0 0) ≡ false
  pub times_sign :
      (a b : d.Value)
      → d.less a (d.literal 0 0) ≡ false
      → d.less b (d.literal 0 0) ≡ false
      → d.less (d.times a b) (d.literal 0 0) ≡ false
  pub over_sign :
      (a : d.Value)
      → d.less a (d.literal 0 0) ≡ false
      → d.less (d.over a (d.literal 100 0)) (d.literal 0 0) ≡ false
  pub minus_top :
      (a b : d.Value)
      → d.less (d.literal 50 0) a ≡ false
      → d.less b (d.literal 0 0) ≡ false
      → d.less (d.literal 50 0) (d.minus a b) ≡ false
  pub literal_sign : (n decimals : ℕ) → d.less (d.literal n decimals) (d.literal 0 0) ≡ false
  pub top_top : d.less (d.literal 50 0) (d.literal 50 0) ≡ false

-- The name that the messages have.
pub record Identity : Type 0 where
  pub make : Bytes
  pub model : Bytes
  pub colour : Bytes
  pub year : ℕ

abbrev pub described : Identity → Bytes
described c =
    codes "The "
    ++ (c.colour
        ++ (codes " " ++ (decimal c.year ++ (codes " " ++ (c.make ++ (codes " " ++ c.model))))))

-- What sprintf puts into `message`, before the NUL.
pub full_message : Identity → Bytes
full_message c = described c ++ codes " is full of gas. Discarding the rest...\n"

pub empty_message : Identity → Bytes
empty_message c = described c ++ codes " has no gas left in the tank\n"

-- The size of `message`.
abbrev pub message_size : ℕ
message_size = 64

-- The next track of TravelSimulator.cpp, and its two distances.
unfoldable pub next_track : ℕ → ℕ
next_track track = (track + 1) % 5 + 1

unfoldable pub distances : ℕ → ℕ × ℕ
distances track = (track * 100, 500 - track * 100)

-- What was logged, and then what is logged by the rest.
unfoldable pub and_then {ℓ κ μ} :
    {A : Type ℓ} {B : Type κ} {L : Type μ}
    → Option (A × List L)
    → (A → Option (B × List L))
    → Option (B × List L)
and_then none rest = none
and_then (some (a, lines)) rest = elim (rest a) [ none ↦ none | some r ↦ some (r.0, lines ++ r.1) ]

module _ (d : Double) where
  pub record Automobile : Type 0 where
    pub identity : Identity
    pub fuel_in_tank : d.Value
    pub fuel_efficiency : d.Value

  -- A method, with the message that it logs.
  pub data Method : Type 0 where
    set_fuel_efficiency add_fuel drive : d.Value → Method
    empty_fuel : Method

  -- `Automobile::Automobile`, which leaves the efficiency as the memory was.
  unfoldable pub automobile : Identity → d.Value → Automobile
  automobile i memory = record {
    identity = i;
    fuel_in_tank = d.literal 0 0;
    fuel_efficiency = memory;
  }

  -- `sprintf` into `message`, and `Log`: where the text and its NUL do not fit, it writes behind the buffer.
  unfoldable pub log_message :
      LogLevel → Bytes → Automobile → Option (Automobile × List (LogLevel × Bytes))
  log_message level text a =
      if ltb (length text) message_size then some (a, (level, text) ∷ []) else none

  -- A call; `none` where it writes behind its buffer.
  unfoldable pub call : Method → Automobile → Option (Automobile × List (LogLevel × Bytes))
  unfolding full_message empty_message log_message
  call (set_fuel_efficiency e) a = some (record a { fuel_efficiency = e }, [])
  call empty_fuel a = some (record a { fuel_in_tank = d.literal 0 0 }, [])
  call (add_fuel liters) a =
      let fuel = d.plus a.fuel_in_tank liters in
      if d.less (d.literal 50 0) fuel
      then log_message warning (full_message a.identity)
          (record a { fuel_in_tank = d.literal 50 0 })
      else some (record a { fuel_in_tank = fuel }, [])
  call (drive distance) a =
      let fuel =
        d.minus a.fuel_in_tank (d.times (d.over a.fuel_efficiency (d.literal 100 0)) distance) in
      if d.less fuel (d.literal 0 0)
      then log_message error (empty_message a.identity) (record a { fuel_in_tank = d.literal 0 0 })
      else some (record a { fuel_in_tank = fuel }, [])

  unfoldable pub calls : List Method → Automobile → Option (Automobile × List (LogLevel × Bytes))
  unfolding call and_then
  calls [] a = some (a, [])
  calls (m ∷ ms) a = and_then (call m a) (calls ms)
