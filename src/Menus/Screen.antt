-- ===== src/Menus/Screen.antt =====
-- Lab4/Lab4.cpp: two questions to the frame buffer. `ioctl` is a parameter.
use unx.Prelude.{
  ℕ, zero, suc, Bool, true, false, not, Option, none, some, List, [], ◌∷◌, ◌++◌, ◌==◌,
  if◌then◌else◌,
}
use unx.Prelude.Bytes.{Bytes, codes}
use unx.Prelude.Console.{Console, Signed, up, down, extract_int}
use unx.Menus.{is_zero}
pub mod Scripts

pub data Query : Type 0 where
  fbioget_fscreeninfo fbioget_vscreeninfo : Query

-- The fields that are printed.
pub record FixInfo : Type 0 where
  pub id : Bytes
  pub visual : ℕ
  pub accel : ℕ
  pub capabilities : ℕ

pub record VarInfo : Type 0 where
  pub xres : ℕ
  pub yres : ℕ
  pub bits_per_pixel : ℕ

-- What a call leaves behind: the text of an error, or the structure.
pub data Screened (A : Type 0) : Type 0 where
  fails : Bytes → Screened A
  gives : A → Screened A

-- The errors go to Screen.log from where it is open.
pub data Line : Type 0 where
  error_opening_log error_opening_framebuffer : Line
  error_fixed error_variable : Bytes → Line
  fixed_info : FixInfo → Line
  variable_info : VarInfo → Line
  exited_successfully : Line

unfoldable pub fixed : Screened FixInfo → Line
fixed (fails text) = error_fixed text
fixed (gives fix_info) = fixed_info fix_info

unfoldable pub variable : Screened VarInfo → Line
variable (fails text) = error_variable text
variable (gives var_info) = variable_info var_info

-- The device at a round.
pub record Device : Type 0 where
  pub get_fscreeninfo : ℕ → Screened FixInfo
  pub get_vscreeninfo : ℕ → Screened VarInfo

unfoldable pub with_lines : List Line → Option (List Line) → Option (List Line)
with_lines ls none = none
with_lines ls (some rest) = some (ls ++ rest)

unfoldable pub exited : Option (List Line) → Option (Bool × List Line)
exited none = none
exited (some ls) = some (true, ls ++ exited_successfully ∷ [])

module _ (dev : Device) where
  -- The two tests behind the one of 0.
  unfoldable pub asked : ℕ → Signed → List Line
  unfolding fixed variable
  asked n (up choice) =
      if choice == 1
      then fixed (dev.get_fscreeninfo n) ∷ []
      else if choice == 2
      then variable (dev.get_vscreeninfo n) ∷ []
      else []
  asked n (down choice) = []

  -- A round behind its `cin >> choice`, with what is left of the loop.
  unfoldable pub turn :
      (Signed → Console → Option (List Line)) → ℕ → Signed × Console → Option (List Line)
  unfolding asked with_lines
  turn rest n r = elim (is_zero r.0) [
    | true ↦ some []
    | false ↦ with_lines (asked n r.0) (rest r.0 r.1)
  ]

  -- The loop, for a number of rounds; `none` where it goes on after them.
  unfoldable pub screen_loop : ℕ → ℕ → Signed → Console → Option (List Line)
  unfolding extract_int turn
  screen_loop zero n choice cin = none
  screen_loop (suc rounds) n choice cin =
      turn (λ s c. screen_loop rounds (suc n) s c) n (extract_int choice cin)

  -- `main`: its status and lines. `choice` is not set before it is read.
  unfoldable pub screen : ℕ → Bool → Bool → Signed → Console → Option (Bool × List Line)
  unfolding screen_loop exited
  screen rounds log_fd fb_fd choice cin =
      if not log_fd
      then some (false, error_opening_log ∷ [])
      else if not fb_fd
      then some (false, error_opening_framebuffer ∷ [])
      else exited (screen_loop rounds 0 choice cin)
