-- ===== src/Menus.antt =====
-- Lab3/etherCtrl.cpp and Lab4/Lab4.cpp: two programs that read choices from std::cin and ask a device.
use unx.Prelude.{ℕ, zero, suc, Bool, true, false, ◌≡◌, ◌≢◌, refl}
use unx.Prelude.Console.{Signed, up, down}
pub mod Ethernet
pub mod Screen
pub mod Examples

-- `selection == 0`, which -0 gives too.
abbrev pub is_zero : Signed → Bool
is_zero (up zero) = true
is_zero (down zero) = true
is_zero _ = false

pub not_zero : (n : ℕ) → n ≢ 0 → is_zero (up n) ≡ false
not_zero zero h = absurd (h refl)
not_zero (suc n) h = refl
