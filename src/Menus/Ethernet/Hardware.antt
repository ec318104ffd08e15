-- ===== src/Menus/Ethernet/Hardware.antt =====
-- Lab3/etherCtrl.cpp: the text of a hardware address, read back.
use unx.Prelude.{
  ℕ, ◌+◌, ◌-◌, ◌*◌, ◌/◌, ◌%◌, ◌<◌, [], ◌∷◌, ◌≡◌, refl, ap, ◌∙◌, arith, All, ltb, if◌then◌else◌,
}
use unx.Prelude.Bytes.{Bytes}
use unx.Menus.Ethernet.{hex_digit, with_colons}

-- The number of a hexadecimal digit.
unfoldable pub digit_of : ℕ → ℕ
digit_of c = if ltb c 65 then c - b'0' else c - 55

-- The bytes of a text of pairs of digits with one character between each two.
unfoldable pub bytes_of : Bytes → Bytes
unfolding digit_of
bytes_of [] = []
bytes_of (h ∷ []) = []
bytes_of (h ∷ l ∷ []) = (16 * digit_of h + digit_of l) ∷ []
bytes_of (h ∷ l ∷ c ∷ s) = let rest = bytes_of s in (16 * digit_of h + digit_of l) ∷ rest

digit_of-hex_digit : (d : ℕ) → d < 16 → digit_of (hex_digit d) ≡ d
unfolding digit_of
digit_of-hex_digit d h = ground arith

byte_of-hex :
    (b : ℕ) → b < 256 → 16 * digit_of (hex_digit (b / 16)) + digit_of (hex_digit (b % 16)) ≡ b
byte_of-hex b h =
    rw
      (
        digit_of-hex_digit (b / 16) (omega (arith, h)),
        digit_of-hex_digit (b % 16) (omega (arith, h)),
      )
      (omega (arith, h))

-- The text that is printed for a hardware address of bytes, two digits each with colons between them, reads back as
-- that address.
pub bytes_of-with_colons : (bs : Bytes) → All (λ b. b < 256) bs → bytes_of (with_colons bs) ≡ bs
unfolding bytes_of with_colons
bytes_of-with_colons [] h = refl
bytes_of-with_colons (b ∷ []) h = ap (λ n. n ∷ []) (byte_of-hex b h.0)
bytes_of-with_colons (b ∷ c ∷ bs) h =
    ap (λ n. n ∷ bytes_of (with_colons (c ∷ bs))) (byte_of-hex b h.0)
    ∙ ap (λ s. b ∷ s) (bytes_of-with_colons (c ∷ bs) h.1)
