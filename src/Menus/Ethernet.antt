-- ===== src/Menus/Ethernet.antt =====
-- Lab3/etherCtrl.cpp: what an interface answers to four requests. `ioctl` and `inet_ntoa` are parameters.
use unx.Prelude.{
  ℕ, zero, suc, ◌+◌, ◌/◌, ◌%◌, Bool, true, false, not, Option, none, some, List, [], ◌∷◌, ◌++◌,
  ◌==◌, ltb, if◌then◌else◌, length, take,
}
use unx.Prelude.Bytes.{Bytes, codes}
use unx.Prelude.Console.{Console, Signed, up, down, extract_int, extract_char}
use unx.ProcStatus.{drop}
use unx.Menus.{is_zero}
pub mod Scripts
pub mod Hardware

abbrev pub name_size : ℕ
name_size = 16

-- Cases 1 to 4 of the switch.
pub data Request : Type 0 where
  siocgifhwaddr siocgifaddr siocgifnetmask siocgifbrdaddr : Request

-- The text of an error, or the family and the data of the address in `ifr`.
pub data Reply : Type 0 where
  refuses : Bytes → Reply
  answers : ℕ → Bytes → Reply

abbrev pub arphrd_ether : ℕ
arphrd_ether = 1

-- The hexadecimal digit of a number below 16, and `%02X` of a byte.
abbrev pub hex_digit : ℕ → ℕ
hex_digit d = if ltb d 10 then b'0' + d else 55 + d

abbrev pub hex : ℕ → Bytes
hex b = hex_digit (b / 16) ∷ hex_digit (b % 16) ∷ []

unfoldable pub with_colons : Bytes → Bytes
with_colons [] = []
with_colons (b ∷ []) = hex b
with_colons (b ∷ c ∷ bs) = let rest = with_colons (c ∷ bs) in hex b ++ b':' ∷ rest

unfoldable pub mac_line : Bytes → Bytes
unfolding with_colons
mac_line sa_data = codes "MAC Address: " ++ (with_colons (take 6 sa_data) ++ codes "\n")

pub data Output : Type 0 where
  error not_ethernet mac_address ip_address netmask broadcast_address : Bytes → Output

unfoldable pub request_of : Signed → Option Request
request_of (up n) =
    if n == 1
    then some siocgifhwaddr
    else if n == 2
    then some siocgifaddr
    else if n == 3
    then some siocgifnetmask
    else if n == 4
    then some siocgifbrdaddr
    else none
request_of (down n) = none

unfoldable pub before_rest : List Output → Option (List Output) → Option (List Output)
before_rest outs none = none
before_rest outs (some rest) = some (outs ++ rest)

module _ (inet_ntoa : Bytes → Bytes) (ioctl : ℕ → Request → Reply) where
  -- The address in a sockaddr_in, behind the port.
  unfoldable pub sin_addr : Bytes → Bytes
  unfolding drop
  sin_addr sa_data = inet_ntoa (take 4 (drop 2 sa_data))

  -- A case of the switch.
  unfoldable pub shown : Request → Reply → Output
  unfolding mac_line sin_addr
  shown r (refuses text) = error text
  shown siocgifhwaddr (answers family sa_data) =
      if family == arphrd_ether then mac_address (mac_line sa_data) else not_ethernet []
  shown siocgifaddr (answers family sa_data) = ip_address (sin_addr sa_data)
  shown siocgifnetmask (answers family sa_data) = netmask (sin_addr sa_data)
  shown siocgifbrdaddr (answers family sa_data) = broadcast_address (sin_addr sa_data)

  -- The switch, at the round with number `n`.
  unfoldable pub switch : ℕ → Option Request → List Output
  unfolding shown
  switch n none = []
  switch n (some r) = shown r (ioctl n r) ∷ []

  -- A round behind its `cin >> selection`, with what is left of the loop.
  unfoldable pub round :
      (Signed → Console → Option (List Output)) → ℕ → Signed × Console → Option (List Output)
  unfolding extract_char request_of switch before_rest
  round rest n r =
      before_rest (switch n (request_of r.0))
        (elim (is_zero r.0) [ true ↦ some [] | false ↦ rest r.0 (extract_char r.1) ])

  -- The loop, for a number of rounds; `none` where it goes on after them.
  unfoldable pub menu : ℕ → ℕ → Signed → Console → Option (List Output)
  unfolding extract_int round
  menu zero n selection cin = none
  menu (suc rounds) n selection cin =
      round (λ s c. menu rounds (suc n) s c) n (extract_int selection cin)

  -- `main`: its status and output. `selection` is not set before it is read.
  unfoldable pub ether_ctrl : ℕ → Bytes → Bool → Signed → Console → Option (Bool × List Output)
  unfolding menu
  ether_ctrl rounds if_name socket selection cin =
      if not (ltb (length if_name) name_size)
      then some (false, [])
      else if not socket
      then some (false, [])
      else elim (menu rounds 0 selection cin) [ none ↦ none | some outs ↦ some (true, outs) ]
