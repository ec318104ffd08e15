-- ===== src/Menus/Examples.antt =====
-- Lab3/etherCtrl.cpp and Lab4/Lab4.cpp: the theorems at concrete scripts.
use unx.Prelude.{ℕ, true, some, List, [], ◌∷◌, ◌≡◌, refl, arith, All}
use unx.Prelude.Bytes.{codes}
use unx.Prelude.Console.{up}
use unx.Menus.Ethernet.{
  Request, Reply, siocgifhwaddr, siocgifbrdaddr, answers, refuses, ether_ctrl, with_colons,
}
use unx.Menus.Ethernet.Scripts.{Choice, IsChoice, typed, answers_of, ether_ctrl-typed}

abbrev mac : List ℕ
mac = 0 ∷ 26 ∷ 43 ∷ 60 ∷ 77 ∷ 94 ∷ []

-- An interface that has no broadcast address.
abbrev eth0 : ℕ → Request → Reply
eth0 n siocgifhwaddr = answers 1 mac
eth0 n siocgifbrdaddr = refuses (codes "no address")
eth0 n _ = answers 2 (0 ∷ 0 ∷ 127 ∷ 0 ∷ 0 ∷ 1 ∷ [])

abbrev choices : List Choice
choices = record { selection = 1; key = b'q' } ∷ record { selection = 4; key = b'q' } ∷ []

choices-IsChoice : All IsChoice choices
choices-IsChoice = (
  record { going = λ e. omega (arith, e); fits = omega arith; visible = refl },
  (record { going = λ e. omega (arith, e); fits = omega arith; visible = refl }, tt),
)

ether_ctrl-typed_example :
    ether_ctrl
      (λ s. s)
      eth0
      3
      (codes "eth0")
      true
      (up 9)
      (record { chars = 10 ∷ typed choices; good = true })
    ≡ some (true, answers_of (λ s. s) eth0 0 choices)
ether_ctrl-typed_example =
    ether_ctrl-typed (λ s. s) eth0 choices 3 (codes "eth0") (up 9) choices-IsChoice (omega arith)
      (omega arith)

mac_text : with_colons mac ≡ codes "00:1A:2B:3C:4D:5E"
unfolding with_colons
mac_text = refl
