-- ===== src/Menus/Ethernet/Scripts.antt =====
-- Lab3/etherCtrl.cpp: what the menu does with a script, and at the end of its input.
use unx.Prelude.{
  ℕ, zero, suc, ◌≤◌, ◌<◌, true, false, Option, none, some, List, [], ◌∷◌, ◌++◌, ◌≡◌, ◌≢◌, refl, ap,
  ◌∙◌, arith, All, length, ltb,
}
use unx.Prelude.Bytes.{Bytes, decimal, is_space}
use unx.Prelude.Console.{
  Console, Signed, up, int_limit, extract_char, skip_space, drop_one, extract_int-decimal,
  extract_int-newline, extract_int-bad, extract_char-bad,
}
use unx.Menus.{is_zero, not_zero}
use unx.Menus.Ethernet.{
  Request, Reply, Output, request_of, switch, round, before_rest, menu, ether_ctrl, name_size,
}

-- A selection and the key behind it.
pub record Choice : Type 0 where
  pub selection : ℕ
  pub key : ℕ

-- A selection that is not 0 and fits an int, and a key that is no white space.
pub record IsChoice (c : Choice) : Type 0 where
  pub going : c.selection ≢ 0
  pub fits : c.selection ≤ int_limit
  pub visible : is_space c.key ≡ false

-- The lines that a user types, after the newline of the name, with a 0 at their end.
unfoldable pub typed : List Choice → Bytes
typed [] = decimal 0 ++ 10 ∷ []
typed (c ∷ cs) = let rest = typed cs in decimal c.selection ++ 10 ∷ c.key ∷ 10 ∷ rest

key-taken :
    (k : ℕ) (s : Bytes)
    → is_space k ≡ false
    → extract_char (record { chars = 10 ∷ k ∷ 10 ∷ s; good = true })
      ≡ record { chars = 10 ∷ s; good = true }
unfolding extract_char skip_space drop_one
key-taken k s h = rw h refl

lt→ltb : (a b : ℕ) → a < b → ltb a b ≡ true
lt→ltb a b h = ground arith

module _ (inet_ntoa : Bytes → Bytes) (ioctl : ℕ → Request → Reply) where
  -- The answers to the selections, each at its round.
  unfoldable pub answers_of : ℕ → List Choice → List Output
  answers_of n [] = []
  answers_of n (c ∷ cs) =
      let rest = answers_of (suc n) cs in
      switch inet_ntoa ioctl n (request_of (up c.selection)) ++ rest

  -- A round that reads 0, and one that reads another number.
  round-zero :
      (rest : Signed → Console → Option (List Output)) (n : ℕ) (c : Console)
      → round inet_ntoa ioctl rest n (up 0, c) ≡ some []
  unfolding round before_rest switch request_of
  round-zero rest n c = refl

  round-going :
      (rest : Signed → Console → Option (List Output)) (n k : ℕ) (c : Console) (outs : List Output)
      → k ≢ 0
      → rest (up k) (extract_char c) ≡ some outs
      → round inet_ntoa ioctl rest n (up k, c)
        ≡ some (switch inet_ntoa ioctl n (request_of (up k)) ++ outs)
  unfolding round before_rest
  round-going rest n k c outs h e = rw (not_zero k h, e) refl

  round-none :
      (rest : Signed → Console → Option (List Output)) (n : ℕ) (s : Signed) (c : Console)
      → is_zero s ≡ false
      → rest s (extract_char c) ≡ none
      → round inet_ntoa ioctl rest n (s, c) ≡ none
  unfolding round before_rest
  round-none rest n s c h e = rw (h, e) refl

  pub menu-typed :
      (cs : List Choice) (rounds n : ℕ) (old : Signed)
      → All IsChoice cs
      → length cs < rounds
      → menu inet_ntoa ioctl rounds n old (record { chars = 10 ∷ typed cs; good = true })
        ≡ some (answers_of n cs)
  unfolding menu answers_of typed
  menu-typed cs zero n old h l = absurd (omega (arith, l))
  menu-typed [] (suc rounds) n old h l =
      ap (round inet_ntoa ioctl (λ s c. menu inet_ntoa ioctl rounds (suc n) s c) n) (
        extract_int-newline old (decimal 0 ++ 10 ∷ []) ∙ extract_int-decimal old 0 [] (omega arith))
      ∙ round-zero (λ s c. menu inet_ntoa ioctl rounds (suc n) s c) n
          (record { chars = 10 ∷ []; good = true })
  menu-typed (c ∷ cs) (suc rounds) n old h l =
      let k = c.selection in
      let rest : Bytes = c.key ∷ 10 ∷ typed cs in
      let later = menu-typed cs rounds (suc n) (up k) h.1 (omega (arith, l)) in
      ap (round inet_ntoa ioctl (λ s c. menu inet_ntoa ioctl rounds (suc n) s c) n)
        (extract_int-newline old (decimal k ++ 10 ∷ rest) ∙ extract_int-decimal old k rest h.0.fits)
      ∙ round-going (λ s c. menu inet_ntoa ioctl rounds (suc n) s c) n k
          (record { chars = 10 ∷ rest; good = true }) (answers_of (suc n) cs) h.0.going
          (ap (menu inet_ntoa ioctl rounds (suc n) (up k)) (key-taken c.key (typed cs) h.0.visible)
            ∙ later)

  -- A user who types a name of an interface that fits, then choices and at last 0, gets the answer to each choice
  -- that is a request, at its round, and the program ends with 0 in as many rounds as lines with numbers.
  pub ether_ctrl-typed :
      (cs : List Choice) (rounds : ℕ) (if_name : Bytes) (old : Signed)
      → All IsChoice cs
      → length cs < rounds
      → length if_name < name_size
      → ether_ctrl inet_ntoa ioctl rounds if_name true old
          (record { chars = 10 ∷ typed cs; good = true })
        ≡ some (true, answers_of 0 cs)
  unfolding ether_ctrl
  ether_ctrl-typed cs rounds if_name old h l short =
      rw (menu-typed cs rounds 0 old h l, lt→ltb (length if_name) name_size short) refl

  -- At the end of the input a selection that is not 0 stays, and the loop goes on for ever.
  pub menu-endless :
      (rounds n : ℕ) (selection : Signed) (cin : Console)
      → cin.good ≡ false
      → is_zero selection ≡ false
      → menu inet_ntoa ioctl rounds n selection cin ≡ none
  unfolding menu round before_rest
  menu-endless zero n selection cin g z = refl
  menu-endless (suc rounds) n selection cin g z =
      let next : Signed → Console → Option (List Output) =
        λ s c. menu inet_ntoa ioctl rounds (suc n) s c in
      let later = menu-endless rounds (suc n) selection cin g z in
      ap (round inet_ntoa ioctl next n) (extract_int-bad selection cin g)
      ∙ round-none next n selection cin z (ap (next selection) (extract_char-bad cin g) ∙ later)
