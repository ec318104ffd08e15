-- ===== src/Automobile/Messages.antt =====
-- Assignment3/Automobile.cpp: the messages and their buffer.
use unx.Prelude.{ℕ, ◌+◌, ◌≤◌, ◌++◌, ◌≡◌, ◌↔◌, arith, length, length-append}
use unx.Prelude.Bytes.{codes, decimal}
use unx.Automobile.{Identity, described, full_message, empty_message, message_size}

-- The characters of the words in the name of a car.
unfoldable pub words : Identity → ℕ
words c = length c.colour + length (decimal c.year) + length c.make + length c.model

length-described : (c : Identity) → length (described c) ≡ 7 + words c
unfolding words
length-described c =
    let r3 = codes " " ++ c.model in
    let r2 = codes " " ++ (c.make ++ r3) in
    let r1 = codes " " ++ (decimal c.year ++ r2) in
    omega
      (arith, length-append c.colour r1, length-append (decimal c.year) r2, length-append c.make r3)

-- The message about a full tank fits into its buffer of 64 bytes just where the words of the name have at
-- most 16 characters together, and the one about an empty tank where they have at most 27.
pub messages-fit :
    (c : Identity)
    → ((length (full_message c) + 1 ≤ message_size) ↔ (words c ≤ 16))
      × ((length (empty_message c) + 1 ≤ message_size) ↔ (words c ≤ 27))
unfolding full_message empty_message
messages-fit c =
    let full = length-append (described c) (codes " is full of gas. Discarding the rest...\n") in
    let empty = length-append (described c) (codes " has no gas left in the tank\n") in
    let name = length-described c in
    (
      (λ h. omega (arith, full, name, h), λ h. omega (arith, full, name, h)),
      (λ h. omega (arith, empty, name, h), λ h. omega (arith, empty, name, h)),
    )
