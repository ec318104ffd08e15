-- ===== src/NetworkMonitor/Names.antt =====
-- Who is connected: at most one connection stands for each interface of Assignment2's monitor.
use unx.Prelude.{
  ℕ, ◌+◌, ◌≤◌, ◌<◌, ◌≡◌, ◌⊎◌, refl, Bool, true, false, none, some, List, [], ◌∷◌, arith, inl, inr,
  Option-cases,
}
use unx.Prelude.Bytes.{Bytes, bytes_eq, bytes_eq_iff}
use unx.NetworkMonitor.Keeping.{Kept, happen_keeps, main_loop_keeps}
use unx.NetworkMonitor.Clients.{ClientMap, assign, erase, Rising, assign-Rising, erase-Rising}
use unx.NetworkMonitor.{
  Monitor, Outcome, Event, without, name_in_use, first_free, connect, happen, main_loop,
  no_free_name, close,
}

-- How often a name stands in a list, and in the map.
abbrev pub one_if : Bool → ℕ
one_if true = 1
one_if false = 0

unfoldable pub listed : Bytes → List Bytes → ℕ
listed x [] = 0
listed x (y ∷ ys) = one_if (bytes_eq y x) + listed x ys

unfoldable pub uses : Bytes → ClientMap → ℕ
uses x [] = 0
uses x ((k, v) ∷ m) = one_if (bytes_eq v x) + uses x m

uses-assign :
    (x name : Bytes) (fd : ℕ) (m : ClientMap)
    → uses x (assign fd name m) ≤ one_if (bytes_eq name x) + uses x m
unfolding uses assign
uses-assign x name fd [] = omega arith
uses-assign x name fd ((k, v) ∷ m) = ground (arith, uses-assign x name fd m)

uses-erase : (x : Bytes) (fd : ℕ) (m : ClientMap) → uses x (erase fd m) ≤ uses x m
unfolding uses erase
uses-erase x fd [] = omega arith
uses-erase x fd ((k, v) ∷ m) = ground (arith, uses-erase x fd m)

uses-name_in_use : (x : Bytes) (m : ClientMap) → name_in_use x m ≡ false → uses x m ≡ 0
unfolding uses name_in_use
uses-name_in_use x [] h = refl
uses-name_in_use x ((k, v) ∷ m) h = ground (arith, uses-name_in_use x m)

name_in_use-uses : (x : Bytes) (m : ClientMap) → name_in_use x m ≡ true → 0 < uses x m
unfolding uses name_in_use
name_in_use-uses x [] h = cc
name_in_use-uses x ((k, v) ∷ m) h = ground (arith, name_in_use-uses x m)

first_free-eq-some :
    (ns : List Bytes) (m : ClientMap) (x : Bytes)
    → first_free ns m ≡ some x
    → (name_in_use x m ≡ false) × (0 < listed x ns)
unfolding first_free listed
first_free-eq-some [] m x h = cc
first_free-eq-some (n ∷ ns) m x h = ground (arith, first_free-eq-some ns m x, bytes_eq_iff n x)

-- The keys rise, no name is used twice, and each name is one that the user entered.
pub record IsValid (m : Monitor) : Type 0 where
  pub rising : Rising 0 m.client_fds
  pub single : (x : Bytes) → uses x m.client_fds ≤ 1
  pub known : (x : Bytes) → 0 < uses x m.client_fds → 0 < listed x m.interface_names

without-IsValid : (fd : ℕ) (m : Monitor) → IsValid m → IsValid (without fd m)
without-IsValid fd m v = record {
  rising = erase-Rising fd 0 m.client_fds v.rising;
  single = λ x. omega (arith, uses-erase x fd m.client_fds, v.single x);
  known = λ x h. v.known x (omega (arith, uses-erase x fd m.client_fds));
}

assign-IsValid :
    (fd : ℕ) (name : Bytes) (m : Monitor)
    → first_free m.interface_names m.client_fds ≡ some name
    → IsValid m
    → IsValid (record m { client_fds = assign fd name m.client_fds })
assign-IsValid fd name m free v =
    let (unused, inlist) = first_free-eq-some m.interface_names m.client_fds name free in
    record {
      rising = assign-Rising fd 0 name m.client_fds (omega arith) v.rising;
      single = λ x. ground (
        arith,
        uses-assign x name fd m.client_fds,
        v.single x,
        bytes_eq_iff name x,
        uses-name_in_use name m.client_fds unused,
      );
      known = λ x h.
          ground
            (arith, uses-assign x name fd m.client_fds, v.known x, bytes_eq_iff name x, inlist);
    }

pub connect-IsValid : (fd : ℕ) (m : Monitor) → IsValid m → IsValid (connect m fd).0
unfolding connect
connect-IsValid fd m v = elim (Option-cases (first_free m.interface_names m.client_fds)) [
  | inl full ↦ rw (full, connect) v
  | inr (name, free) ↦ rw (free, connect) (assign-IsValid fd name m free v)
]

first_free-eq-none :
    (ns : List Bytes) (m : ClientMap)
    → first_free ns m ≡ none
    → (x : Bytes) → 0 < listed x ns
    → 0 < uses x m
unfolding first_free listed
first_free-eq-none [] m h x l = absurd (omega arith)
first_free-eq-none (n ∷ ns) m h x l = ground (
  arith,
  λ (e : first_free ns m ≡ none). first_free-eq-none ns m e x,
  bytes_eq_iff n x,
  name_in_use-uses n m,
)

-- A new connection is either given an interface of the list that no connection stands for, or, when
-- every interface of the list has its connection, it is closed and the map stays as it was.
pub connect_cases :
    (m : Monitor) (fd : ℕ)
    → ((x : Bytes) × (uses x m.client_fds ≡ 0)
        × (0 < listed x m.interface_names)
        × (connect m fd ≡ (record m { client_fds = assign fd x m.client_fds }, [])))
      ⊎ (((x : Bytes) → 0 < listed x m.interface_names → 0 < uses x m.client_fds)
          × (connect m fd ≡ (m, no_free_name ∷ close fd ∷ [])))
unfolding connect
connect_cases m fd = elim (Option-cases (first_free m.interface_names m.client_fds)) [
  | inl full ↦ inr (first_free-eq-none m.interface_names m.client_fds full, rw (full, connect))
  | inr (x, free) ↦
      let (unused, inlist) = first_free-eq-some m.interface_names m.client_fds x free in
      inl (x, uses-name_in_use x m.client_fds unused, inlist, rw (free, connect))
]

pub IsValid-Kept : Kept IsValid
IsValid-Kept = record {
  drops = without-IsValid;
  takes = connect-IsValid;
  stops = λ m v. record { rising = v.rising; single = v.single; known = v.known };
  closes = λ m v. record { rising = v.rising; single = v.single; known = v.known };
}

same_names-Kept : (ns : List Bytes) → Kept (λ m. m.interface_names ≡ ns)
unfolding connect
same_names-Kept ns = record {
  drops = λ fd m h. h;
  takes = λ fd m h. ground arith;
  stops = λ m h. h;
  closes = λ m h. h;
}

-- Whatever happens in the loop (a signal, or a round with any results of its system calls), the map
-- of clients stays sorted, no interface has two connections, each connection stands for an interface
-- that the user entered, and the list of interfaces stays as it was.
pub happen-IsValid :
    (m : Monitor) (e : Event)
    → IsValid m
    → IsValid (happen m e).0 × ((happen m e).0.interface_names ≡ m.interface_names)
happen-IsValid m e v = (
  happen_keeps IsValid IsValid-Kept m e v,
  happen_keeps (λ q. q.interface_names ≡ m.interface_names) (same_names-Kept m.interface_names) m e
      refl,
)

pub main_loop-IsValid :
    (es : List Event) (m : Monitor) (r : Outcome)
    → main_loop es m ≡ some r
    → IsValid m
    → IsValid r.0
main_loop-IsValid = main_loop_keeps IsValid IsValid-Kept
