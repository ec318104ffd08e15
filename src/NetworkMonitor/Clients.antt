-- ===== src/NetworkMonitor/Clients.antt =====
-- `map<int, string> client_fds` of Assignment2/networkMonitor.cpp: an association list with rising keys.
use unx.Prelude.{ℕ, ◌+◌, ◌≤◌, ◌<◌, ◌≡◌, refl, List, [], ◌∷◌, map, arith, ltb, ◌==◌, if◌then◌else◌}
use unx.Prelude.Bytes.{Bytes}

abbrev pub ClientMap : Type 0
ClientMap = List (ℕ × Bytes)

-- `count`
unfoldable pub count : ℕ → ClientMap → ℕ
count fd [] = 0
count fd ((k, v) ∷ m) = if k == fd then 1 else count fd m

-- `client_fds[fd] = name`
unfoldable pub assign : ℕ → Bytes → ClientMap → ClientMap
assign fd name [] = (fd, name) ∷ []
assign fd name ((k, v) ∷ m) =
    if k == fd
    then (fd, name) ∷ m
    else if ltb fd k
    then (fd, name) ∷ (k, v) ∷ m
    else (k, v) ∷ assign fd name m

-- `client_fds[fd]` as a value, for a key that is there; the empty string for one that is not
unfoldable pub name_of : ℕ → ClientMap → Bytes
name_of fd [] = []
name_of fd ((k, v) ∷ m) = if k == fd then v else name_of fd m

-- and what it leaves in the map: a missing key is inserted.
unfoldable pub touch : ℕ → ClientMap → ClientMap
unfolding count assign
touch fd m = if count fd m == 0 then assign fd [] m else m

unfoldable pub erase : ℕ → ClientMap → ClientMap
erase fd [] = []
erase fd ((k, v) ∷ m) = if k == fd then m else (k, v) ∷ erase fd m

abbrev pub keys : ClientMap → List ℕ
keys = map λ e. e.0

abbrev pub names : ClientMap → List Bytes
names = map λ e. e.1

-- Keys rise from `n` on.
abbrev pub Rising : ℕ → ClientMap → Type 0
Rising n [] = Unit {0}
Rising n ((k, v) ∷ m) = (n ≤ k) × Rising (k + 1) m

pub Rising-count : (fd n : ℕ) (m : ClientMap) → Rising n m → fd < n → count fd m ≡ 0
unfolding count
Rising-count fd n [] h lt = refl
Rising-count fd n ((k, v) ∷ m) h lt = ground (arith, Rising-count fd (k + 1) m h.1)

Rising-mono : (a b : ℕ) (m : ClientMap) → a ≤ b → Rising b m → Rising a m
Rising-mono a b [] le h = tt
Rising-mono a b ((k, v) ∷ m) le h = (omega arith, h.1)

pub assign-Rising :
    (fd n : ℕ) (name : Bytes) (m : ClientMap) → n ≤ fd → Rising n m → Rising n (assign fd name m)
unfolding assign
assign-Rising fd n name [] le h = (le, tt)
assign-Rising fd n name ((k, v) ∷ m) le h =
    ground (arith, assign-Rising fd (k + 1) name m, Rising-mono (fd + 1) (k + 1) m)

pub erase-Rising : (fd n : ℕ) (m : ClientMap) → Rising n m → Rising n (erase fd m)
unfolding erase
erase-Rising fd n [] h = tt
erase-Rising fd n ((k, v) ∷ m) h =
    ground (arith, erase-Rising fd (k + 1) m h.1, Rising-mono n (k + 1) m)

-- What the operations do to membership.
pub count-assign :
    (x fd : ℕ) (name : Bytes) (m : ClientMap)
    → count x (assign fd name m) ≡ (if fd == x then 1 else count x m)
unfolding count assign
count-assign x fd name [] = ground arith
count-assign x fd name ((k, v) ∷ m) = ground (arith, count-assign x fd name m)

pub count-erase :
    (x fd n : ℕ) (m : ClientMap)
    → Rising n m
    → count x (erase fd m) ≡ (if fd == x then 0 else count x m)
unfolding count erase
count-erase x fd n [] h = ground arith
count-erase x fd n ((k, v) ∷ m) h =
    ground (arith, count-erase x fd (k + 1) m h.1, Rising-count fd (k + 1) m h.1)

pub touch_here : (fd : ℕ) (m : ClientMap) → count fd m ≡ 1 → touch fd m ≡ m
unfolding touch
touch_here fd m h = ground arith
