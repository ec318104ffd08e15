-- ===== src/LocalSession/Setup.antt =====
-- Lab6/server.cpp and client.cpp: the whole `main` functions by their calls, with the calls that fail. A write to a peer
-- that has closed its end raises SIGPIPE, which ends the program at once.
use unx.Prelude.{
  ℕ, suc, Bool, true, false, Option, none, some, List, [], ◌∷◌, ◌==◌, ◌≡◌, ◌≢◌, refl, arith,
  if◌then◌else◌,
}
use unx.Prelude.Bytes.{Bytes, codes, bytes_eq}
use unx.LocalSession.{pid_response}

pub data Call : Type 0 where
  opens closes : ℕ → Call
  unlink binds listens connects reads : Call
  writes : Bytes → Call

-- How a program ends, or that it is still in its loop.
pub data Ending : Type 0 where
  status : ℕ → Ending
  killed looping : Ending

-- What the calls give: a descriptor from socket and from accept, whether bind and listen succeed, and whether the peer
-- is there at each of the three writes. The results of the others are not looked at.
pub record Given : Type 0 where
  pub server_fd : Option ℕ
  pub bind : Bool
  pub listen : Bool
  pub client_fd : Option ℕ
  pub at_pid : Bool
  pub at_sleep : Bool
  pub at_quit : Bool

pub before : Call → List Call × Ending → List Call × Ending
before c r = (c ∷ r.0, r.1)

-- A write, and what comes behind it.
unfoldable pub written : Bytes → Bool → List Call × Ending → List Call × Ending
unfolding before
written text false r = (writes text ∷ [], killed)
written text true r = before (writes text) r

unfoldable pub shut_down : ℕ → ℕ → List Call × Ending
shut_down server_fd client_fd = (closes client_fd ∷ closes server_fd ∷ unlink ∷ [], status 0)

-- Behind accept.
unfoldable pub accepted : ℕ → Given → Option ℕ → List Call × Ending
unfolding before written shut_down
accepted server_fd g none = (closes server_fd ∷ [], status 1)
accepted server_fd g (some client_fd) = before (opens client_fd) (
    written (codes "Pid") g.at_pid (
      before reads (
        written (codes "Sleep") g.at_sleep
          (before reads (written (codes "Quit") g.at_quit (shut_down server_fd client_fd))))))

unfoldable pub listened : ℕ → Given → Bool → List Call × Ending
unfolding accepted before
listened server_fd g false = (closes server_fd ∷ [], status 1)
listened server_fd g true = before listens (accepted server_fd g g.client_fd)

unfoldable pub bound : ℕ → Given → Bool → List Call × Ending
unfolding listened before
bound server_fd g false = (closes server_fd ∷ [], status 1)
bound server_fd g true = before binds (listened server_fd g g.listen)

unfoldable pub created : Given → Option ℕ → List Call × Ending
unfolding bound before
created g none = ([], status 1)
created g (some server_fd) = before (opens server_fd) (before unlink (bound server_fd g g.bind))

-- `main` of the server: its calls and how it ends.
unfoldable pub server_main : Given → List Call × Ending
unfolding created
server_main g = created g g.server_fd

-- The loop of the client, with what each read gives and whether the server is there at the write that follows.
unfoldable pub commands : ℕ → ℕ → List (Bytes × Bool) → List Call × Ending
unfolding bytes_eq before written
commands pid client_fd [] = ([], looping)
commands pid client_fd ((command, there) ∷ later) =
    let rest = commands pid client_fd later in
    before reads (
      if bytes_eq command (codes "Pid")
      then written (pid_response pid) there rest
      else if bytes_eq command (codes "Sleep")
      then written (codes "Done") there rest
      else if bytes_eq command (codes "Quit")
      then (closes client_fd ∷ [], status 0)
      else rest)

unfoldable pub connected_to : ℕ → ℕ → List (Bytes × Bool) → Bool → List Call × Ending
unfolding commands before
connected_to pid client_fd later false = (closes client_fd ∷ [], status 1)
connected_to pid client_fd later true = before connects (commands pid client_fd later)

-- `main` of the client.
unfoldable pub client_main : ℕ → Option ℕ → Bool → List (Bytes × Bool) → List Call × Ending
unfolding connected_to before
client_main pid none connect later = ([], status 1)
client_main pid (some client_fd) connect later =
    before (opens client_fd) (connected_to pid client_fd later connect)

unfoldable pub opened : ℕ → List Call → ℕ
opened fd [] = 0
opened fd (opens x ∷ cs) = let rest = opened fd cs in if x == fd then suc rest else rest
opened fd (_ ∷ cs) = opened fd cs

unfoldable pub closed : ℕ → List Call → ℕ
closed fd [] = 0
closed fd (closes x ∷ cs) = let rest = closed fd cs in if x == fd then suc rest else rest
closed fd (_ ∷ cs) = closed fd cs

-- Each descriptor is closed as often as it was opened.
abbrev IsTidy : List Call × Ending → Type 0
IsTidy r = (fd : ℕ) → opened fd r.0 ≡ closed fd r.0

-- A server that SIGPIPE does not end closes what it opened, whichever of its calls fail.
server_main-IsTidy : (g : Given) → (server_main g).1 ≢ killed → IsTidy (server_main g)
unfolding server_main opened closed
server_main-IsTidy g = cases g.server_fd g.bind g.listen g.client_fd g.at_pid g.at_sleep g.at_quit
  where
    all_given : Option ℕ → Bool → Bool → Option ℕ → Bool → Bool → Bool → Given
    all_given a b l c p s q = record {
      server_fd = a;
      bind = b;
      listen = l;
      client_fd = c;
      at_pid = p;
      at_sleep = s;
      at_quit = q;
    }

    cases :
        (a : Option ℕ) (b l : Bool) (c : Option ℕ) (p s q : Bool)
        → (server_main (all_given a b l c p s q)).1 ≢ killed
        → IsTidy (server_main (all_given a b l c p s q))
    cases none b l c p s q n fd = refl
    cases (some a) false l c p s q n fd = refl
    cases (some a) true false c p s q n fd = refl
    cases (some a) true true none p s q n fd = refl
    cases (some a) true true (some c) false s q n fd = absurd (n refl)
    cases (some a) true true (some c) true false q n fd = absurd (n refl)
    cases (some a) true true (some c) true true false n fd = absurd (n refl)
    cases (some a) true true (some c) true true true n fd = ground arith
