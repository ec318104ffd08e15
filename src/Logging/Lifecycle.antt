-- ===== src/Logging/Lifecycle.antt =====
-- Assignment3/Logger.cpp: InitializeLog and ExitLog, and the descriptor that they open and close.
use unx.Prelude.{
  ℕ, Bool, true, false, Option, none, some, List, [], ◌∷◌, ◌++◌, if◌then◌else◌, ◌≡◌, refl,
}

-- `client_fd`, where -1 is `none`, and `listen_flag` with the thread that was started.
pub record LogClient : Type 0 where
  pub client_fd : Option ℕ
  pub listen_flag : Bool
  pub joinable : Bool

pub data Act : Type 0 where
  opens closes : ℕ → Act
  starts joins : Act

-- What `socket`, `setsockopt`, `bind` and `inet_pton` give.
pub record Opening : Type 0 where
  pub socket : Option ℕ
  pub reuses : Bool
  pub binds : Bool
  pub address : Bool

unfoldable pub listen_at : ℕ → Opening → LogClient → LogClient × List Act
listen_at fd o l =
    if o.reuses
    then (if o.binds
        then (if o.address
            then (
              record l { client_fd = some fd; listen_flag = true; joinable = true },
              opens fd ∷ starts ∷ [],
            )
            else (record l { client_fd = none }, opens fd ∷ closes fd ∷ []))
        else (record l { client_fd = none }, opens fd ∷ closes fd ∷ []))
    else (record l { client_fd = some fd }, opens fd ∷ [])

unfoldable pub initialize_log : Opening → LogClient → LogClient × List Act
unfolding listen_at
initialize_log o l = elim o.socket [
  | none ↦ (record l { client_fd = none }, [])
  | some fd ↦ listen_at fd o l
]

unfoldable pub closing_of : Option ℕ → List Act
closing_of none = []
closing_of (some fd) = closes fd ∷ []

-- The flag is cleared, the thread joined, and the descriptor closed; client_fd keeps its value.
unfoldable pub exit_log : LogClient → LogClient × List Act
unfolding closing_of
exit_log l = (
  record l { listen_flag = false; joinable = false },
  (if l.joinable then joins ∷ [] else []) ++ closing_of l.client_fd,
)

-- The descriptors that were opened, and those that were closed, in their order.
pub opened : List Act → List ℕ
opened [] = []
opened (opens fd ∷ es) = fd ∷ opened es
opened (_ ∷ es) = opened es

pub closed : List Act → List ℕ
closed [] = []
closed (closes fd ∷ es) = fd ∷ closed es
closed (_ ∷ es) = closed es

listen_at-closed :
    (fd : ℕ) (reuses binds address : Bool) (l : LogClient)
    → l.joinable ≡ false
    → let o : Opening = record {
      socket = some fd;
      reuses = reuses;
      binds = binds;
      address = address;
    } in
      let r = listen_at fd o l in
      closed (r.1 ++ (exit_log r.0).1) ≡ opened (r.1 ++ (exit_log r.0).1)
unfolding listen_at exit_log closing_of opened closed
listen_at-closed fd true true true l h = refl
listen_at-closed fd true true false l h = rw h refl
listen_at-closed fd true false address l h = rw h refl
listen_at-closed fd false binds address l h = rw h refl

-- On each path, ExitLog after InitializeLog closes what InitializeLog opened and did not close, and nothing
-- else, where no thread was started before.
pub initialize_log-closed :
    (o : Opening) (l : LogClient)
    → l.joinable ≡ false
    → let r = initialize_log o l in
      closed (r.1 ++ (exit_log r.0).1) ≡ opened (r.1 ++ (exit_log r.0).1)
unfolding initialize_log opened closed exit_log closing_of
initialize_log-closed o l h =
    elim o.socket
      as (λ s.
        let r : LogClient × List Act = (elim s as (λ s. LogClient × List Act) [
          | none ↦ (record l { client_fd = none }, [])
          | some fd ↦ listen_at fd o l
        ]) in
        closed (r.1 ++ (exit_log r.0).1) ≡ opened (r.1 ++ (exit_log r.0).1)) [
          | none ↦ rw h refl
          | some fd ↦ listen_at-closed fd o.reuses o.binds o.address l h
        ]
