-- ===== src/MemoryWorkers/Counting.antt =====
-- Assignment1/Part3/test_worker_main.c: a parent that counts the signals of its worker. A signal can come between any
-- two steps, between the test of the count and pause and inside the handler of the other signal too. What the program
-- prints is not in the model.
use unx.Prelude.{
  ℕ, zero, suc, ◌+◌, Bool, true, false, not, ◌&&◌, ◌||◌, List, [], ◌∷◌, ltb, if◌then◌else◌,
}
use unx.MemoryWorkers.{Signal, sigusr1, sigusr2}
pub mod Bounds
pub mod Needs
pub mod Asleep
pub mod Examples

-- Where `main` is. At `pausing` and `waiting` it is about to make the call, and in the next one it is in it.
pub data Pc : Type 0 where
  sigaction1 sigaction2 forking testing pausing in_pause waiting in_waitpid : Pc
  returned : ℕ → Pc

-- A handler that runs: before it loads the count for `++`, or with what it has loaded.
pub data Frame : Type 0 where
  entered : Signal → Frame
  loaded : Signal → ℕ → Frame

-- The handlers that run stand with the innermost first.
pub record Parent : Type 0 where
  pub pc : Pc
  pub dhsb_signals_received : ℕ
  pub frames : List Frame
  pub pending1 : Bool
  pub pending2 : Bool
  pub has_exited : Bool  -- the worker

abbrev pub handles1 : Frame → Bool
handles1 (entered sigusr1) = true
handles1 (loaded sigusr1 n) = true
handles1 _ = false

-- Whether a handler of SIGUSR1 runs, or one of SIGUSR2; its signal is blocked then.
pub in_handler1 : List Frame → Bool
in_handler1 [] = false
in_handler1 (f ∷ fs) = handles1 f || in_handler1 fs

pub in_handler2 : List Frame → Bool
in_handler2 [] = false
in_handler2 (f ∷ fs) = not (handles1 f) || in_handler2 fs

-- Where `main` is when the outermost handler has returned: pause ends, and waitpid is interrupted.
abbrev pub woken : Pc → Pc
woken in_pause = testing
woken in_waitpid = returned 0
woken c = c

abbrev pub after_handler : List Frame → Pc → Pc
after_handler [] c = woken c
after_handler (f ∷ fs) c = c

-- A step of `main`; whether the call that it makes succeeds is an argument.
pub main_step : Pc → Bool → Parent → Pc
main_step sigaction1 ok p = if ok then sigaction2 else returned 1
main_step sigaction2 ok p = if ok then forking else returned 1
main_step forking ok p = if ok then testing else returned 1
main_step testing ok p = if ltb p.dhsb_signals_received 2 then pausing else waiting
main_step pausing ok p = in_pause
main_step in_pause ok p = in_pause
main_step waiting ok p = in_waitpid
main_step in_waitpid ok p = if p.has_exited then returned 0 else in_waitpid
main_step (returned status) ok p = returned status

-- A step of the parent: of the innermost handler, or of `main`.
pub own_step : List Frame → Bool → Parent → Parent
unfolding main_step
own_step [] ok p = record p { pc = main_step p.pc ok p }
own_step (entered s ∷ fs) ok p = record p { frames = loaded s p.dhsb_signals_received ∷ fs }
own_step (loaded s n ∷ fs) ok p = record p {
  dhsb_signals_received = n + 1;
  frames = fs;
  pc = after_handler fs p.pc;
}

-- Whether there is a worker.
abbrev pub has_worker : Pc → Bool
has_worker sigaction1 = false
has_worker sigaction2 = false
has_worker forking = false
has_worker _ = true

pub data Event : Type 0 where
  sends delivers : Signal → Event
  exits : Event
  runs : Bool → Event

-- A signal that is sent again before it is delivered is not counted twice.
pub event : Event → Parent → Parent
unfolding own_step in_handler1 in_handler2
event (sends sigusr1) p = record p { pending1 = p.pending1 || has_worker p.pc }
event (sends sigusr2) p = record p { pending2 = p.pending2 || has_worker p.pc }
event (delivers sigusr1) p =
    if p.pending1 && not (in_handler1 p.frames)
    then record p { pending1 = false; frames = entered sigusr1 ∷ p.frames }
    else p
event (delivers sigusr2) p =
    if p.pending2 && not (in_handler2 p.frames)
    then record p { pending2 = false; frames = entered sigusr2 ∷ p.frames }
    else p
event exits p = record p { has_exited = p.has_exited || has_worker p.pc }
event (runs ok) p = own_step p.frames ok p

pub happen : List Event → Parent → Parent
unfolding event
happen [] p = p
happen (e ∷ es) p = happen es (event e p)

-- The signals that are sent.
pub sent : List Event → List Signal
sent [] = []
sent (sends s ∷ es) = s ∷ sent es
sent (_ ∷ es) = sent es

abbrev pub begun : Parent
begun = record {
  pc = sigaction1;
  dhsb_signals_received = 0;
  frames = [];
  pending1 = false;
  pending2 = false;
  has_exited = false;
}
