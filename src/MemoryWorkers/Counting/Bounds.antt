-- ===== src/MemoryWorkers/Counting/Bounds.antt =====
-- Assignment1/Part3/test_worker_main.c: the count, the handlers and the signals sent.
use unx.Prelude.{
  ℕ, zero, suc, ◌+◌, ◌≤◌, Bool, true, false, not, ◌&&◌, ◌||◌, List, [], ◌∷◌, ltb, if◌then◌else◌,
  ◌≡◌, refl, ap, arith, length,
}
use mathlib.Core.Path.{subst}
use unx.MemoryWorkers.{sigusr1, sigusr2}
use unx.MemoryWorkers.Worker.Sending.{as_count}
use unx.MemoryWorkers.Counting.{
  Pc, sigaction1, sigaction2, forking, testing, pausing, in_pause, waiting, in_waitpid, returned,
  Frame, entered, loaded, Parent, main_step, own_step, has_worker, after_handler, in_handler1,
  in_handler2, Event, sends, delivers, exits, runs, event, happen, sent,
}

-- What a handler has loaded is at most what one inside it has, and that at most the count.
abbrev pub Under : List Frame → ℕ → Type 0
Under [] c = Unit
Under (entered s ∷ fs) c = Under fs c
Under (loaded s n ∷ fs) c = (n ≤ c) × Under fs n

-- Past the loop two signals have been sent.
abbrev pub Past : Pc → ℕ → Type 0
Past waiting n = 2 ≤ n
Past in_waitpid n = 2 ≤ n
Past (returned zero) n = 2 ≤ n
Past _ n = Unit

-- The count, the handlers that run and the pending signals are together at most the signals sent.
pub record Counts (p : Parent) (n : ℕ) : Type 0 where
  pub total :
      p.dhsb_signals_received + length p.frames + as_count p.pending1 + as_count p.pending2 ≤ n
  pub under : Under p.frames p.dhsb_signals_received
  pub past : Past p.pc n

Under-more : (fs : List Frame) (m n : ℕ) → m ≤ n → Under fs m → Under fs n
Under-more [] m n h u = tt
Under-more (entered s ∷ fs) m n h u = Under-more fs m n h u
Under-more (loaded s k ∷ fs) m n h u = (omega (arith, h, u.0), u.1)

Past-more : (c : Pc) (m n : ℕ) → m ≤ n → Past c m → Past c n
Past-more waiting m n h p = omega (arith, h, p)
Past-more in_waitpid m n h p = omega (arith, h, p)
Past-more (returned zero) m n h p = omega (arith, h, p)
Past-more (returned (suc s)) m n h p = tt
Past-more sigaction1 m n h p = tt
Past-more sigaction2 m n h p = tt
Past-more forking m n h p = tt
Past-more testing m n h p = tt
Past-more pausing m n h p = tt
Past-more in_pause m n h p = tt

woken-Past : (fs : List Frame) (c : Pc) (n : ℕ) → Past c n → Past (after_handler fs c) n
woken-Past [] in_pause n p = tt
woken-Past [] in_waitpid n p = p
woken-Past [] sigaction1 n p = p
woken-Past [] sigaction2 n p = p
woken-Past [] forking n p = p
woken-Past [] testing n p = p
woken-Past [] pausing n p = p
woken-Past [] waiting n p = p
woken-Past [] (returned s) n p = p
woken-Past (f ∷ fs) c n p = p

test-Past :
    (b : Bool) (c d : Pc) (n : ℕ)
    → (b ≡ true → Past c n)
    → (b ≡ false → Past d n)
    → Past (if b then c else d) n
test-Past true c d n h k = h refl
test-Past false c d n h k = k refl

main_step-Past :
    (c : Pc) (ok : Bool) (p : Parent) (n : ℕ)
    → p.dhsb_signals_received ≤ n
    → Past c n
    → Past (main_step c ok p) n
unfolding main_step
main_step-Past sigaction1 ok p n h k = test-Past ok sigaction2 (returned 1) n (λ e. tt) (λ e. tt)
main_step-Past sigaction2 ok p n h k = test-Past ok forking (returned 1) n (λ e. tt) (λ e. tt)
main_step-Past forking ok p n h k = test-Past ok testing (returned 1) n (λ e. tt) (λ e. tt)
main_step-Past testing ok p n h k =
    test-Past (ltb p.dhsb_signals_received 2) pausing waiting n (λ e. tt)
      (λ e. ground (arith, h, e))
main_step-Past pausing ok p n h k = tt
main_step-Past in_pause ok p n h k = tt
main_step-Past waiting ok p n h k = k
main_step-Past in_waitpid ok p n h k =
    test-Past p.has_exited (returned 0) in_waitpid n (λ e. k) (λ e. k)
main_step-Past (returned s) ok p n h k = k

own_step-Counts :
    (fs : List Frame) (ok : Bool) (p : Parent) (n : ℕ)
    → p.frames ≡ fs
    → Counts p n
    → Counts (own_step fs ok p) n
unfolding own_step
own_step-Counts [] ok p n e c = record {
  total = c.total;
  under = c.under;
  past = main_step-Past p.pc ok p n (omega (arith, c.total)) c.past;
}
own_step-Counts (entered s ∷ fs) ok p n e c =
    let u : Under (entered s ∷ fs) p.dhsb_signals_received =
      subst (λ l. Under l p.dhsb_signals_received) e c.under in
    record { total = omega (arith, c.total, ap length e); under = (omega arith, u); past = c.past }
own_step-Counts (loaded s m ∷ fs) ok p n e c =
    let u : Under (loaded s m ∷ fs) p.dhsb_signals_received =
      subst (λ l. Under l p.dhsb_signals_received) e c.under in
    record {
      total = omega (arith, c.total, ap length e, u.0);
      under = Under-more fs m (m + 1) (omega arith) u.1;
      past = woken-Past fs p.pc n c.past;
    }

as_count-or : (a b : Bool) → as_count (a || b) ≤ as_count a + 1
as_count-or a b = ground arith

-- A delivery takes a pending signal, and adds a handler.
branch-Counts :
    (b : Bool) (p q : Parent) (n : ℕ)
    → (b ≡ true → Counts q n)
    → Counts p n
    → Counts (if b then q else p) n
branch-Counts true p q n h c = h refl
branch-Counts false p q n h c = c

Counts-more : (p : Parent) (m n : ℕ) → m ≤ n → Counts p m → Counts p n
Counts-more p m n h c = record {
  total = omega (arith, h, c.total);
  under = c.under;
  past = Past-more p.pc m n h c.past;
}

event-Counts :
    (e : Event) (p : Parent) (n : ℕ) → Counts p n → Counts (event e p) (n + length (sent (e ∷ [])))
unfolding event sent
event-Counts (sends sigusr1) p n c = record {
  total = omega (arith, c.total, as_count-or p.pending1 (has_worker p.pc));
  under = c.under;
  past = Past-more p.pc n (n + 1) (omega arith) c.past;
}
event-Counts (sends sigusr2) p n c = record {
  total = omega (arith, c.total, as_count-or p.pending2 (has_worker p.pc));
  under = c.under;
  past = Past-more p.pc n (n + 1) (omega arith) c.past;
}
event-Counts (delivers sigusr1) p n c =
    Counts-more (event (delivers sigusr1) p) n (n + 0) (omega arith) (
      branch-Counts (p.pending1 && not (in_handler1 p.frames)) p
        (record p { pending1 = false; frames = entered sigusr1 ∷ p.frames }) n
        (λ b. record { total = ground (arith, c.total, b); under = c.under; past = c.past }) c)
event-Counts (delivers sigusr2) p n c =
    Counts-more (event (delivers sigusr2) p) n (n + 0) (omega arith) (
      branch-Counts (p.pending2 && not (in_handler2 p.frames)) p
        (record p { pending2 = false; frames = entered sigusr2 ∷ p.frames }) n
        (λ b. record { total = ground (arith, c.total, b); under = c.under; past = c.past }) c)
event-Counts exits p n c =
    Counts-more (event exits p) n (n + 0) (omega arith)
      (record { total = c.total; under = c.under; past = c.past })
event-Counts (runs ok) p n c =
    Counts-more (event (runs ok) p) n (n + 0) (omega arith) (own_step-Counts p.frames ok p n refl c)

length-sent :
    (e : Event) (es : List Event)
    → length (sent (e ∷ es)) ≡ length (sent (e ∷ [])) + length (sent es)
unfolding sent
length-sent (sends s) es = omega arith
length-sent (delivers s) es = omega arith
length-sent exits es = omega arith
length-sent (runs ok) es = omega arith

pub happen-Counts :
    (es : List Event) (p : Parent) (n : ℕ)
    → Counts p n
    → Counts (happen es p) (n + length (sent es))
unfolding happen
happen-Counts [] p n c = Counts-more p n (n + length (sent [])) (omega arith) c
happen-Counts (e ∷ es) p n c =
    let m : ℕ = n + length (sent (e ∷ [])) in
    Counts-more (happen es (event e p)) (m + length (sent es)) (n + length (sent (e ∷ es)))
      (omega (arith, length-sent e es)) (happen-Counts es (event e p) m (event-Counts e p n c))
