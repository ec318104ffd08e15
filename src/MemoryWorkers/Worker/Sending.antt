-- ===== src/MemoryWorkers/Worker/Sending.antt =====
-- Assignment1, parts 2 and 3: which signals a worker sends.
use unx.Prelude.{
  ℕ, ◌+◌, Bool, true, false, not, ◌&&◌, ◌||◌, Option, none, some, List, [], ◌∷◌, ◌++◌,
  if◌then◌else◌, ◌≡◌, refl, sym, ap, ◌∙◌, arith, ◌⊎◌, inl, inr,
}
use mathlib.Core.List.{append_assoc}
use mathlib.Core.Path.{subst}
use unx.Prelude.Bytes.{Bytes}
use unx.ProcStatus.{Number, plus, scan_rss, exceeds}
use unx.MemoryWorkers.{
  Effect, kill, close, exit, sigusr2, alerts, completions, closings, statuses, statuses-append,
  alerts-append, completions-append, closings-append,
}
use unx.MemoryWorkers.Worker.{
  limit, Watch, look, Chunk, accumulate, Ended, reads_all, fails, preceded, read_loop, Setup,
  at_start, first_look, ending, dhsb_worker_process,
}

abbrev pub as_count : Bool → ℕ
as_count true = 1
as_count false = 0

-- Whether one of the looks of the loop finds more than the limit, where `m` was found before.
pub peaks : List Chunk → Number → Bool
peaks [] m = false
peaks (c ∷ cs) m = elim c.status [
  | none ↦ false
  | some lines ↦ exceeds (scan_rss m lines) limit || peaks cs (scan_rss m lines)
]

-- A piece of the worker alerts `n` times, and neither completes nor closes.
pub record Alerts (es : List Effect) (n : ℕ) : Type 0 where
  pub number : alerts es ≡ n
  pub incomplete : completions es ≡ 0
  pub open_still : closings es ≡ 0
  pub runs : statuses es ≡ []

look-Alerts :
    (lines : List Bytes) (w : Watch)
    → Alerts (look lines w).1 (as_count (exceeds (scan_rss w.mem_usage lines) limit && not w.sent))
      × ((look lines w).0.mem_usage ≡ scan_rss w.mem_usage lines)
      × ((look lines w).0.sent ≡ (w.sent || exceeds (scan_rss w.mem_usage lines) limit))
unfolding look alerts completions closings statuses
look-Alerts lines w = (
  record {
    number = ground arith;
    incomplete = ground arith;
    open_still = ground arith;
    runs = ground arith;
  },
  ground arith,
  ground arith,
)

accumulate-same :
    (n : ℕ) (w : Watch)
    → ((accumulate n w).mem_usage ≡ w.mem_usage) × ((accumulate n w).sent ≡ w.sent)
unfolding accumulate
accumulate-same n w = ground arith

effects_of : Ended → List Effect
effects_of (reads_all w es) = es
effects_of (fails es) = es

pub both_counts :
    (e p s : Bool)
    → as_count (e && not s) + as_count (p && not (s || e)) ≡ as_count ((e || p) && not s)
both_counts e p s = ground arith

effects_of-preceded :
    (es : List Effect) (r : Ended) → effects_of (preceded es r) ≡ es ++ effects_of r
unfolding effects_of preceded
effects_of-preceded es (reads_all w fs) = refl
effects_of-preceded es (fails fs) = refl

pub Alerts-append :
    (es fs : List Effect) (m n : ℕ) → Alerts es m → Alerts fs n → Alerts (es ++ fs) (m + n)
Alerts-append es fs m n a b = record {
  number = omega (arith, alerts-append es fs, a.number, b.number);
  incomplete = omega (arith, completions-append es fs, a.incomplete, b.incomplete);
  open_still = omega (arith, closings-append es fs, a.open_still, b.open_still);
  runs = statuses-append es fs ∙ ap (λ l. l ++ statuses fs) a.runs ∙ b.runs;
}

pub nothing-Alerts : Alerts [] 0
unfolding alerts completions closings statuses
nothing-Alerts = record { number = refl; incomplete = refl; open_still = refl; runs = refl }

-- A look, and what comes after it.
then-Alerts :
    (lines : List Bytes) (w : Watch) (p : Bool) (es : List Effect)
    → Alerts es (as_count (p && not (look lines w).0.sent))
    → Alerts
        ((look lines w).1 ++ es)
        (as_count ((exceeds (scan_rss w.mem_usage lines) limit || p) && not w.sent))
then-Alerts lines w p es later =
    let (here, _, sent) = look-Alerts lines w in
    let e : Bool = exceeds (scan_rss w.mem_usage lines) limit in
    let later' : Alerts es (as_count (p && not (w.sent || e))) =
      subst (λ s. Alerts es (as_count (p && not s))) sent later in
    subst (Alerts ((look lines w).1 ++ es)) (both_counts e p w.sent)
      (Alerts-append _ _ _ _ here later')

read_loop-Alerts :
    (cs : List Chunk) (w : Watch)
    → Alerts (effects_of (read_loop cs w)) (as_count (peaks cs w.mem_usage && not w.sent))
unfolding read_loop peaks effects_of
read_loop-Alerts [] w = nothing-Alerts
read_loop-Alerts (c ∷ cs) w = go c.status (read_loop-Alerts cs)
  where
    go :
        (o : Option (List Bytes))
        → ((v : Watch)
            → Alerts (effects_of (read_loop cs v)) (as_count (peaks cs v.mem_usage && not v.sent)))
        → Alerts
            (effects_of (elim o as (λ x. Ended) [
              | none ↦ fails []
              | some lines ↦
                  let l = look lines (accumulate c.bytes_read w) in preceded l.1 (read_loop cs l.0)
            ]))
            (as_count (
              elim o as (λ x. Bool) [
                | none ↦ false
                | some lines ↦
                    exceeds (scan_rss w.mem_usage lines) limit
                    || peaks cs (scan_rss w.mem_usage lines)
              ]
              && not w.sent))
    go none later = nothing-Alerts
    go (some lines) later =
        let v = accumulate c.bytes_read w in
        let l = look lines v in
        let rest = effects_of (read_loop cs l.0) in
        let next : Alerts rest (as_count (peaks cs (scan_rss v.mem_usage lines) && not l.0.sent)) =
          subst (λ m. Alerts rest (as_count (peaks cs m && not l.0.sent))) (look-Alerts lines v).1
            (later l.0) in
        let whole = then-Alerts lines v (peaks cs (scan_rss v.mem_usage lines)) rest next in
        let e : Number → Bool =
          λ m. exceeds (scan_rss m lines) limit || peaks cs (scan_rss m lines) in
        let (mem, sent) = accumulate-same c.bytes_read w in
        subst (λ es. Alerts es (as_count (e w.mem_usage && not w.sent)))
          (sym (effects_of-preceded l.1 (read_loop cs l.0)))
          (subst (λ s. Alerts (l.1 ++ rest) (as_count (e w.mem_usage && not s))) sent
            (subst (λ m. Alerts (l.1 ++ rest) (as_count (e m && not v.sent))) mem whole))

-- The descriptors that the worker opens.
unfoldable pub opened : Option ℕ → ℕ
opened none = 0
opened (some fd) = 1

-- Whether a look that the worker makes finds more than the limit.
pub alarm : Setup → List Chunk → Bool
unfolding peaks
alarm s cs = elim s.file [
  | none ↦ false
  | some fd ↦ if not s.first_alloc then false else elim s.first_status [
    | none ↦ if s.second_alloc then peaks cs (plus 0) else false
    | some lines ↦
        let m = scan_rss (plus 0) lines in
        exceeds m limit || (if s.second_alloc then peaks cs m else false)
  ]
]

-- How a worker ends: with status 0 and a completion, or with status 1 and none.
unfoldable pub Ends : List Effect → Type 0
Ends es =
    ((statuses es ≡ 0 ∷ []) × (completions es ≡ 1))
    ⊎ ((statuses es ≡ 1 ∷ []) × (completions es ≡ 0))

pub record Sends (es : List Effect) (n closed : ℕ) : Type 0 where
  pub number : alerts es ≡ n
  pub closes : closings es ≡ closed
  pub ends : Ends es

pub failing-Sends :
    (fd n : ℕ) (es : List Effect) → Alerts es n → Sends (es ++ (close fd ∷ exit 1 ∷ [])) n 1
unfolding alerts completions closings statuses Ends
failing-Sends fd n es a = record {
  number = omega (arith, alerts-append es (close fd ∷ exit 1 ∷ []), a.number);
  closes = omega (arith, closings-append es (close fd ∷ exit 1 ∷ []), a.open_still);
  ends = inr (
    statuses-append es (close fd ∷ exit 1 ∷ []) ∙ ap (λ l. l ++ 1 ∷ []) a.runs,
    omega (arith, completions-append es (close fd ∷ exit 1 ∷ []), a.incomplete),
  );
}

pub completing-Sends :
    (fd n : ℕ) (es : List Effect)
    → Alerts es n
    → Sends (es ++ (close fd ∷ kill sigusr2 ∷ exit 0 ∷ [])) n 1
unfolding alerts completions closings statuses Ends
completing-Sends fd n es a =
    let tail = close fd ∷ kill sigusr2 ∷ exit 0 ∷ [] in
    record {
      number = omega (arith, alerts-append es tail, a.number);
      closes = omega (arith, closings-append es tail, a.open_still);
      ends = inl (
        statuses-append es tail ∙ ap (λ l. l ++ 0 ∷ []) a.runs,
        omega (arith, completions-append es tail, a.incomplete),
      );
    }

ending-Sends :
    (fd n : ℕ) (es : List Effect) (r : Ended)
    → Alerts (es ++ effects_of r) n
    → Sends (es ++ ending fd r) n 1
unfolding ending effects_of
ending-Sends fd n es (reads_all w fs) a =
    subst (λ l. Sends l n 1) (append_assoc es fs _) (completing-Sends fd n (es ++ fs) a)
ending-Sends fd n es (fails fs) a =
    subst (λ l. Sends l n 1) (append_assoc es fs _) (failing-Sends fd n (es ++ fs) a)

pub and-unsent : (b : Bool) → (b && not false) ≡ b
and-unsent b = ground arith

or-false : (b : Bool) → (b || false) ≡ b
or-false b = ground arith

loop-Alerts :
    (cs : List Chunk) (w : Watch) (m : Number)
    → w.mem_usage ≡ m
    → Alerts (effects_of (read_loop cs w)) (as_count (peaks cs m && not w.sent))
loop-Alerts cs w m e =
    subst (λ x. Alerts (effects_of (read_loop cs w)) (as_count (peaks cs x && not w.sent))) e
      (read_loop-Alerts cs w)

worker-Sends :
    (file : Option ℕ) (first second : Bool) (status : Option (List Bytes)) (cs : List Chunk)
    → let s : Setup = record {
      file = file;
      first_alloc = first;
      first_status = status;
      second_alloc = second;
    } in
      Sends (dhsb_worker_process s cs) (as_count (alarm s cs)) (opened file)
unfolding dhsb_worker_process first_look alarm opened alerts closings statuses completions Ends
worker-Sends none first second status cs = record {
  number = refl;
  closes = refl;
  ends = inr (refl, refl);
}
worker-Sends (some fd) false second status cs = failing-Sends fd 0 [] nothing-Alerts
worker-Sends (some fd) true false none cs = failing-Sends fd 0 [] nothing-Alerts
worker-Sends (some fd) true true none cs =
    subst (λ b. Sends (ending fd (read_loop cs at_start)) (as_count b) 1)
      (and-unsent (peaks cs (plus 0)))
      (ending-Sends fd _ [] (read_loop cs at_start) (read_loop-Alerts cs at_start))
worker-Sends (some fd) true false (some lines) cs =
    let e : Bool = exceeds (scan_rss (plus 0) lines) limit in
    subst (λ b. Sends ((look lines at_start).1 ++ (close fd ∷ exit 1 ∷ [])) (as_count b) 1)
      (and-unsent e ∙ sym (or-false e))
      (failing-Sends fd _ (look lines at_start).1 (look-Alerts lines at_start).0)
worker-Sends (some fd) true true (some lines) cs =
    let l = look lines at_start in
    let m = scan_rss (plus 0) lines in
    let looked = look-Alerts lines at_start in
    let b : Bool = exceeds m limit || peaks cs m in
    subst (λ b. Sends (l.1 ++ ending fd (read_loop cs l.0)) (as_count b) 1) (and-unsent b)
      (ending-Sends fd _ l.1 (read_loop cs l.0)
        (then-Alerts lines at_start (peaks cs m) _ (loop-Alerts cs l.0 m looked.1)))

-- A worker of part 2 or 3 alerts its parent once if one of its looks finds more than 50000 kB, and never
-- otherwise; it closes its file once if it opened it; it exits with 0 and one completion, or with 1
-- and none.
pub dhsb_worker_process-Sends :
    (s : Setup) (cs : List Chunk)
    → Sends (dhsb_worker_process s cs) (as_count (alarm s cs)) (opened s.file)
dhsb_worker_process-Sends s cs = worker-Sends s.file s.first_alloc s.second_alloc s.first_status cs
