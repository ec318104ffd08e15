-- ===== src/MessageQueues/Flow/Moves.antt =====
-- Lab8: the moves of a message, from the client that sends it to the one that prints it.
use unx.Prelude.{
  ℕ, Bool, true, false, Option, none, some, List, [], ◌∷◌, ◌++◌, ◌≡◌, ◌≢◌, ◌==◌, refl, sym, ap, ◌∙◌,
  arith, Bool-cases, ◌⊎◌, inl, inr,
}
use mathlib.Core.List.{append_assoc, append-nil}
use mathlib.Core.Option.{some-injective}
use unx.MessageQueues.Messages.{Message, MesgBuffer, Queue, Effect, print, post, msgrcv, after}
use unx.MessageQueues.Locking.{after-eq-some}
use unx.MessageQueues.Flow.{keep, select, arrives, waits, ahead, posted, printed}

pub select-append :
    (g : Message → Bool) (q : Queue) (m : Message)
    → select g (q ++ m ∷ []) ≡ select g q ++ keep (g m) m.msg_buf
unfolding select
select-append g [] m = append-nil _
select-append g (k ∷ q) m =
    ap (◌++◌ (keep (g k) k.msg_buf)) (select-append g q m)
    ∙ sym (append_assoc (keep (g k) k.msg_buf) _ _)

pub posted-append : (n : ℕ) (es fs : List Effect) → posted n (es ++ fs) ≡ posted n es ++ posted n fs
unfolding posted
posted-append n [] fs = refl
posted-append n (post b ∷ es) fs =
    ap (◌++◌ (keep (b.dest == n) b)) (posted-append n es fs)
    ∙ sym (append_assoc (keep (b.dest == n) b) _ _)
posted-append n (print k b ∷ es) fs = posted-append n es fs

pub printed-append :
    (n : ℕ) (es fs : List Effect) → printed n (es ++ fs) ≡ printed n es ++ printed n fs
unfolding printed
printed-append n [] fs = refl
printed-append n (post b ∷ es) fs = printed-append n es fs
printed-append n (print k b ∷ es) fs =
    ap (◌++◌ (keep (k == n) b)) (printed-append n es fs) ∙ sym (append_assoc (keep (k == n) b) _ _)

pub ahead-nil : (n : ℕ) → [] ≡ ahead n [] []
unfolding ahead select
ahead-nil n = refl

-- A step that posts `a` and prints `b` for client `n`, and takes what it holds from `h` to `h'`, keeps
-- the order of the messages.
abbrev pub Moves :
    ℕ
    → List MesgBuffer
    → List MesgBuffer
    → Option Queue
    → List MesgBuffer
    → List MesgBuffer
    → List MesgBuffer
    → List MesgBuffer
    → Option Queue
    → Type 0
Moves n h x o a b h' x' o' =
    (rest : List MesgBuffer)
    → ((q : Queue) → o ≡ some q → rest ≡ ahead n x q)
    → (rest' : List MesgBuffer) × ((h ++ rest) ++ a ≡ b ++ (h' ++ rest'))
      × ((q : Queue) → o' ≡ some q → rest' ≡ ahead n x' q)

pub Moves-quiet :
    (n : ℕ) {h h' x x' : List MesgBuffer} (o : Option Queue)
    → h ≡ h'
    → x ≡ x'
    → Moves n h x o [] [] h' x' o
Moves-quiet n o eh ex rest live =
    (rest, append-nil _ ∙ ap (λ l. l ++ rest) eh, λ q e. live q e ∙ ap (λ y. ahead n y q) ex)

pub Moves-removed :
    (n : ℕ) (h x x' : List MesgBuffer) (o : Option Queue) → Moves n h x o [] [] h x' none
Moves-removed n h x x' o rest live = (rest, append-nil _, λ q e. cc)

pub Moves-print :
    (n : ℕ) (m : MesgBuffer) (h x : List MesgBuffer) (o : Option Queue)
    → Moves n (m ∷ h) x o [] (m ∷ []) h x o
Moves-print n m h x o rest live = (rest, append-nil _, live)

keep-false {ℓ} : {A : Type ℓ} (b : Bool) (a : A) → b ≡ false → keep b a ≡ []
keep-false true a h = cc
keep-false false a h = refl

-- What `msgsnd` does to the messages ahead.
ahead-append :
    (n : ℕ) (x : List MesgBuffer) (q : Queue) (m : Message)
    → arrives n m ≡ false
    → ahead n x (q ++ m ∷ []) ≡ ahead n x q ++ keep (waits n m) m.msg_buf
unfolding ahead
ahead-append n x q m h =
    let none_here : keep (arrives n m) m.msg_buf ≡ [] = keep-false (arrives n m) m.msg_buf h in
    simp (select-append, none_here, append_assoc, append-nil)

pub Moves-send :
    (n : ℕ) (h x : List MesgBuffer) (q : Queue) (m : Message)
    → arrives n m ≡ false
    → Moves n h x (some q) (keep (waits n m) m.msg_buf) [] h x (some (q ++ m ∷ []))
Moves-send n h x q m old rest live = (
  rest ++ keep (waits n m) m.msg_buf,
  append_assoc h rest _,
  λ r e.
      ap (λ l. l ++ keep (waits n m) m.msg_buf) (live q refl)
      ∙ sym (ahead-append n x q m old)
      ∙ ap (ahead n x) (some-injective _ _ e),
)

-- The server puts back the message in its hand.
forward-ahead :
    (n : ℕ) (q : Queue) (m : Message)
    → waits n m ≡ false
    → ahead n (keep (arrives n m) m.msg_buf) q ≡ ahead n [] (q ++ m ∷ [])
unfolding ahead
forward-ahead n q m h =
    let none_here : keep (waits n m) m.msg_buf ≡ [] = keep-false (waits n m) m.msg_buf h in
    simp (select-append, none_here, append_assoc, append-nil)

pub Moves-forward :
    (n : ℕ) (h : List MesgBuffer) (q : Queue) (m : Message)
    → waits n m ≡ false
    → Moves n h (keep (arrives n m) m.msg_buf) (some q) [] [] h [] (some (q ++ m ∷ []))
Moves-forward n h q m no_wait rest live = (
  rest,
  append-nil _,
  λ r e. live q refl ∙ forward-ahead n q m no_wait ∙ ap (ahead n []) (some-injective _ _ e),
)

abbrev pub FirstOrLater : ℕ → Message → Queue → Message × Queue → Type 0
FirstOrLater t m q r =
    ((m.mtype ≡ t) × ((m, q) ≡ r))
    ⊎ ((m.mtype ≢ t) × ((s : Message × Queue) × (msgrcv t q ≡ some s) × (r ≡ (s.0, m ∷ s.1))))

msgrcv-cases :
    (t : ℕ) (m : Message) (q : Queue) (r : Message × Queue)
    → msgrcv t (m ∷ q) ≡ some r
    → FirstOrLater t m q r
unfolding msgrcv
msgrcv-cases t m q r e = elim (Bool-cases (m.mtype == t)) [
  | inl h ↦
      let is : some (m, q) ≡ some r = rw (h, msgrcv) at e in
      inl (ground arith, some-injective _ _ is)
  | inr h ↦
      let is : after (msgrcv t q) (λ s. (s.0, m ∷ s.1)) ≡ some r = rw (h, msgrcv) at e in
      inr (ground arith, after-eq-some (msgrcv t q) _ is)
]

-- A message with a smaller type comes out; those that a test for another type selects stay.
pub msgrcv-others :
    (g : Message → Bool) (t : ℕ) (q : Queue) (r : Message × Queue)
    → ((m : Message) → m.mtype ≡ t → g m ≡ false)
    → msgrcv t q ≡ some r
    → select g q ≡ select g r.1
unfolding msgrcv select
msgrcv-others g t [] r h e = cc
msgrcv-others g t (m ∷ q) r h e = elim (msgrcv-cases t m q r e) [
  | inl (same_type, is) ↦
      ap (λ l. l ++ select g q) (keep-false (g m) m.msg_buf (h m same_type))
      ∙ ap (λ p. select g p.1) is
  | inr (other, (s, later, is)) ↦
      ap (◌++◌ (keep (g m) m.msg_buf)) (msgrcv-others g t q s h later)
      ∙ ap (λ p. select g p.1) (sym is)
]

-- The first message that a test within one type selects is the one that comes out.
pub msgrcv-first :
    (g : Message → Bool) (t : ℕ) (q : Queue) (r : Message × Queue)
    → ((m : Message) → g m ≡ true → m.mtype ≡ t)
    → msgrcv t q ≡ some r
    → select g q ≡ keep (g r.0) r.0.msg_buf ++ select g r.1
unfolding msgrcv select
msgrcv-first g t [] r h e = cc
msgrcv-first g t (m ∷ q) r h e = elim (msgrcv-cases t m q r e) [
  | inl (same_type, is) ↦ ap (λ p. keep (g p.0) p.0.msg_buf ++ select g p.1) is
  | inr (other, (s, later, is)) ↦
      let skipped : keep (g m) m.msg_buf ≡ [] =
        keep-false (g m) m.msg_buf (ground (arith, h m, other)) in
      ap (λ l. l ++ select g q) skipped
      ∙ msgrcv-first g t q s h later
      ∙ ap (λ l. keep (g s.0) s.0.msg_buf ++ (l ++ select g s.1)) (sym skipped)
      ∙ ap (λ p. keep (g p.0) p.0.msg_buf ++ select g p.1) (sym is)
]

pub msgrcv-mtype : (t : ℕ) (q : Queue) (r : Message × Queue) → msgrcv t q ≡ some r → r.0.mtype ≡ t
unfolding msgrcv
msgrcv-mtype t [] r e = cc
msgrcv-mtype t (m ∷ q) r e = elim (msgrcv-cases t m q r e) [
  | inl (same_type, is) ↦ ap (λ p. p.0.mtype) (sym is) ∙ same_type
  | inr (other, (s, later, is)) ↦ ap (λ p. p.0.mtype) is ∙ msgrcv-mtype t q s later
]

pub Moves-receive :
    (n : ℕ) (h x : List MesgBuffer) (q : Queue) (r : Message × Queue)
    → n ≢ 4
    → msgrcv n q ≡ some r
    → Moves n h x (some q) [] [] (h ++ keep (arrives n r.0) r.0.msg_buf) x (some r.1)
unfolding ahead
Moves-receive n h x q r below e rest live =
    let first : select (arrives n) q ≡ keep (arrives n r.0) r.0.msg_buf ++ select (arrives n) r.1 =
      msgrcv-first (arrives n) n q r (λ m g. ground arith) e in
    let others : select (waits n) q ≡ select (waits n) r.1 =
      msgrcv-others (waits n) n q r (λ m g. ground arith) e in
    (
      select (arrives n) r.1 ++ (x ++ select (waits n) r.1),
      simp (live q refl, first, others, append_assoc, append-nil),
      λ s i. ap (λ y. select (arrives n) y ++ (x ++ select (waits n) y)) (some-injective _ _ i),
    )

-- A message for another client comes out.
pub Moves-other :
    (n k : ℕ) (h x : List MesgBuffer) (q : Queue) (r : Message × Queue)
    → n ≢ k
    → k ≢ 4
    → msgrcv k q ≡ some r
    → Moves n h x (some q) [] [] h x (some r.1)
unfolding ahead
Moves-other n k h x q r differ below e rest live = (
  rest,
  append-nil _,
  λ s i.
      live q refl
      ∙ ap (λ l. l ++ (x ++ select (waits n) q))
          (msgrcv-others (arrives n) k q r (λ m g. ground arith) e)
      ∙ ap (λ l. select (arrives n) r.1 ++ (x ++ l))
          (msgrcv-others (waits n) k q r (λ m g. ground arith) e)
      ∙ ap (ahead n x) (some-injective _ _ i),
)

-- The server takes a message into its hand.
pub Moves-fetch :
    (n : ℕ) (h : List MesgBuffer) (q : Queue) (r : Message × Queue)
    → n ≢ 4
    → msgrcv 4 q ≡ some r
    → Moves n h [] (some q) [] [] h (keep (waits n r.0) r.0.msg_buf) (some r.1)
unfolding ahead
Moves-fetch n h q r below e rest live =
    let first : select (waits n) q ≡ keep (waits n r.0) r.0.msg_buf ++ select (waits n) r.1 =
      msgrcv-first (waits n) 4 q r (λ m g. ground arith) e in
    let others : select (arrives n) q ≡ select (arrives n) r.1 =
      msgrcv-others (arrives n) 4 q r (λ m g. ground arith) e in
    (
      rest,
      append-nil _,
      λ s i.
          let front : ahead n [] q ≡ ahead n (keep (waits n r.0) r.0.msg_buf) r.1 =
            simp (ahead, first, others) in
          live q refl
          ∙ front
          ∙ ap (ahead n (keep (waits n r.0) r.0.msg_buf)) (some-injective _ _ i),
    )
