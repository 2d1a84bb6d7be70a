-- ===== src/Queue/Conserves.antt =====
-- No task is lost or run twice, and no more workers run than there are places.
use pkgsite.Prelude.{
  ℕ, ◌+◌, ◌≤◌, Bool, true, false, List, [], ◌∷◌, ◌++◌, ◌≡◌, refl, ap, length, arith, if◌then◌else◌,
}
use pkgsite.Paths.{Modver}
use pkgsite.Queue.{
  Phase, receiving, holding, draining, finished, stopped, panicked, Queue, new_in_memory, Step,
  schedule_fetch, close, cancel, receive, start, stop, process, end_range, acquire, give_up, finish,
  Steps, here, next,
}

-- How many tasks of a list a test picks; agreement on every test is equality of the lists up to
-- order.
abbrev pub count : (Modver → Bool) → List Modver → ℕ
count p [] = 0
count p (m ∷ ms) = (if p m then 1 else 0) + count p ms

count-append :
    (p : Modver → Bool) (xs ys : List Modver) → count p (xs ++ ys) ≡ count p xs + count p ys
count-append p [] ys = omega arith
count-append p (x ∷ xs) ys = omega (arith, count-append p xs ys)

length-append : (xs ys : List Modver) → length (xs ++ ys) ≡ length xs + length ys
length-append [] ys = omega arith
length-append (x ∷ xs) ys = omega (arith, length-append xs ys)

-- The task that the loop holds, or held when it stopped.
abbrev pub held : Phase → List Modver
held (holding m) = m ∷ []
held (stopped m) = m ∷ []
held _ = []

-- The places that the loop has taken for good.
abbrev pub places : ℕ → Phase → ℕ
places workers (draining n) = n
places workers (panicked n) = n
places workers finished = workers
places workers _ = 0

-- The loop is past the channel only when the channel is closed and empty.
abbrev pub IsPast : Phase → List Modver → Bool → Type 0
IsPast (draining n) ms closed = (ms ≡ []) × (closed ≡ true)
IsPast (panicked n) ms closed = (ms ≡ []) × (closed ≡ true)
IsPast finished ms closed = (ms ≡ []) × (closed ≡ true)
IsPast _ ms closed = Unit

pub record IsSound (workers : ℕ) (q : Queue) : Type 0 where
  pub conserved :
      (p : Modver → Bool)
      → count p q.scheduled
        ≡ count p q.processed + (count p q.running + (count p (held q.phase) + count p q.channel))
  pub exact : q.taken ≡ length q.running + places workers q.phase
  pub bounded : q.taken ≤ workers
  pub past : IsPast q.phase q.channel q.closed

new_in_memory-IsSound : (workers : ℕ) → IsSound workers new_in_memory
new_in_memory-IsSound workers = record {
  conserved = λ p. refl;
  exact = refl;
  bounded = omega arith;
  past = tt;
}

IsPast-open :
    (f : Phase) (ms ns : List Modver) (closed : Bool)
    → closed ≡ false
    → IsPast f ms closed
    → IsPast f ns closed
IsPast-open receiving ms ns closed h i = tt
IsPast-open (holding m) ms ns closed h i = tt
IsPast-open (draining n) ms ns closed h (e, i) = cc
IsPast-open finished ms ns closed h (e, i) = cc
IsPast-open (stopped m) ms ns closed h i = tt
IsPast-open (panicked n) ms ns closed h (e, i) = cc

IsPast-close :
    (f : Phase) (ms : List Modver) (closed : Bool) → IsPast f ms closed → IsPast f ms true
IsPast-close receiving ms closed i = tt
IsPast-close (holding m) ms closed i = tt
IsPast-close (draining n) ms closed (e, i) = (e, refl)
IsPast-close finished ms closed (e, i) = (e, refl)
IsPast-close (stopped m) ms closed i = tt
IsPast-close (panicked n) ms closed (e, i) = (e, refl)

count-middle :
    (p : Modver → Bool) (xs ys : List Modver) (m : Modver)
    → count p (xs ++ m ∷ ys) ≡ (if p m then 1 else 0) + count p (xs ++ ys)
count-middle p xs ys m = omega (arith, count-append p xs (m ∷ ys), count-append p xs ys)

length-middle : (xs ys : List Modver) (m : Modver) → length (xs ++ m ∷ ys) ≡ length (xs ++ ys) + 1
length-middle xs ys m = omega (arith, length-append xs (m ∷ ys), length-append xs ys)

step-IsSound :
    (workers : ℕ) (q r : Queue) → Step workers q r → IsSound workers q → IsSound workers r
step-IsSound workers q r (schedule_fetch _ m open_yet room) s = record {
  conserved = λ p. omega (arith, s.conserved p, count-append p q.channel (m ∷ []));
  exact = s.exact;
  bounded = s.bounded;
  past = IsPast-open q.phase q.channel (q.channel ++ m ∷ []) q.closed open_yet s.past;
}
step-IsSound workers q r (close _ open_yet) s = record {
  conserved = s.conserved;
  exact = s.exact;
  bounded = s.bounded;
  past = IsPast-close q.phase q.channel q.closed s.past;
}
step-IsSound workers q r (cancel _) s = record {
  conserved = s.conserved;
  exact = s.exact;
  bounded = s.bounded;
  past = s.past;
}
step-IsSound workers q r (receive _ m rest phase channel) s = record {
  conserved = λ p. (let before = rw (phase, channel) at (s.conserved p) in omega (arith, before));
  exact = rw phase at s.exact;
  bounded = s.bounded;
  past = tt;
}
step-IsSound workers q r (start _ m phase free) s = record {
  conserved = λ p. (let before = rw phase at (s.conserved p) in omega (arith, before));
  exact = (let before = rw phase at s.exact in omega (arith, before));
  bounded = omega (arith, free);
  past = tt;
}
step-IsSound workers q r (stop _ m phase c) s = record {
  conserved = λ p. rw phase at (s.conserved p);
  exact = rw phase at s.exact;
  bounded = s.bounded;
  past = tt;
}
step-IsSound workers q r (process _ m before after running) s = record {
  conserved =
      λ p. omega (arith, s.conserved p, ap (count p) running, count-middle p before after m);
  exact = omega (arith, s.exact, ap length running, length-middle before after m);
  bounded = omega (arith, s.bounded);
  past = s.past;
}
step-IsSound workers q r (end_range _ phase channel c) s = record {
  conserved = λ p. rw phase at (s.conserved p);
  exact = rw phase at s.exact;
  bounded = s.bounded;
  past = (channel, c);
}
step-IsSound workers q r (acquire _ n phase more free) s = record {
  conserved = λ p. rw phase at (s.conserved p);
  exact = (let before = rw phase at s.exact in omega (arith, before));
  bounded = omega (arith, free);
  past = rw phase at s.past;
}
step-IsSound workers q r (give_up _ n phase more c) s = record {
  conserved = λ p. rw phase at (s.conserved p);
  exact = rw phase at s.exact;
  bounded = s.bounded;
  past = rw phase at s.past;
}
step-IsSound workers q r (finish _ phase) s = record {
  conserved = λ p. rw phase at (s.conserved p);
  exact = rw phase at s.exact;
  bounded = s.bounded;
  past = rw phase at s.past;
}

pub steps-IsSound :
    (workers : ℕ) (q r : Queue) → Steps workers q r → IsSound workers q → IsSound workers r
steps-IsSound workers q r here s = s
steps-IsSound workers q r (next {r = t} more step) s =
    step-IsSound workers t r step (steps-IsSound workers q t more s)

-- However the callers, the loop and the workers interleave: every scheduled task is in the channel,
-- with the loop, with a worker or processed, and in one of them alone; as many places are taken as
-- workers run and the loop took for good, and no more than there are; and the loop is past the
-- channel only when that is closed and empty.
pub reach-IsSound : (workers : ℕ) (q : Queue) → Steps workers new_in_memory q → IsSound workers q
reach-IsSound workers q steps =
    steps-IsSound workers new_in_memory q steps (new_in_memory-IsSound workers)

nothing_left : (ms : List Modver) (n : ℕ) → length ms + n ≤ n → ms ≡ []
nothing_left [] n h = refl
nothing_left (m ∷ ms) n h = absurd (omega arith)

-- When `done` is closed, for which `WaitForTesting` waits, exactly the scheduled tasks were
-- processed, each as often as it was scheduled, and none is running.
pub finished_lem :
    (workers : ℕ) (q : Queue) (p : Modver → Bool)
    → Steps workers new_in_memory q
    → q.phase ≡ finished
    → (count p q.processed ≡ count p q.scheduled) × (q.running ≡ [])
finished_lem workers q p steps phase =
    let s = reach-IsSound workers q steps in
    let exact = rw phase at s.exact in
    let past = rw phase at s.past in
    let idle = nothing_left q.running workers (omega (arith, exact, s.bounded)) in
    let conserved = rw phase at (s.conserved p) in
    (omega (arith, conserved, ap (count p) idle, ap (count p) past.0), idle)
