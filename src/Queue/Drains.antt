-- ===== src/Queue/Drains.antt =====
-- A closed queue can always be finished.
use pkgsite.Prelude.{
  ℕ, zero, suc, ◌+◌, ◌-◌, ◌<◌, Bool, true, false, List, [], ◌∷◌, ◌≡◌, refl, ap, ◌∙◌, arith,
}
use pkgsite.Paths.{Modver}
use pkgsite.Queue.{
  Phase, receiving, holding, draining, finished, stopped, panicked, Queue, new_in_memory, Step,
  receive, start, process, end_range, acquire, finish, Steps, here, next,
}
use pkgsite.Queue.Conserves.{IsSound, reach-IsSound, steps-IsSound}

join_steps :
    {workers : ℕ} {q r s : Queue} → Steps workers q r → Steps workers r s → Steps workers q s
join_steps f here = f
join_steps f (next more step) = next (join_steps f more) step

abbrev one : {workers : ℕ} {q r : Queue} → Step workers q r → Steps workers q r
one step = next here step

-- The workers end while nothing else changes.
record Idle (workers : ℕ) (q : Queue) : Type 0 where
  after : Queue
  steps : Steps workers q after
  running : after.running ≡ []
  phase : after.phase ≡ q.phase
  channel : after.channel ≡ q.channel
  closed : after.closed ≡ q.closed

idle : (workers : ℕ) (ms : List Modver) (q : Queue) → q.running ≡ ms → Idle workers q
idle workers [] q e = record {
  after = q;
  steps = here;
  running = e;
  phase = refl;
  channel = refl;
  closed = refl;
}
idle workers (m ∷ ms) q e =
    let step = process q m [] ms e in
    let rest =
      idle workers ms (record q { taken = q.taken - 1; running = ms; processed = m ∷ q.processed })
        refl in
    record {
      after = rest.after;
      steps = join_steps (one step) rest.steps;
      running = rest.running;
      phase = rest.phase;
      channel = rest.channel;
      closed = rest.closed;
    }

abbrev Finishes : ℕ → Queue → Type 0
Finishes workers q = (r : Queue) × Steps workers q r × (r.phase ≡ finished)

by_step : (workers : ℕ) (q r : Queue) → Steps workers q r → Finishes workers r → Finishes workers q
by_step workers q r steps (s, more, e) = (s, join_steps steps more, e)

-- The loop takes the places that are left.
drain :
    (workers k n : ℕ) (q : Queue)
    → n + k ≡ workers
    → q.phase ≡ draining n
    → q.taken ≡ n
    → Finishes workers q
drain workers zero n q sum phase taken =
    let all : n ≡ workers = omega (arith, sum) in
    (_, one (finish q (phase ∙ ap draining all)), refl)
drain workers (suc k) n q sum phase taken =
    let more : n < workers = omega (arith, sum) in
    let free : q.taken < workers = omega (arith, sum, taken) in
    let q' : Queue = record q { phase = draining (n + 1); taken = q.taken + 1 } in
    by_step workers q q' (one (acquire q n phase more free))
      (drain workers k (n + 1) q' (omega (arith, sum)) refl (omega (arith, taken)))

-- The loop hands out what is in the channel, a task at a time.
receive_all :
    (workers : ℕ) (ms : List Modver) (q : Queue)
    → 0 < workers
    → q.channel ≡ ms
    → q.phase ≡ receiving
    → q.closed ≡ true
    → q.running ≡ []
    → q.taken ≡ 0
    → Finishes workers q
receive_all workers [] q some_worker channel phase closed running taken =
    by_step workers q _ (one (end_range q phase channel closed))
      (drain workers workers 0 (record q { phase = draining 0 }) (omega arith) refl taken)
receive_all workers (m ∷ ms) q some_worker channel phase closed running taken =
    let q1 : Queue = record q { channel = ms; phase = holding m } in
    let q2 : Queue = record q1 {
      phase = receiving;
      taken = q.taken + 1;
      running = m ∷ q.running;
    } in
    let q3 : Queue = record q2 {
      taken = q.taken + 1 - 1;
      running = q.running;
      processed = m ∷ q.processed;
    } in
    by_step workers q q3
      (next
        (next (one (receive q m ms phase channel))
          (start q1 m refl (omega (arith, taken, some_worker))))
        (process q2 m [] q.running refl))
      (receive_all workers ms q3 some_worker refl refl closed running (omega (arith, taken)))

-- The loop has neither stopped nor panicked, as it may when the context is done.
abbrev pub is_live : Phase → Bool
is_live (stopped m) = false
is_live (panicked n) = false
is_live _ = true

from_phase :
    (workers : ℕ) (f : Phase) (q : Queue)
    → 0 < workers
    → IsSound workers q
    → q.closed ≡ true
    → q.running ≡ []
    → q.phase ≡ f
    → is_live f ≡ true
    → Finishes workers q
from_phase workers receiving q some_worker s closed running phase live =
    let exact = rw (phase, running) at s.exact in
    receive_all workers q.channel q some_worker refl phase closed running (omega (arith, exact))
from_phase workers (holding m) q some_worker s closed running phase live =
    let exact = rw (phase, running) at s.exact in
    let q1 : Queue = record q { phase = receiving; taken = q.taken + 1; running = m ∷ q.running } in
    let q2 : Queue = record q1 {
      taken = q.taken + 1 - 1;
      running = q.running;
      processed = m ∷ q.processed;
    } in
    by_step workers q q2
      (next (one (start q m phase (omega (arith, exact, some_worker))))
        (process q1 m [] q.running refl))
      (receive_all workers q.channel q2 some_worker refl refl closed running (omega (arith, exact)))
from_phase workers (draining n) q some_worker s closed running phase live =
    let exact = rw (phase, running) at s.exact in
    drain workers (workers - n) n q (omega (arith, exact, s.bounded)) phase (omega (arith, exact))
from_phase workers finished q some_worker s closed running phase live = (q, here, phase)
from_phase workers (stopped m) q some_worker s closed running phase live = cc
from_phase workers (panicked n) q some_worker s closed running phase live = cc

-- There is no deadlock: from every state that the queue comes to, once its channel is closed, with
-- at least one worker, and while the loop has not ended for a context that is done, some steps of
-- the loop and the workers close `done`, so that `WaitForTesting` returns.
pub queue_finishes :
    (workers : ℕ) (q : Queue)
    → 0 < workers
    → Steps workers new_in_memory q
    → q.closed ≡ true
    → is_live q.phase ≡ true
    → (r : Queue) × Steps workers q r × (r.phase ≡ finished)
queue_finishes workers q some_worker reached closed live =
    let quiet = idle workers q.running q refl in
    let s = steps-IsSound workers q quiet.after quiet.steps (reach-IsSound workers q reached) in
    by_step workers q quiet.after quiet.steps (
      from_phase workers q.phase quiet.after some_worker s (quiet.closed ∙ closed) quiet.running
        quiet.phase live)
