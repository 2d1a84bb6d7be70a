-- ===== src/Queue.antt =====
-- internal/queue/queue.go: the queue of fetches that runs in the process. Its goroutines are steps,
-- in any order: the callers that schedule, the loop that hands tasks to workers, and the workers.
pub mod Conserves
pub mod Drains
use pkgsite.Prelude.{ℕ, ◌+◌, ◌-◌, ◌<◌, Bool, true, false, List, [], ◌∷◌, ◌++◌, ◌≡◌, length}
use pkgsite.Paths.{Modver}

-- Where the loop of `NewInMemory` stands: at the channel, with a task for which no worker is free
-- yet, after the channel is closed with so many of the workers' places taken for good, or at its
-- end: `done` is closed, or it has returned with a task in hand, or panicked, with its places.
pub data Phase : Type 0 where
  receiving : Phase
  holding : Modver → Phase
  draining : ℕ → Phase
  finished : Phase
  stopped : Modver → Phase
  panicked : ℕ → Phase

-- The channel, closed or not, the loop, the number of places taken in `sem`, the tasks of the
-- workers, whether the context is done, and what was processed and scheduled so far.
pub record Queue : Type 0 where
  pub channel : List Modver
  pub closed : Bool
  pub phase : Phase
  pub taken : ℕ
  pub running : List Modver
  pub canceled : Bool
  pub processed : List Modver
  pub scheduled : List Modver

-- `NewInMemory`.
abbrev pub new_in_memory : Queue
new_in_memory = record {
  channel = [];
  closed = false;
  phase = receiving;
  taken = 0;
  running = [];
  canceled = false;
  processed = [];
  scheduled = [];
}

-- The steps with so many workers. `ScheduleFetch` waits while the channel's buffer is full; a `select`
-- of which both cases are ready takes either.
pub data Step (workers : ℕ) : Queue → Queue → Type 0 where
  schedule_fetch :
      (q : Queue) (m : Modver)
      → q.closed ≡ false
      → length q.channel < 1000
      → Step workers q (record q { channel = q.channel ++ m ∷ []; scheduled = m ∷ q.scheduled })
  -- `WaitForTesting`, up to the wait.
  close : (q : Queue) → q.closed ≡ false → Step workers q (record q { closed = true })
  cancel : (q : Queue) → Step workers q (record q { canceled = true })
  receive :
      (q : Queue) (m : Modver) (rest : List Modver)
      → q.phase ≡ receiving
      → q.channel ≡ m ∷ rest
      → Step workers q (record q { channel = rest; phase = holding m })
  start :
      (q : Queue) (m : Modver)
      → q.phase ≡ holding m
      → q.taken < workers
      → Step workers q
          (record q { phase = receiving; taken = q.taken + 1; running = m ∷ q.running })
  stop :
      (q : Queue) (m : Modver)
      → q.phase ≡ holding m
      → q.canceled ≡ true
      → Step workers q (record q { phase = stopped m })
  -- A worker is done with its task, which `processFunc` may have failed.
  process :
      (q : Queue) (m : Modver) (before after : List Modver)
      → q.running ≡ before ++ m ∷ after
      → Step workers q
          (record q { taken = q.taken - 1; running = before ++ after; processed = m ∷ q.processed })
  end_range :
      (q : Queue)
      → q.phase ≡ receiving
      → q.channel ≡ []
      → q.closed ≡ true
      → Step workers q (record q { phase = draining 0 })
  acquire :
      (q : Queue) (n : ℕ)
      → q.phase ≡ draining n
      → n < workers
      → q.taken < workers
      → Step workers q (record q { phase = draining (n + 1); taken = q.taken + 1 })
  give_up :
      (q : Queue) (n : ℕ)
      → q.phase ≡ draining n
      → n < workers
      → q.canceled ≡ true
      → Step workers q (record q { phase = panicked n })
  finish : (q : Queue) → q.phase ≡ draining workers → Step workers q (record q { phase = finished })

pub data Steps (workers : ℕ) (q : Queue) : Queue → Type 0 where
  here : Steps workers q q
  next : {r s : Queue} → Steps workers q r → Step workers r s → Steps workers q s
