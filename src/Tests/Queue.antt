-- ===== src/Tests/Queue.antt =====
-- Examples of internal/queue.
use pkgsite.Prelude.{Bool, true, [], ◌∷◌, codes, ◌≡◌, refl, arith}
use pkgsite.Paths.{Modver}
use pkgsite.Queue.{
  Queue, new_in_memory, Steps, here, next, schedule_fetch, close, receive, start, process,
  end_range, acquire, finish, finished, receiving, draining, holding,
}
use pkgsite.Queue.Conserves.{IsSound, reach-IsSound}
use pkgsite.Queue.Drains.{queue_finishes}

abbrev task : Modver
task = record { path = codes "example.com/m"; version = codes "v1.0.0" }

abbrev scheduled : Queue
scheduled = record new_in_memory { channel = task ∷ []; scheduled = task ∷ [] }

abbrev waiting : Queue
waiting = record scheduled { closed = true }

waiting_reached : Steps 1 new_in_memory waiting
waiting_reached =
    next (next here (schedule_fetch new_in_memory task refl (omega arith))) (close scheduled refl)

reach-IsSound_example : IsSound 1 waiting
reach-IsSound_example = reach-IsSound 1 waiting waiting_reached

queue_finishes_example : (q : Queue) × Steps 1 waiting q × (q.phase ≡ finished)
queue_finishes_example = queue_finishes 1 waiting (omega arith) waiting_reached refl refl

abbrev held : Queue
held = record waiting { channel = []; phase = holding task }

abbrev started : Queue
started = record held { phase = receiving; taken = 1; running = task ∷ [] }

abbrev processed : Queue
processed = record started { taken = 0; running = []; processed = task ∷ [] }

abbrev drained : Queue
drained = record processed { phase = draining 1; taken = 1 }

abbrev done : Queue
done = record drained { phase = finished }

done_reached : Steps 1 new_in_memory done
done_reached =
    next
      (next
        (next
          (next
            (next (next waiting_reached (receive waiting task [] refl refl))
              (start held task refl (omega arith)))
            (process started task [] [] refl))
          (end_range processed refl refl refl))
        (acquire (record processed { phase = draining 0 }) 0 refl (omega arith) (omega arith)))
      (finish drained refl)

abbrev any_task : Modver → Bool
any_task m = true
