-- ===== src/Tests/Queues.antt =====
-- Runs of the watchdog and the job queues.
use fdbus.Prelude.{
  ℕ, All, Bool-cases, if_true, if_false, subst, sym, inl, inr, ◌≤◌, ◌≡◌, ◌≢◌, ◌⊎◌, refl, arith,
  ◌==◌, if◌then◌else◌, Bool, true, false, List, [], ◌∷◌, ◌++◌, length,
}
use fdbus.Prelude.Map.{nat_eq, find, Distinct}
use fdbus.Watchdog.{
  Watchdog, feed_dog, run, query_dog, reset, exists_alive, exists_dead, does_not_exist,
}
use fdbus.Watchdog.Barks.{barks, runs, run-barks, feed_dog-barks}
use fdbus.Worker.{
  Job, Worker, Event, Call, send_async, flush, perform, process_job_queue, process_nested,
  new_worker, unlock_job, ran, discard_jobs, perform_all,
}
use fdbus.Worker.Fifo.{taken, done, waiting, Kept, IsPlain}
use fdbus.Worker.Once.{Once, Reach-Once}
use fdbus.Worker.Order.{
  process_job_queue-order, Reach, here, next, call, process, start, then_step, plain_process,
  PlainReach-Kept,
}
use fdbus.Worker.Bounds.{Reach-Limited}
use fdbus.Worker.Discard.{
  user_job, user_jobs, loaded, send_all, all_skipped, all_ran, discard_jobs-skips,
}

abbrev watched : Watchdog
watched = record { dogs = (4, reset 2) ∷ []; max_retries = 2 }

abbrev everyone : ℕ → Bool
everyone sid = true

watched-Distinct : Distinct watched.dogs
unfolding find
watched-Distinct = (refl, tt)

run-barks_example :
    (barks 4 (run everyone (runs everyone 8 watched)).1 ≡ true)
    × (query_dog 4 (runs everyone 8 watched) ≡ exists_dead)
unfolding find
run-barks_example = run-barks everyone 4 refl 8 watched (reset 2) watched-Distinct refl

known : query_dog 4 watched ≢ does_not_exist
unfolding query_dog find
known e = ground (arith, e)

feed_dog-barks_example :
    (barks 4 (run everyone (runs everyone 1 (feed_dog 4 watched))).1 ≡ false)
    × (query_dog 4 (runs everyone 1 (feed_dog 4 watched)) ≡ exists_alive)
feed_dog-barks_example =
    feed_dog-barks everyone 4 refl 1 watched watched-Distinct known (omega arith)

-- The first job sends an urgent one.
abbrev program : ℕ → Worker → List Call
program n w = if n == 1 then send_async true (user_job 9) ∷ [] else []

program-IsPlain : (n : ℕ) (w : Worker) → All IsPlain (program n w)
program-IsPlain n w = elim (Bool-cases (n == 1)) [
  | inl e ↦ subst (All IsPlain) (sym (if_true _ _ e)) (refl, tt)
  | inr e ↦ subst (All IsPlain) (sym (if_false _ _ e)) tt
]

abbrev at_once : Worker → List Event × Worker
at_once w = ([], w)

abbrev two_jobs : Worker
two_jobs = loaded 0 (user_jobs (1 ∷ 2 ∷ []))

process_job_queue-order_example :
    (done false (process_job_queue at_once program two_jobs).0 ≡ user_jobs (1 ∷ 2 ∷ []))
    × (taken false (process_job_queue at_once program two_jobs).0
        ≡ waiting false (process_job_queue at_once program two_jobs).1)
    × ((rest : List Job) × (done true (process_job_queue at_once program two_jobs).0
          ≡ waiting true two_jobs ++ rest)
        × (taken true (process_job_queue at_once program two_jobs).0
            ≡ rest ++ waiting true (process_job_queue at_once program two_jobs).1))
process_job_queue-order_example = process_job_queue-order at_once program program-IsPlain two_jobs

abbrev plain_run : List Event × Worker
plain_run = process_job_queue at_once program two_jobs

PlainReach-Kept_example :
    Kept true (waiting true two_jobs) ([] ++ plain_run.0) (waiting true plain_run.1)
PlainReach-Kept_example =
    PlainReach-Kept true (then_step start (plain_process at_once program program-IsPlain))

-- The first job sends a third and flushes, so that the third is run before the second.
abbrev flushing : ℕ → Worker → List Call
flushing n w = if n == 1 then send_async false (user_job 3) ∷ flush ∷ [] else []

flushed_first :
    done false (process_nested flushing 1 two_jobs).0 ≡ user_job 1 ∷ user_job 3 ∷ user_job 2 ∷ []
unfolding process_nested process_job_queue fdbus.Worker.run_urgent_jobs fdbus.Worker.dump_jobs
    fdbus.Worker.run_normal_jobs fdbus.Worker.process_urgent_jobs fdbus.Worker.run_normal_job
    fdbus.Worker.run_one_job fdbus.Worker.run_work perform_all perform fdbus.Worker.send
    fdbus.Worker.enqueue
flushed_first = refl

abbrev two_flushed : List Event × Worker
two_flushed = process_nested flushing 1 two_jobs

run_nested : Reach two_jobs ([] ++ two_flushed.0) two_flushed.1
run_nested = next here (process flushing 1)

Reach-Once_example : Once (λ job. 1) false 0 two_jobs ([] ++ two_flushed.0) two_flushed.1
Reach-Once_example = Reach-Once (λ job. 1) false run_nested

abbrev nested : Worker → List Event × Worker
nested = process_nested program 0

abbrev events : List Event
events =
    ([] ++ (perform nested (send_async false (user_job 1)) (new_worker 3 3)).0)
    ++ (nested (perform nested (send_async false (user_job 1)) (new_worker 3 3)).1).0

abbrev after : Worker
after = (nested (perform nested (send_async false (user_job 1)) (new_worker 3 3)).1).1

run_once : Reach (new_worker 3 3) events after
run_once = next (next here (call program 0 (send_async false (user_job 1)))) (process program 0)

Reach-Limited_example :
    ((◌≡◌ {A = ℕ} 3 0) ⊎ (length after.normal.jobs ≤ 3))
    × ((◌≡◌ {A = ℕ} 3 0) ⊎ (length after.urgent.jobs ≤ 3))
Reach-Limited_example = Reach-Limited 3 3 run_once

discard_jobs-skips_example :
    (process_job_queue at_once
      (λ n w. [])
      (perform_all at_once
        (send_all (3 ∷ []))
        (discard_jobs false (loaded 0 (user_jobs (1 ∷ 2 ∷ [])))).1).1).0
    ≡ all_skipped (1 ∷ 2 ∷ []) ++ ran false unlock_job ∷ all_ran (3 ∷ [])
discard_jobs-skips_example =
    discard_jobs-skips at_once (λ n w. []) (λ n w. refl) (1 ∷ 2 ∷ []) (3 ∷ [])
