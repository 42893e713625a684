-- ===== src/Worker/Bounds.antt =====
-- What holds of a worker between any two jobs (worker/CBaseWorker.cpp).
use fdbus.Prelude.{
  ℕ, zero, suc, ◌≤◌, ◌≡◌, ◌⊎◌, inl, inr, refl, sym, subst, arith, not, ◌||◌, Bool, true, false,
  List, [], ◌∷◌, length, length-append, Bool-cases, if_true, if_false,
}
use fdbus.Worker.{
  Work, user, exit_request, unlock_job_queue, Job, JobQueue, Worker, Event, enqueue, dump_jobs,
  start_discard, pickup_jobs, queue_of, with_queue, send, update_discard_status, discard_jobs, Call,
  send_async, exit, discard_queued_jobs, flush, process_nested, perform, perform_all, run_work,
  run_one_job, run_urgent_jobs, process_urgent_jobs, run_normal_job, run_normal_jobs,
  process_job_queue, unlock_job, exit_job, new_worker, job_discarded,
}
use fdbus.Worker.Order.{Step, call, process, Reach, here, next}

-- A property of workers that sending, discarding, exiting and emptying a queue keep is kept by all.
module _ (P : Worker → Type 0)
    (send-P : (u : Bool) (job : Job) (w : Worker) → P w → P (send u job w).1)
    (status-P : (d u : Bool) (w : Worker) → P w → P (update_discard_status d u w))
    (exit-P : (code : ℕ) (w : Worker) → P w → P (record w { exit_code = code }))
    (dump-P : (u : Bool) (w : Worker) → P w → P (with_queue u (dump_jobs (queue_of u w)).1 w)) where
  module _ (flushed : Worker → List Event × Worker)
      (flushed-P : (w : Worker) → P w → P (flushed w).1) where
    perform-P : (c : Call) (w : Worker) → P w → P (perform flushed c w).1
    unfolding perform discard_jobs
    perform-P (send_async u job) w h = send-P u job w h
    perform-P (exit code) w h = send-P false (exit_job code) w h
    perform-P (discard_queued_jobs u) w h =
        let sent = send-P u unlock_job (update_discard_status true u w) (status-P true u w h) in
        elim (Bool-cases (send u unlock_job (update_discard_status true u w)).0) [
          | inl e ↦ subst P (sym (if_true _ _ e)) sent
          | inr e ↦ subst P (sym (if_false _ _ e)) (status-P false u _ sent)
        ]
    perform-P flush w h = flushed-P w h

    perform_all-P : (cs : List Call) (w : Worker) → P w → P (perform_all flushed cs w).1
    unfolding perform_all
    perform_all-P [] w h = h
    perform_all-P (c ∷ cs) w h = perform_all-P cs (perform flushed c w).1 (perform-P c w h)

    module _ (program : ℕ → Worker → List Call) where
      run_work-P : (u : Bool) (k : Work) (w : Worker) → P w → P (run_work flushed program k u w).1
      unfolding run_work
      run_work-P u (user n) w h = perform_all-P (program n w) w h
      run_work-P u (exit_request code) w h = exit-P code w h
      run_work-P u unlock_job_queue w h = status-P false u w h

      run_one_job-P :
          (u : Bool) (job : Job) (run_job : Bool) (w : Worker)
          → P w
          → P (run_one_job flushed program u job run_job w).1
      unfolding run_one_job
      run_one_job-P u job false w h = h
      run_one_job-P u job true w h = run_work-P u job.work w h

      run_urgent_jobs-P :
          (jobs : List Job) (w : Worker) → P w → P (run_urgent_jobs flushed program jobs w).1
      unfolding run_urgent_jobs
      run_urgent_jobs-P [] w h = h
      run_urgent_jobs-P (job ∷ jobs) w h =
          let run_job = not (job_discarded w.urgent) || job.force_run in
          run_urgent_jobs-P jobs (run_one_job flushed program true job run_job w).1
            (run_one_job-P true job run_job w h)

      process_urgent_jobs-P : (w : Worker) → P w → P (process_urgent_jobs flushed program w).1
      unfolding process_urgent_jobs dump_jobs
      process_urgent_jobs-P w h = run_urgent_jobs-P w.urgent.jobs _ (dump-P true w h)

      run_normal_jobs-P :
          (jobs : List Job) (w : Worker) → P w → P (run_normal_jobs flushed program jobs w).1
      unfolding run_normal_jobs run_normal_job
      run_normal_jobs-P [] w h = process_urgent_jobs-P w h
      run_normal_jobs-P (job ∷ jobs) w h =
          run_normal_jobs-P jobs _ (run_one_job-P false job _ _ (process_urgent_jobs-P w h))

      process_job_queue-P : (w : Worker) → P w → P (process_job_queue flushed program w).1
      unfolding process_job_queue dump_jobs
      process_job_queue-P w h =
          run_normal_jobs-P w.normal.jobs _
            (run_urgent_jobs-P w.urgent.jobs _ (dump-P true _ (dump-P false w h)))

  process_nested-P :
      (program : ℕ → Worker → List Call) (depth : ℕ) (w : Worker)
      → P w
      → P (process_nested program depth w).1
  unfolding process_nested
  process_nested-P program zero w h = process_job_queue-P (λ v. ([], v)) (λ v k. k) program w h
  process_nested-P program (suc depth) w h =
      process_job_queue-P (process_nested program depth) (process_nested-P program depth) program w
        h

  Step-P : {w v : Worker} {es : List Event} → Step w es v → P w → P v
  Step-P (call program depth c) h =
      perform-P (process_nested program depth) (process_nested-P program depth) c _ h
  Step-P (process program depth) h = process_nested-P program depth _ h

  Reach-P : {w v : Worker} {es : List Event} → P w → Reach w es v → P v
  Reach-P h here = h
  Reach-P h (next r st) = Step-P st (Reach-P h r)

-- A queue with a limit never holds more jobs than that.
module _ (normal_size urgent_size : ℕ) where
  abbrev size_of : Bool → ℕ
  size_of true = urgent_size
  size_of false = normal_size

  abbrev Fits : ℕ → JobQueue → Type 0
  Fits size q = (q.max_size ≡ size) × ((size ≡ 0) ⊎ (length q.jobs ≤ size))

  abbrev Limited : Worker → Type 0
  Limited w = Fits normal_size w.normal × Fits urgent_size w.urgent

  enqueue-Fits : (size : ℕ) (job : Job) (q : JobQueue) → Fits size q → Fits size (enqueue job q).1
  unfolding enqueue
  enqueue-Fits size job q h = ground (arith, h, length-append q.jobs (job ∷ []))

  send-Limited : (u : Bool) (job : Job) (w : Worker) → Limited w → Limited (send u job w).1
  unfolding send
  send-Limited true job w h = ground (arith, h, enqueue-Fits urgent_size job w.urgent h.1)
  send-Limited false job w h = ground (arith, h, enqueue-Fits normal_size job w.normal h.0)

  status-Limited : (d u : Bool) (w : Worker) → Limited w → Limited (update_discard_status d u w)
  unfolding update_discard_status start_discard pickup_jobs
  status-Limited true true w h = h
  status-Limited false true w h = ground (arith, h)
  status-Limited true false w h = h
  status-Limited false false w h = ground (arith, h)

  dump-Limited :
      (u : Bool) (w : Worker) → Limited w → Limited (with_queue u (dump_jobs (queue_of u w)).1 w)
  unfolding dump_jobs
  dump-Limited true w h = ground (arith, h)
  dump-Limited false w h = ground (arith, h)

  -- Whatever calls and runs of its job queues a new worker has seen, neither queue holds more jobs than its
  -- limit, if it has one.
  pub Reach-Limited :
      {w : Worker} {es : List Event}
      → Reach (new_worker normal_size urgent_size) es w
      → ((normal_size ≡ 0) ⊎ (length w.normal.jobs ≤ normal_size))
        × ((urgent_size ≡ 0) ⊎ (length w.urgent.jobs ≤ urgent_size))
  Reach-Limited r =
      let (normal, urgent) =
        Reach-P Limited send-Limited status-Limited (λ code w h. h) dump-Limited
          ((refl, inr (omega arith)), (refl, inr (omega arith))) r in
      (normal.1, urgent.1)
