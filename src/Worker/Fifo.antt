-- ===== src/Worker/Fifo.antt =====
-- What calls and runs of jobs take into a queue and take out of it, in order, if no job flushes the queues
-- (worker/CBaseWorker.cpp).
use fdbus.Prelude.{
  ℕ, zero, All, ◌≡◌, refl, sym, ◌∙◌, ap, arith, if◌then◌else◌, not, ◌||◌, Bool, true, false, List,
  [], ◌∷◌, ◌++◌, append_assoc, append-nil,
}
use fdbus.Worker.{
  Work, user, exit_request, unlock_job_queue, Job, Worker, Event, accepted, refused, ran, skipped,
  enqueue, start_discard, pickup_jobs, queue_of, send, update_discard_status, discard_jobs, Call,
  send_async, exit, discard_queued_jobs, flush, perform, perform_all, run_work, run_one_job,
  run_urgent_jobs, outcome, unlock_job, exit_job, job_discarded,
}

abbrev pub same : Bool → Bool → Bool
same true b = b
same false b = not b

-- The jobs that the queue `u` took, in the order of the events.
abbrev pub taken : Bool → List Event → List Job
taken u [] = []
taken u (accepted v job ∷ es) = if same u v then job ∷ taken u es else taken u es
taken u (refused v job ∷ es) = taken u es
taken u (ran v job ∷ es) = taken u es
taken u (skipped v job ∷ es) = taken u es

-- The jobs that the worker took from the queue `u` and terminated, in the order of the events.
abbrev pub done : Bool → List Event → List Job
done u [] = []
done u (accepted v job ∷ es) = done u es
done u (refused v job ∷ es) = done u es
done u (ran v job ∷ es) = if same u v then job ∷ done u es else done u es
done u (skipped v job ∷ es) = if same u v then job ∷ done u es else done u es

pub taken-append : (u : Bool) (xs ys : List Event) → taken u (xs ++ ys) ≡ taken u xs ++ taken u ys
taken-append u [] ys = refl
taken-append u (accepted v job ∷ es) ys = ground (arith, taken-append u es ys)
taken-append u (refused v job ∷ es) ys = taken-append u es ys
taken-append u (ran v job ∷ es) ys = taken-append u es ys
taken-append u (skipped v job ∷ es) ys = taken-append u es ys

pub done-append : (u : Bool) (xs ys : List Event) → done u (xs ++ ys) ≡ done u xs ++ done u ys
done-append u [] ys = refl
done-append u (accepted v job ∷ es) ys = done-append u es ys
done-append u (refused v job ∷ es) ys = done-append u es ys
done-append u (ran v job ∷ es) ys = ground (arith, done-append u es ys)
done-append u (skipped v job ∷ es) ys = ground (arith, done-append u es ys)

abbrev pub waiting : Bool → Worker → List Job
waiting u w = (queue_of u w).jobs

-- What a queue held and took is what was done and what it holds, in this order.
abbrev pub Kept : Bool → List Job → List Event → List Job → Type 0
Kept u before events after = before ++ taken u events ≡ done u events ++ after

pub Kept-append :
    (u : Bool) (a b c : List Job) (es fs : List Event)
    → Kept u a es b
    → Kept u b fs c
    → Kept u a (es ++ fs) c
Kept-append u a b c es fs p q =
    rw (taken-append u es fs, done-append u es fs)
      (sym (append_assoc a (taken u es) (taken u fs))
        ∙ (ap (λ l. l ++ taken u fs) p
            ∙ (append_assoc (done u es) b (taken u fs)
                ∙ (ap (λ l. done u es ++ l) q ∙ sym (append_assoc (done u es) (done u fs) c)))))

-- While calls are made and jobs run, jobs are only added to a queue.
abbrev pub Took : Bool → Worker → List Event → Worker → Type 0
Took u w es after = waiting u w ++ taken u es ≡ waiting u after

pub Took-append :
    (u : Bool) (a b c : Worker) (es fs : List Event)
    → Took u a es b
    → Took u b fs c
    → Took u a (es ++ fs) c
Took-append u a b c es fs p q =
    rw (taken-append u es fs) (
      sym (append_assoc (waiting u a) (taken u es) (taken u fs))
      ∙ (ap (λ l. l ++ taken u fs) p ∙ q))

send-Took :
    (u v : Bool) (job : Job) (w : Worker)
    → Took u w (outcome v job (send v job w).0) (send v job w).1
unfolding send enqueue
send-Took true true job w = ground (arith, append-nil w.urgent.jobs)
send-Took true false job w = ground (arith, append-nil w.urgent.jobs)
send-Took false true job w = ground (arith, append-nil w.normal.jobs)
send-Took false false job w = ground (arith, append-nil w.normal.jobs)

pub waiting-update_discard_status :
    (u d v : Bool) (w : Worker) → waiting u (update_discard_status d v w) ≡ waiting u w
unfolding update_discard_status start_discard pickup_jobs
waiting-update_discard_status true true true w = refl
waiting-update_discard_status true true false w = refl
waiting-update_discard_status true false true w = ground arith
waiting-update_discard_status true false false w = refl
waiting-update_discard_status false true true w = refl
waiting-update_discard_status false true false w = refl
waiting-update_discard_status false false true w = refl
waiting-update_discard_status false false false w = ground arith

discard_jobs-Took : (u v : Bool) (w : Worker) → Took u w (discard_jobs v w).0 (discard_jobs v w).1
unfolding discard_jobs
discard_jobs-Took u v w =
    let started = update_discard_status true v w in
    let (sent, after) = send v unlock_job started in
    ground (
      arith,
      send-Took u v unlock_job started,
      waiting-update_discard_status u true v w,
      waiting-update_discard_status u false v after,
    )

-- A call that does not handle the queues itself.
abbrev pub IsPlain : Call → Type 0
IsPlain flush = ⊥
IsPlain (send_async v job) = zero ≡ zero
IsPlain (exit code) = zero ≡ zero
IsPlain (discard_queued_jobs v) = zero ≡ zero

module _ (flushed : Worker → List Event × Worker) where
  pub perform-Took :
      (u : Bool) (c : Call) (w : Worker)
      → IsPlain c
      → Took u w (perform flushed c w).0 (perform flushed c w).1
  unfolding perform
  perform-Took u (send_async v job) w p = send-Took u v job w
  perform-Took u (exit code) w p = send-Took u false (exit_job code) w
  perform-Took u (discard_queued_jobs v) w p = discard_jobs-Took u v w
  perform-Took u flush w p = absurd p

  perform_all-Took :
      (u : Bool) (cs : List Call) (w : Worker)
      → All IsPlain cs
      → Took u w (perform_all flushed cs w).0 (perform_all flushed cs w).1
  unfolding perform_all
  perform_all-Took u [] w p = append-nil (waiting u w)
  perform_all-Took u (c ∷ cs) w p =
      let (events, after) = perform flushed c w in
      let (more, end) = perform_all flushed cs after in
      Took-append u w after end events more (perform-Took u c w p.0)
        (perform_all-Took u cs after p.1)

  outcome-done : (u v : Bool) (job : Job) (sent : Bool) → done u (outcome v job sent) ≡ []
  outcome-done u v job true = refl
  outcome-done u v job false = refl

  pub perform-done :
      (u : Bool) (c : Call) (w : Worker) → IsPlain c → done u (perform flushed c w).0 ≡ []
  unfolding perform discard_jobs
  perform-done u (send_async v job) w p = outcome-done u v job _
  perform-done u (exit code) w p = outcome-done u false (exit_job code) _
  perform-done u (discard_queued_jobs v) w p = outcome-done u v unlock_job _
  perform-done u flush w p = absurd p

  perform_all-done :
      (u : Bool) (cs : List Call) (w : Worker)
      → All IsPlain cs
      → done u (perform_all flushed cs w).0 ≡ []
  unfolding perform_all
  perform_all-done u [] w p = refl
  perform_all-done u (c ∷ cs) w p =
      let (events, after) = perform flushed c w in
      let (more, end) = perform_all flushed cs after in
      done-append u events more
      ∙ (ap (λ l. l ++ done u more) (perform-done u c w p.0) ∙ perform_all-done u cs after p.1)

abbrev pub only : Bool → Bool → List Job → List Job
only u v jobs = if same u v then jobs else []

module _ (flushed : Worker → List Event × Worker) (program : ℕ → Worker → List Call)
    (plain : (n : ℕ) (w : Worker) → All IsPlain (program n w)) where
  run_work-Took :
      (u v : Bool) (k : Work) (w : Worker)
      → Took u w (run_work flushed program k v w).0 (run_work flushed program k v w).1
  unfolding run_work
  run_work-Took u v (user n) w = perform_all-Took flushed u (program n w) w (plain n w)
  run_work-Took true v (exit_request code) w = append-nil w.urgent.jobs
  run_work-Took false v (exit_request code) w = append-nil w.normal.jobs
  run_work-Took u v unlock_job_queue w =
      append-nil (waiting u w) ∙ sym (waiting-update_discard_status u false v w)

  run_work-done :
      (u v : Bool) (k : Work) (w : Worker) → done u (run_work flushed program k v w).0 ≡ []
  unfolding run_work
  run_work-done u v (user n) w = perform_all-done flushed u (program n w) w (plain n w)
  run_work-done u v (exit_request code) w = refl
  run_work-done u v unlock_job_queue w = refl

  pub run_one_job-Took :
      (u v : Bool) (job : Job) (run_job : Bool) (w : Worker)
      → Took u w
          (run_one_job flushed program v job run_job w).0
          (run_one_job flushed program v job run_job w).1
  unfolding run_one_job
  run_one_job-Took u v job true w = run_work-Took u v job.work w
  run_one_job-Took u v job false w = append-nil (waiting u w)

  pub run_one_job-done :
      (u v : Bool) (job : Job) (run_job : Bool) (w : Worker)
      → done u (run_one_job flushed program v job run_job w).0 ≡ only u v (job ∷ [])
  unfolding run_one_job
  run_one_job-done u v job true w = ground (arith, run_work-done u v job.work w)
  run_one_job-done u v job false w = ground arith

  pub run_urgent_jobs-Took :
      (u : Bool) (jobs : List Job) (w : Worker)
      → Took u w
          (run_urgent_jobs flushed program jobs w).0
          (run_urgent_jobs flushed program jobs w).1
  unfolding run_urgent_jobs
  run_urgent_jobs-Took u [] w = append-nil (waiting u w)
  run_urgent_jobs-Took u (job ∷ jobs) w =
      let run_job = not (job_discarded w.urgent) || job.force_run in
      let (events, after) = run_one_job flushed program true job run_job w in
      let (more, end) = run_urgent_jobs flushed program jobs after in
      Took-append u w after end events more (run_one_job-Took u true job run_job w)
        (run_urgent_jobs-Took u jobs after)

  pub run_urgent_jobs-done :
      (u : Bool) (jobs : List Job) (w : Worker)
      → done u (run_urgent_jobs flushed program jobs w).0 ≡ only u true jobs
  unfolding run_urgent_jobs
  run_urgent_jobs-done u [] w = ground arith
  run_urgent_jobs-done u (job ∷ jobs) w =
      let run_job = not (job_discarded w.urgent) || job.force_run in
      let (events, after) = run_one_job flushed program true job run_job w in
      let more = (run_urgent_jobs flushed program jobs after).0 in
      ground (
        arith,
        done-append u events more,
        run_one_job-done u true job run_job w,
        run_urgent_jobs-done u jobs after,
      )
