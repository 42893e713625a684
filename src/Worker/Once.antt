-- ===== src/Worker/Once.antt =====
-- Jobs are neither lost nor doubled when jobs flush the queues while they run (worker/CBaseWorker.cpp).
use fdbus.Prelude.{
  ℕ, zero, suc, ◌+◌, ◌≡◌, refl, ap, arith, ◌==◌, not, ◌&&◌, ◌||◌, Bool, true, false, List, [], ◌∷◌,
  ◌++◌,
}
use fdbus.Worker.{
  Work, user, exit_request, unlock_job_queue, Job, Worker, Event, Call, send_async, exit,
  discard_queued_jobs, flush, perform, perform_all, run_work, run_one_job, run_urgent_jobs,
  process_urgent_jobs, run_normal_job, run_normal_jobs, process_job_queue, process_nested,
  dump_jobs, job_discarded,
}
use fdbus.Worker.Fifo.{
  IsPlain, only, taken, done, waiting, taken-append, done-append, Took, perform-Took, perform-done,
  waiting-update_discard_status,
}
use fdbus.Worker.Order.{Step, call, process, Reach, here, next}

-- The jobs of a list, each counted as `count` says.
abbrev pub number : (Job → ℕ) → List Job → ℕ
number count [] = 0
number count (job ∷ jobs) = count job + number count jobs

module _ (count : Job → ℕ) (u : Bool) where
  number-append : (xs ys : List Job) → number count (xs ++ ys) ≡ number count xs + number count ys
  number-append [] ys = omega arith
  number-append (x ∷ xs) ys = omega (arith, number-append xs ys)

  abbrev counted : List Job → ℕ
  counted = number count

  -- The jobs that a queue held and took, and `held` that were taken over from it, are those that were
  -- terminated and those that it holds.
  abbrev pub Once : ℕ → Worker → List Event → Worker → Type 0
  Once held w es after =
      number count (waiting u w) + number count (taken u es) + held
      ≡ number count (done u es) + number count (waiting u after)

  Once-append :
      (m n : ℕ) (a b c : Worker) (es fs : List Event)
      → Once m a es b
      → Once n b fs c
      → Once (m + n) a (es ++ fs) c
  Once-append m n a b c es fs p q = omega (
    arith,
    p,
    q,
    ap counted (taken-append u es fs),
    ap counted (done-append u es fs),
    number-append (taken u es) (taken u fs),
    number-append (done u es) (done u fs),
  )

  Once-Took :
      (w : Worker) (es : List Event) (after : Worker)
      → Took u w es after
      → done u es ≡ []
      → Once 0 w es after
  Once-Took w es after t d =
      omega (arith, ap counted t, ap counted d, number-append (waiting u w) (taken u es))

  only_none : (v : Bool) → number count (only u v []) ≡ 0
  only_none v = ground arith

  only_next :
      (v : Bool) (job : Job) (jobs : List Job)
      → number count (only u v (job ∷ [])) + number count (only u v jobs)
        ≡ number count (only u v (job ∷ jobs))
  only_next v job jobs = ground arith

  urgent_dumped :
      (w : Worker)
      → number count (waiting u (record w { urgent = record w.urgent { jobs = [] } }))
          + number count (only u true w.urgent.jobs)
        ≡ number count (waiting u w)
  urgent_dumped w = ground arith

  both_dumped :
      (w : Worker)
      → number count (
            waiting u (record w {
              normal = record w.normal { jobs = [] };
              urgent = record w.urgent { jobs = [] };
            }))
          + (number count (only u true w.urgent.jobs) + number count (only u false w.normal.jobs))
        ≡ number count (waiting u w)
  both_dumped w = ground arith

  waiting-exit : (code : ℕ) (w : Worker) → waiting u (record w { exit_code = code }) ≡ waiting u w
  waiting-exit code w = ground arith

  module _ (flushed : Worker → List Event × Worker)
      (keeps : (w : Worker) → Once 0 w (flushed w).0 (flushed w).1) where
    plain-Once :
        (c : Call) (w : Worker)
        → IsPlain c
        → Once 0 w (perform flushed c w).0 (perform flushed c w).1
    plain-Once c w p =
        Once-Took w (perform flushed c w).0 (perform flushed c w).1 (perform-Took flushed u c w p)
          (perform-done flushed u c w p)

    perform-Once :
        (c : Call) (w : Worker) → Once 0 w (perform flushed c w).0 (perform flushed c w).1
    unfolding perform
    perform-Once (send_async v job) w = plain-Once (send_async v job) w refl
    perform-Once (exit code) w = plain-Once (exit code) w refl
    perform-Once (discard_queued_jobs v) w = plain-Once (discard_queued_jobs v) w refl
    perform-Once flush w = keeps w

    perform_all-Once :
        (cs : List Call) (w : Worker)
        → Once 0 w (perform_all flushed cs w).0 (perform_all flushed cs w).1
    unfolding perform_all
    perform_all-Once [] w = omega arith
    perform_all-Once (c ∷ cs) w =
        let (events, after) = perform flushed c w in
        let (more, end) = perform_all flushed cs after in
        Once-append 0 0 w after end events more (perform-Once c w) (perform_all-Once cs after)

    module _ (program : ℕ → Worker → List Call) where
      run_work-Once :
          (v : Bool) (k : Work) (w : Worker)
          → Once 0 w (run_work flushed program k v w).0 (run_work flushed program k v w).1
      unfolding run_work
      run_work-Once v (user n) w = perform_all-Once (program n w) w
      run_work-Once v (exit_request code) w = omega (arith, ap counted (waiting-exit code w))
      run_work-Once v unlock_job_queue w =
          omega (arith, ap counted (waiting-update_discard_status u false v w))

      run_one_job-Once :
          (v : Bool) (job : Job) (run_job : Bool) (w : Worker)
          → Once
              (number count (only u v (job ∷ [])))
              w
              (run_one_job flushed program v job run_job w).0
              (run_one_job flushed program v job run_job w).1
      unfolding run_one_job
      run_one_job-Once v job true w = ground (arith, run_work-Once v job.work w)
      run_one_job-Once v job false w = ground arith

      run_urgent_jobs-Once :
          (jobs : List Job) (w : Worker)
          → Once
              (number count (only u true jobs))
              w
              (run_urgent_jobs flushed program jobs w).0
              (run_urgent_jobs flushed program jobs w).1
      unfolding run_urgent_jobs
      run_urgent_jobs-Once [] w = ground arith
      run_urgent_jobs-Once (job ∷ jobs) w =
          let run_job = not (job_discarded w.urgent) || job.force_run in
          let (events, after) = run_one_job flushed program true job run_job w in
          let (more, end) = run_urgent_jobs flushed program jobs after in
          ground (
            arith,
            Once-append (number count (only u true (job ∷ []))) (number count (only u true jobs)) w
                after end events more (run_one_job-Once true job run_job w)
                (run_urgent_jobs-Once jobs after),
          )

      process_urgent_jobs-Once :
          (w : Worker)
          → Once 0 w
              (process_urgent_jobs flushed program w).0
              (process_urgent_jobs flushed program w).1
      unfolding process_urgent_jobs dump_jobs
      process_urgent_jobs-Once w =
          let started = record w { urgent = record w.urgent { jobs = [] } } in
          let ran = run_urgent_jobs-Once w.urgent.jobs started in
          omega (arith, ran, urgent_dumped w)

      run_normal_job-Once :
          (job : Job) (w : Worker)
          → Once
              (number count (only u false (job ∷ [])))
              w
              (run_normal_job flushed program job w).0
              (run_normal_job flushed program job w).1
      unfolding run_normal_job
      run_normal_job-Once job w =
          run_one_job-Once false job
            ((not (job_discarded w.normal) || job.force_run) && (w.exit_code == 0)) w

      run_normal_jobs-Once :
          (jobs : List Job) (w : Worker)
          → Once
              (number count (only u false jobs))
              w
              (run_normal_jobs flushed program jobs w).0
              (run_normal_jobs flushed program jobs w).1
      unfolding run_normal_jobs
      run_normal_jobs-Once [] w = omega (arith, process_urgent_jobs-Once w, only_none false)
      run_normal_jobs-Once (job ∷ jobs) w =
          let (events, before) = process_urgent_jobs flushed program w in
          let (own, after) = run_normal_job flushed program job before in
          let (more, end) = run_normal_jobs flushed program jobs after in
          let m = number count (only u false (job ∷ [])) in
          let n = number count (only u false jobs) in
          let rest =
            Once-append m n before after end own more (run_normal_job-Once job before)
              (run_normal_jobs-Once jobs after) in
          let all =
            Once-append 0 (m + n) w before end events (own ++ more) (process_urgent_jobs-Once w)
              rest in
          omega (arith, all, only_next false job jobs)

      process_job_queue-Once :
          (w : Worker)
          → Once 0 w (process_job_queue flushed program w).0 (process_job_queue flushed program w).1
      unfolding process_job_queue dump_jobs
      process_job_queue-Once w =
          let started = record w {
            normal = record w.normal { jobs = [] };
            urgent = record w.urgent { jobs = [] };
          } in
          let (events, after) = run_urgent_jobs flushed program w.urgent.jobs started in
          let (more, end) = run_normal_jobs flushed program w.normal.jobs after in
          let m = number count (only u true w.urgent.jobs) in
          let n = number count (only u false w.normal.jobs) in
          let all =
            Once-append m n started after end events more
              (run_urgent_jobs-Once w.urgent.jobs started)
              (run_normal_jobs-Once w.normal.jobs after) in
          omega (arith, all, both_dumped w)

  process_nested-Once :
      (program : ℕ → Worker → List Call) (depth : ℕ) (w : Worker)
      → Once 0 w (process_nested program depth w).0 (process_nested program depth w).1
  unfolding process_nested
  process_nested-Once program zero w =
      process_job_queue-Once (λ v. ([], v)) (λ v. omega arith) program w
  process_nested-Once program (suc depth) w =
      process_job_queue-Once (process_nested program depth) (process_nested-Once program depth)
        program w

  Step-Once : {w v : Worker} {es : List Event} → Step w es v → Once 0 w es v
  Step-Once (call program depth c) =
      perform-Once (process_nested program depth) (process_nested-Once program depth) c _
  Step-Once (process program depth) = process_nested-Once program depth _

  -- Whatever calls and runs of its job queues a worker has seen, with flushes by jobs that nest to any
  -- depth, and however jobs are counted: those that each of its queues held and then took are as many as
  -- those that were taken from it and run or skipped, and those that it holds. No job is lost and none is
  -- taken twice.
  pub Reach-Once : {w v : Worker} {es : List Event} → Reach w es v → Once 0 w es v
  Reach-Once here = omega arith
  Reach-Once {w = w} (next {es = es} {fs = fs} {v = v} {x = x} r st) =
      Once-append 0 0 w v x es fs (Reach-Once r) (Step-Once st)
