-- ===== src/Worker/Order.antt =====
-- The order in which `CBaseWorker::processJobQueue` handles the jobs (worker/CBaseWorker.cpp).
use fdbus.Prelude.{
  ℕ, Bool, All, ◌≡◌, ◌∙◌, ap, sym, append_assoc, append-nil, arith, ◌==◌, not, ◌&&◌, ◌||◌, true,
  false, List, [], ◌∷◌, ◌++◌,
}
use fdbus.Worker.{
  Job, Worker, Event, dump_jobs, Call, perform, run_urgent_jobs, process_urgent_jobs,
  run_normal_job, run_normal_jobs, process_job_queue, process_nested, job_discarded,
}
use fdbus.Worker.Fifo.{
  taken, done, waiting, taken-append, done-append, Took, Took-append, Kept, Kept-append, IsPlain,
  run_one_job-Took, run_one_job-done, run_urgent_jobs-Took, run_urgent_jobs-done, perform-Took,
  perform-done,
}

module _ (flushed : Worker → List Event × Worker) (program : ℕ → Worker → List Call)
    (plain : (n : ℕ) (w : Worker) → All IsPlain (program n w)) where
  -- What the handling of a worker's queues shows, when `normal_jobs` are those that it took over.
  record Handled (normal_jobs : List Job) (w : Worker) (es : List Event) (after : Worker)
      : Type 0 where
    normal_done : done false es ≡ normal_jobs
    normal_taken : Took false w es after
    urgent_kept : Kept true (waiting true w) es (waiting true after)

  process_urgent_jobs-Handled :
      (w : Worker)
      → Handled [] w
          (process_urgent_jobs flushed program w).0
          (process_urgent_jobs flushed program w).1
  unfolding process_urgent_jobs dump_jobs
  process_urgent_jobs-Handled w =
      let jobs = w.urgent.jobs in
      let started = record w { urgent = record w.urgent { jobs = [] } } in
      record {
        normal_done = run_urgent_jobs-done flushed program plain false jobs started;
        normal_taken = run_urgent_jobs-Took flushed program plain false jobs started;
        urgent_kept = ground (
          arith,
          run_urgent_jobs-done flushed program plain true jobs started,
          run_urgent_jobs-Took flushed program plain true jobs started,
        );
      }

  run_normal_job-Handled :
      (job : Job) (w : Worker)
      → Handled
          (job ∷ [])
          w
          (run_normal_job flushed program job w).0
          (run_normal_job flushed program job w).1
  unfolding run_normal_job
  run_normal_job-Handled job w =
      let run_job = (not (job_discarded w.normal) || job.force_run) && (w.exit_code == 0) in
      record {
        normal_done = run_one_job-done flushed program plain false false job run_job w;
        normal_taken = run_one_job-Took flushed program plain false false job run_job w;
        urgent_kept = ground (
          arith,
          run_one_job-done flushed program plain true false job run_job w,
          run_one_job-Took flushed program plain true false job run_job w,
        );
      }

  Handled-append :
      (js ks : List Job) (a b c : Worker) (es fs : List Event)
      → Handled js a es b
      → Handled ks b fs c
      → Handled (js ++ ks) a (es ++ fs) c
  Handled-append js ks a b c es fs p q = record {
    normal_done =
        done-append false es fs
        ∙ (ap (λ l. l ++ done false fs) p.normal_done ∙ ap (λ l. js ++ l) q.normal_done);
    normal_taken = Took-append false a b c es fs p.normal_taken q.normal_taken;
    urgent_kept =
        Kept-append true (waiting true a) (waiting true b) (waiting true c) es fs p.urgent_kept
          q.urgent_kept;
  }

  run_normal_jobs-Handled :
      (jobs : List Job) (w : Worker)
      → Handled jobs w
          (run_normal_jobs flushed program jobs w).0
          (run_normal_jobs flushed program jobs w).1
  unfolding run_normal_jobs
  run_normal_jobs-Handled [] w = process_urgent_jobs-Handled w
  run_normal_jobs-Handled (job ∷ jobs) w =
      let (events, before) = process_urgent_jobs flushed program w in
      let (own, after) = run_normal_job flushed program job before in
      let (more, end) = run_normal_jobs flushed program jobs after in
      Handled-append [] (job ∷ jobs) w before end events (own ++ more)
        (process_urgent_jobs-Handled w)
        (Handled-append (job ∷ []) jobs before after end own more
          (run_normal_job-Handled job before) (run_normal_jobs-Handled jobs after))

  -- If no job flushes the queues while it runs: one run of the job queues terminates exactly the normal
  -- jobs that were waiting, in order, and leaves exactly those that came in meanwhile; it terminates first
  -- the urgent jobs that were waiting and then those that came in meanwhile, in order, up to a last part
  -- that it leaves.
  pub process_job_queue-order :
      (w : Worker)
      → (done false (process_job_queue flushed program w).0 ≡ waiting false w)
        × (taken false (process_job_queue flushed program w).0
            ≡ waiting false (process_job_queue flushed program w).1)
        × ((rest : List Job) × (done true (process_job_queue flushed program w).0
              ≡ waiting true w ++ rest)
            × (taken true (process_job_queue flushed program w).0
                ≡ rest ++ waiting true (process_job_queue flushed program w).1))
  unfolding process_job_queue dump_jobs
  process_job_queue-order w =
      let started = record w {
        normal = record w.normal { jobs = [] };
        urgent = record w.urgent { jobs = [] };
      } in
      let (events, after) = run_urgent_jobs flushed program w.urgent.jobs started in
      let (more, end) = run_normal_jobs flushed program w.normal.jobs after in
      let rest = run_normal_jobs-Handled w.normal.jobs after in
      let none_done = run_urgent_jobs-done flushed program plain false w.urgent.jobs started in
      let urgent_done = run_urgent_jobs-done flushed program plain true w.urgent.jobs started in
      (
        done-append false events more
            ∙ (ap (λ l. l ++ done false more) none_done ∙ rest.normal_done),
        Took-append false started after end events more
            (run_urgent_jobs-Took flushed program plain false w.urgent.jobs started)
            rest.normal_taken,
        (
          done true more,
          done-append true events more ∙ ap (λ l. l ++ done true more) urgent_done,
          taken-append true events more
              ∙ (ap (λ l. l ++ taken true more)
                    (run_urgent_jobs-Took flushed program plain true w.urgent.jobs started)
                  ∙ rest.urgent_kept),
        ),
      )

-- What may happen to a worker: a call from any thread, or `processJobQueue` on its own.
pub data Step (w : Worker) : List Event → Worker → Type 0 where
  call :
      (program : ℕ → Worker → List Call) (depth : ℕ) (c : Call)
      → Step w
          (perform (process_nested program depth) c w).0
          (perform (process_nested program depth) c w).1
  process :
      (program : ℕ → Worker → List Call) (depth : ℕ)
      → Step w (process_nested program depth w).0 (process_nested program depth w).1

pub data Reach (w : Worker) : List Event → Worker → Type 0 where
  here : Reach w [] w
  next : {es fs : List Event} {v x : Worker} → Reach w es v → Step v fs x → Reach w (es ++ fs) x

-- The same without flushes: calls of any thread, and runs in which no job flushes the queues.
pub data PlainStep (w : Worker) : List Event → Worker → Type 0 where
  plain_call :
      (flushed : Worker → List Event × Worker) (c : Call)
      → IsPlain c
      → PlainStep w (perform flushed c w).0 (perform flushed c w).1
  plain_process :
      (flushed : Worker → List Event × Worker) (program : ℕ → Worker → List Call)
      → ((n : ℕ) (v : Worker) → All IsPlain (program n v))
      → PlainStep w (process_job_queue flushed program w).0 (process_job_queue flushed program w).1

pub data PlainReach (w : Worker) : List Event → Worker → Type 0 where
  start : PlainReach w [] w
  then_step :
      {es fs : List Event} {v x : Worker}
      → PlainReach w es v
      → PlainStep v fs x
      → PlainReach w (es ++ fs) x

call-Kept :
    (u : Bool) (flushed : Worker → List Event × Worker) (c : Call) (w : Worker)
    → IsPlain c
    → Kept u (waiting u w) (perform flushed c w).0 (waiting u (perform flushed c w).1)
call-Kept u flushed c w p =
    perform-Took flushed u c w p
    ∙ ap (λ l. l ++ waiting u (perform flushed c w).1) (sym (perform-done flushed u c w p))

process-Kept :
    (u : Bool) (flushed : Worker → List Event × Worker) (program : ℕ → Worker → List Call)
    (plain : (n : ℕ) (v : Worker) → All IsPlain (program n v)) (w : Worker)
    → Kept u
        (waiting u w)
        (process_job_queue flushed program w).0
        (waiting u (process_job_queue flushed program w).1)
process-Kept false flushed program plain w =
    let (normal_done, normal_taken, urgent) = process_job_queue-order flushed program plain w in
    ap (λ l. l ++ taken false (process_job_queue flushed program w).0) (sym normal_done)
    ∙ ap (λ l. done false (process_job_queue flushed program w).0 ++ l) normal_taken
process-Kept true flushed program plain w =
    let (rest, urgent_done, urgent_taken) = (process_job_queue-order flushed program plain w).2 in
    let after = (process_job_queue flushed program w).1 in
    ap (λ l. waiting true w ++ l) urgent_taken
    ∙ (sym (append_assoc (waiting true w) rest (waiting true after))
        ∙ ap (λ l. l ++ waiting true after) (sym urgent_done))

PlainStep-Kept :
    (u : Bool) {w v : Worker} {es : List Event}
    → PlainStep w es v
    → Kept u (waiting u w) es (waiting u v)
PlainStep-Kept u (plain_call flushed c p) = call-Kept u flushed c _ p
PlainStep-Kept u (plain_process flushed program plain) = process-Kept u flushed program plain _

-- Whatever calls and runs of its job queues a worker has seen, as long as no job flushes the queues while
-- it runs: for each of its two queues, the jobs that it held and then took are, in this order, those that
-- were taken from it and run or skipped and those that it holds.
pub PlainReach-Kept :
    (u : Bool) {w v : Worker} {es : List Event}
    → PlainReach w es v
    → Kept u (waiting u w) es (waiting u v)
PlainReach-Kept u {w = w} start = append-nil (waiting u w)
PlainReach-Kept u {w = w} (then_step {es = es} {fs = fs} {v = v} {x = x} r st) =
    Kept-append u (waiting u w) (waiting u v) (waiting u x) es fs (PlainReach-Kept u r)
      (PlainStep-Kept u st)
