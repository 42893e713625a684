-- ===== src/Worker.antt =====
-- worker/CBaseWorker.cpp, public/fdbus/CBaseWorker.h and public/fdbus/CBaseJob.h: the job queues of a
-- worker. A job is what the code tells apart: its flag `JOB_FORCE_RUN`, and whether it is an exit
-- request, the end of a discard, or one that the worker does not know. What a run shows is a list of
-- events. The event loop is there: the constructor makes one.
pub mod Fifo
pub mod Order
pub mod Once
pub mod Bounds
pub mod Discard
use fdbus.Prelude.{
  ℕ, zero, suc, ◌+◌, ◌-◌, ltb, ◌==◌, if◌then◌else◌, not, ◌&&◌, ◌||◌, Bool, true, false, List, [],
  ◌∷◌, ◌++◌, length,
}

pub data Work : Type 0 where
  user : ℕ → Work
  exit_request : ℕ → Work
  unlock_job_queue : Work

pub record Job : Type 0 where
  pub work : Work
  pub force_run : Bool

pub record JobQueue : Type 0 where
  pub max_size : ℕ
  pub discard_cnt : ℕ
  pub jobs : List Job

pub record Worker : Type 0 where
  pub exit_code : ℕ
  pub normal : JobQueue
  pub urgent : JobQueue

-- What becomes of a job, with the queue it was sent to: `true` is the urgent one.
pub data Event : Type 0 where
  accepted : Bool → Job → Event
  refused : Bool → Job → Event
  ran : Bool → Job → Event
  skipped : Bool → Job → Event

abbrev pub new_job_queue : ℕ → JobQueue
new_job_queue max_size = record { max_size = max_size; discard_cnt = 0; jobs = [] }

abbrev pub new_worker : ℕ → ℕ → Worker
new_worker normal_size urgent_size = record {
  exit_code = 0;
  normal = new_job_queue normal_size;
  urgent = new_job_queue urgent_size;
}

abbrev pub has_room : JobQueue → Bool
has_room q = (q.max_size == 0) || ltb (length q.jobs) q.max_size

unfoldable pub enqueue : Job → JobQueue → Bool × JobQueue
enqueue job q = if has_room q then (true, record q { jobs = q.jobs ++ job ∷ [] }) else (false, q)

unfoldable pub dump_jobs : JobQueue → List Job × JobQueue
dump_jobs q = (q.jobs, record q { jobs = [] })

-- `CJobQueue::discardJobs`
unfoldable pub start_discard : JobQueue → JobQueue
start_discard q = record q { discard_cnt = q.discard_cnt + 1 }

unfoldable pub pickup_jobs : JobQueue → JobQueue
pickup_jobs q = if ltb 0 q.discard_cnt then record q { discard_cnt = q.discard_cnt - 1 } else q

abbrev pub job_discarded : JobQueue → Bool
job_discarded q = ltb 0 q.discard_cnt

abbrev pub queue_of : Bool → Worker → JobQueue
queue_of true w = w.urgent
queue_of false w = w.normal

abbrev pub with_queue : Bool → JobQueue → Worker → Worker
with_queue true q w = record w { urgent = q }
with_queue false q w = record w { normal = q }

unfoldable pub send : Bool → Job → Worker → Bool × Worker
send urgent job w =
    let (sent, q) = enqueue job (queue_of urgent w) in
    if not (w.exit_code == 0) then (false, w) else (sent, with_queue urgent q w)

unfoldable pub update_discard_status : Bool → Bool → Worker → Worker
update_discard_status discard urgent w =
    let q = queue_of urgent w in
    with_queue urgent (if discard then start_discard q else pickup_jobs q) w

abbrev pub unlock_job : Job
unlock_job = record { work = unlock_job_queue; force_run = true }

abbrev pub exit_job : ℕ → Job
exit_job code = record { work = exit_request code; force_run = true }

abbrev pub outcome : Bool → Job → Bool → List Event
outcome urgent job sent = (if sent then accepted urgent job else refused urgent job) ∷ []

-- `CBaseWorker::discardJobs`
unfoldable pub discard_jobs : Bool → Worker → List Event × Worker
discard_jobs urgent w =
    let (sent, after) = send urgent unlock_job (update_discard_status true urgent w) in
    (
      outcome urgent unlock_job sent,
      if sent then after else update_discard_status false urgent after,
    )

-- What may be asked of a worker while a job runs, by the job or by another thread. `flush` is that of the
-- worker's own thread, which handles the queues at once; another thread sends a job and waits for it.
pub data Call : Type 0 where
  send_async : Bool → Job → Call
  exit : ℕ → Call
  discard_queued_jobs : Bool → Call
  flush : Call

-- `flushed` is what a flush does.
module _ (flushed : Worker → List Event × Worker) where
  unfoldable pub perform : Call → Worker → List Event × Worker
  perform (send_async urgent job) w =
      let (sent, after) = send urgent job w in (outcome urgent job sent, after)
  perform (exit code) w =
      let (sent, after) = send false (exit_job code) w in
      (outcome false (exit_job code) sent, after)
  perform (discard_queued_jobs urgent) w = discard_jobs urgent w
  perform flush w = flushed w

  unfoldable pub perform_all : List Call → Worker → List Event × Worker
  perform_all [] w = ([], w)
  perform_all (c ∷ cs) w =
      let (events, after) = perform c w in
      let (more, end) = perform_all cs after in (events ++ more, end)

  -- `program` gives what is called while a job that the worker does not know runs.
  module _ (program : ℕ → Worker → List Call) where
    unfoldable pub run_work : Work → Bool → Worker → List Event × Worker
    run_work (user n) urgent w = perform_all (program n w) w
    run_work (exit_request code) urgent w = ([], record w { exit_code = code })
    run_work unlock_job_queue urgent w = ([], update_discard_status false urgent w)

    unfoldable pub run_one_job : Bool → Job → Bool → Worker → List Event × Worker
    run_one_job urgent job run_job w =
        let (events, after) = run_work job.work urgent w in
        if run_job then (ran urgent job ∷ events, after) else (skipped urgent job ∷ [], w)

    unfoldable pub run_urgent_jobs : List Job → Worker → List Event × Worker
    run_urgent_jobs [] w = ([], w)
    run_urgent_jobs (job ∷ jobs) w =
        let run_job = not (job_discarded w.urgent) || job.force_run in
        let (events, after) = run_one_job true job run_job w in
        let (more, end) = run_urgent_jobs jobs after in (events ++ more, end)

    unfoldable pub process_urgent_jobs : Worker → List Event × Worker
    process_urgent_jobs w =
        let (jobs, q) = dump_jobs w.urgent in run_urgent_jobs jobs (record w { urgent = q })

    unfoldable pub run_normal_job : Job → Worker → List Event × Worker
    run_normal_job job w =
        let run_job = (not (job_discarded w.normal) || job.force_run) && (w.exit_code == 0) in
        run_one_job false job run_job w

    -- The loop over the normal jobs, with the call after it.
    unfoldable pub run_normal_jobs : List Job → Worker → List Event × Worker
    run_normal_jobs [] w = process_urgent_jobs w
    run_normal_jobs (job ∷ jobs) w =
        let (events, before) = process_urgent_jobs w in
        let (own, after) = run_normal_job job before in
        let (more, end) = run_normal_jobs jobs after in (events ++ (own ++ more), end)

    unfoldable pub process_job_queue : Worker → List Event × Worker
    process_job_queue w =
        let (normal_jobs, normal) = dump_jobs w.normal in
        let (urgent_jobs, urgent) = dump_jobs w.urgent in
        let (events, after) =
          run_urgent_jobs urgent_jobs (record w { normal = normal; urgent = urgent }) in
        let (more, end) = run_normal_jobs normal_jobs after in (events ++ more, end)

-- `processJobQueue`, where flushes by jobs nest up to a depth: a deeper one returns at once. Any run that
-- ends is one of some depth.
unfoldable pub process_nested : (ℕ → Worker → List Call) → ℕ → Worker → List Event × Worker
process_nested program zero = process_job_queue (λ w. ([], w)) program
process_nested program (suc depth) = process_job_queue (process_nested program depth) program
