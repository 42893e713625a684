-- ===== src/Worker/Discard.antt =====
-- `CBaseWorker::discardQueuedJobs` and what the worker then runs (worker/CBaseWorker.cpp).
use fdbus.Prelude.{
  ℕ, ◌≡◌, refl, sym, ◌∙◌, ap, arith, Bool, true, false, List, [], ◌∷◌, ◌++◌, append_assoc,
  append-nil,
}
use fdbus.Worker.{
  user, Job, Worker, Event, ran, skipped, enqueue, dump_jobs, start_discard, pickup_jobs, send,
  update_discard_status, discard_jobs, Call, send_async, perform, perform_all, run_work,
  run_one_job, run_urgent_jobs, process_urgent_jobs, run_normal_job, run_normal_jobs,
  process_job_queue, unlock_job, new_job_queue, has_room, queue_of, refused,
}

-- A job of a user, which does not ask to be run in any case.
abbrev pub user_job : ℕ → Job
user_job n = record { work = user n; force_run = false }

-- A worker without limits, with jobs in its normal queue only.
abbrev pub loaded : ℕ → List Job → Worker
loaded cnt jobs = record {
  exit_code = 0;
  normal = record { max_size = 0; discard_cnt = cnt; jobs = jobs };
  urgent = new_job_queue 0;
}

abbrev pub send_all : List ℕ → List Call
send_all [] = []
send_all (n ∷ ns) = send_async false (user_job n) ∷ send_all ns

abbrev pub user_jobs : List ℕ → List Job
user_jobs [] = []
user_jobs (n ∷ ns) = user_job n ∷ user_jobs ns

abbrev pub all_skipped : List ℕ → List Event
all_skipped [] = []
all_skipped (n ∷ ns) = skipped false (user_job n) ∷ all_skipped ns

abbrev pub all_ran : List ℕ → List Event
all_ran [] = []
all_ran (n ∷ ns) = ran false (user_job n) ∷ all_ran ns

perform_all-send_all :
    (flushed : Worker → List Event × Worker) (ns : List ℕ) (cnt : ℕ) (jobs : List Job)
    → (perform_all flushed (send_all ns) (loaded cnt jobs)).1 ≡ loaded cnt (jobs ++ user_jobs ns)
unfolding perform_all perform send enqueue
perform_all-send_all flushed [] cnt jobs = ap (loaded cnt) (sym (append-nil jobs))
perform_all-send_all flushed (n ∷ ns) cnt jobs =
    perform_all-send_all flushed ns cnt (jobs ++ user_job n ∷ [])
    ∙ ap (loaded cnt) (append_assoc jobs (user_job n ∷ []) (user_jobs ns))

module _ (flushed : Worker → List Event × Worker) (program : ℕ → Worker → List Call)
    (quiet : (n : ℕ) (w : Worker) → program n w ≡ []) where
  skip_all :
      (ns : List ℕ) (jobs held : List Job)
      → (run_normal_jobs flushed program (user_jobs ns ++ jobs) (loaded 1 held)).0
        ≡ all_skipped ns ++ (run_normal_jobs flushed program jobs (loaded 1 held)).0
  unfolding run_normal_jobs process_urgent_jobs run_urgent_jobs dump_jobs run_normal_job run_one_job
  skip_all [] jobs held = refl
  skip_all (n ∷ ns) jobs held = ap (λ l. skipped false (user_job n) ∷ l) (skip_all ns jobs held)

  run_all :
      (ns : List ℕ) (held : List Job)
      → (run_normal_jobs flushed program (user_jobs ns) (loaded 0 held)).0 ≡ all_ran ns
  unfolding run_normal_jobs process_urgent_jobs run_urgent_jobs dump_jobs run_normal_job run_one_job
      run_work perform_all
  run_all [] held = refl
  run_all (n ∷ ns) held =
      let start = loaded 0 held in
      let turn : List Call → List Event = λ calls.
        (ran false (user_job n) ∷ (perform_all flushed calls start).0)
        ++ (run_normal_jobs flushed program (user_jobs ns) (perform_all flushed calls start).1).0 in
      ap turn (quiet n start) ∙ ap (λ l. ran false (user_job n) ∷ l) (run_all ns held)

  -- In a worker without limits that has only user jobs waiting, none of which sends anything: after these
  -- are discarded and others are sent, the next run of the queues skips the first, ends the discard and
  -- runs the others, all in order.
  pub discard_jobs-skips :
      (before later : List ℕ)
      → (process_job_queue flushed program
          (perform_all flushed
            (send_all later)
            (discard_jobs false (loaded 0 (user_jobs before))).1).1).0
        ≡ all_skipped before ++ ran false unlock_job ∷ all_ran later
  unfolding process_job_queue run_normal_jobs process_urgent_jobs run_urgent_jobs dump_jobs
      run_normal_job run_one_job run_work discard_jobs update_discard_status start_discard
      pickup_jobs send enqueue
  discard_jobs-skips before later =
      let held = user_jobs before ++ unlock_job ∷ [] in
      let process : Worker → List Event = λ w. (process_job_queue flushed program w).0 in
      let run : List Job → List Event =
        λ jobs. (run_normal_jobs flushed program jobs (loaded 1 [])).0 in
      ap process (perform_all-send_all flushed later 1 held)
      ∙ (ap run (append_assoc (user_jobs before) (unlock_job ∷ []) (user_jobs later))
          ∙ (skip_all before (unlock_job ∷ user_jobs later) []
              ∙ ap (λ l. all_skipped before ++ ran false unlock_job ∷ l) (run_all later [])))

-- Discarding the jobs of a queue that has no room is refused and leaves the worker as it was.
pub discard_jobs-full :
    (u : Bool) (w : Worker)
    → has_room (queue_of u w) ≡ false
    → discard_jobs u w ≡ (refused u unlock_job ∷ [], w)
unfolding discard_jobs update_discard_status start_discard pickup_jobs send enqueue
discard_jobs-full true w h = ground (arith, h)
discard_jobs-full false w h = ground (arith, h)
