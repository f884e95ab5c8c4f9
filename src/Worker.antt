-- ===== src/Worker.antt =====
-- worker.h and worker.cpp: a worker takes batches of tasks from its queue and answers them.
-- A batch whose `reactor` is null carries nothing else that is read: it is `stop_marker`.
pub mod Answers
pub mod Lines
pub mod Pool
pub mod Stop
pub mod Interface
use vector_engine.Common.{
  ℕ, zero, suc, ◌+◌, ◌%◌, ◌^◌, Bool, true, false, List, [], ◌∷◌, ◌++◌, Option, none, some, Bytes,
  codes, ltb, ◌==◌, if◌then◌else◌,
}
use vector_engine.Common.Maps.{update}
use vector_engine.Errors.{Error, Outcome, ok, throws, undefined, diverges, engine, ◌>>=◌}
use vector_engine.Task.{Task, TaskOutput, run}
use vector_engine.Handle.{UPtr}
use vector_engine.Protocol.{ResponseBuilder, build}

pub data BatchTask : Type 0 where
  batch : ℕ → List Task → ResponseBuilder → BatchTask
  stop_marker : BatchTask

pub record Reply : Type 0 where
  pub connection_id : ℕ
  pub reply : Bytes

-- What the mutex of a worker guards.
pub record Worker : Type 0 where
  pub tasks : List BatchTask

abbrev pub WorkerUPtr : Type 0
WorkerUPtr = UPtr Worker

-- The constructor, which starts the thread of `run_worker`.
unfoldable pub make_worker : Worker
make_worker = record { tasks = [] }

unfoldable pub submit : Worker → BatchTask → Worker
submit w task = record { tasks = w.tasks ++ task ∷ [] }

unfoldable pub stop_worker : Worker → Worker
unfolding submit
stop_worker w = submit w stop_marker

-- `_fetch_tasks`, once the queue is not empty: it is swapped for an empty one.
unfoldable pub fetch_tasks : Worker → List BatchTask × Worker
fetch_tasks w = (w.tasks, record { tasks = [] })

module _ (to_mcp_reply : TaskOutput → Bytes) where
  -- The loop of `_run_batch_task`.
  pub run_tasks : Bytes → List Task → ResponseBuilder → Bytes
  run_tasks reply [] builder = reply
  run_tasks reply (t ∷ ts) builder =
      run_tasks (reply ++ build to_mcp_reply builder (run t)) ts builder

  unfoldable pub run_batch_task : ℕ → List Task → ResponseBuilder → Reply
  unfolding run_tasks
  run_batch_task id ts builder = record { connection_id = id; reply = run_tasks [] ts builder }

  -- One round of `_run` over the batches that it fetched: the vectors that it hands to
  -- `Reactor::send`, one for each call, and whether the thread stops. A vector that has been
  -- moved into a call is empty after it.
  unfoldable pub run_round : List BatchTask → List Reply → Bool → List (List Reply) × Bool
  run_round [] replies stop = ([], stop)
  run_round (stop_marker ∷ bs) replies stop = run_round bs replies true
  run_round (batch id ts builder ∷ bs) replies stop =
      let (sends, stop') = run_round bs [] stop in
      ((replies ++ run_batch_task id ts builder ∷ []) ∷ sends, stop')

  -- `_run`: the rounds over what the thread fetches, one queue after another, and its calls of
  -- `Reactor::send`. It ends behind a round that stops it; behind the last one it waits for a
  -- batch for ever.
  unfoldable pub run_worker : List (List BatchTask) → Outcome (List (List Reply))
  unfolding run_round
  run_worker [] = diverges
  run_worker (tasks ∷ rest) =
      let later = run_worker rest in
      let (sends, stop) = run_round tasks [] false in
      if stop then ok sends else (later >>= λ more. ok (sends ++ more))

  -- The destructor: `join` returns when the thread has ended, which first answers what it has at
  -- hand and then fetches the whole queue, with the marker.
  unfoldable pub delete_worker : List BatchTask → Worker → Outcome (List (List Reply))
  unfolding run_worker stop_worker fetch_tasks
  delete_worker at_hand w = run_worker (at_hand ∷ (fetch_tasks (stop_worker w)).0 ∷ [])

-- `_workers`: `size` of them, a null pointer once it was stopped.
pub record WorkerPool : Type 0 where
  pub size : ℕ
  pub workers : ℕ → WorkerUPtr

-- `std::shared_ptr<WorkerPool>`, which the program makes and the reactor keeps: it is never null.
abbrev pub WorkerPoolSPtr : Type 0
WorkerPoolSPtr = WorkerPool

pub empty_pool : Error
empty_pool = record { msg = codes "size of worker pool must larger than 0" }

pub worker_stopped : Error
worker_stopped = record { msg = codes "worker has been stopped" }

-- The loop of the constructor; `idx` is an unsigned int of 32 bits.
unfoldable pub push_workers : ℕ → ℕ → ℕ → WorkerPool → Outcome WorkerPool
push_workers zero num idx pool = diverges
push_workers (suc fuel) num idx pool =
    let rest = push_workers fuel num ((idx + 1) % 2 ^ 32) (record {
      size = pool.size + 1;
      workers = update pool.workers pool.size (some make_worker);
    }) in
    if idx == num then ok pool else rest

unfoldable pub make_pool : ℕ → Outcome WorkerPool
unfolding push_workers
make_pool num =
    if num == 0
    then throws (engine empty_pool)
    else push_workers (suc num) num 0 (record { size = 0; workers = λ _. none })

unfoldable pub or_stopped : WorkerUPtr → Outcome Worker
or_stopped none = throws (engine worker_stopped)
or_stopped (some w) = ok w

-- `WorkerPool::fetch`, with the index of the worker.
unfoldable pub fetch : WorkerPool → ℕ → Outcome (ℕ × Worker)
fetch pool id =
    if ltb 0 pool.size
    then (or_stopped (pool.workers (id % pool.size)) >>= λ w. ok (id % pool.size, w))
    else undefined

module _ (to_mcp_reply : TaskOutput → Bytes) (hands : ℕ → List BatchTask) where
  -- `worker->stop()` and `worker = nullptr`, which runs the destructor. The worker has `at_hand`
  -- fetched and not yet answered.
  unfoldable pub stop_and_delete : List BatchTask → WorkerUPtr → Outcome (List (List Reply))
  stop_and_delete at_hand none = ok []
  stop_and_delete at_hand (some w) = delete_worker to_mcp_reply at_hand (stop_worker w)

  -- The workers before index `i` are stopped and their pointers are null; with their calls of
  -- `Reactor::send`.
  unfoldable pub stop_from : ℕ → WorkerPool → Outcome (List (List Reply) × WorkerPool)
  unfolding stop_and_delete
  stop_from zero pool = ok ([], pool)
  stop_from (suc i) pool = do
    (sends, p) ← stop_from i pool
    more ← stop_and_delete (hands i) (p.workers i)
    ok (sends ++ more, record p { workers = update p.workers i none })

  -- `WorkerPool::stop`, also as its destructor calls it.
  unfoldable pub stop_pool : WorkerPool → Outcome (List (List Reply) × WorkerPool)
  unfolding stop_from
  stop_pool pool = stop_from pool.size pool
