-- ===== src/Worker/Interface.antt =====
-- The classes of worker.h, with what they promise; and worker.cpp as such.
use vector_engine.Common.{ℕ, ◌<◌, ◌^◌, ◌≡◌, ◌≢◌, List, [], ◌++◌, if◌then◌else◌, Bytes}
use vector_engine.Errors.{Outcome, ok, throws, engine}
use vector_engine.Task.{Task, TaskOutput}
use vector_engine.Protocol.{ResponseBuilder}
use vector_engine.Worker.{
  BatchTask, Reply, Worker, make_worker, submit, stop_worker, fetch_tasks, run_batch_task,
  run_worker, delete_worker, WorkerPool, empty_pool, worker_stopped, make_pool, fetch, stop_pool,
}
use vector_engine.Worker.Answers.{
  answers, batch_replies, has_stop_marker, sent, run_batch_task-answers, delete_worker-replies,
}
use vector_engine.Worker.Pool.{IsReady, make_pool-IsReady}
use vector_engine.Worker.Stop.{fetch-stop_pool}

module _ (to_mcp_reply : TaskOutput → Bytes) where
  pub record WorkerClass : Type 0 where
    pub new : Worker
    pub delete : List BatchTask → Worker → Outcome (List (List Reply))
    pub take : Worker → BatchTask → Worker
    pub stop : Worker → Worker
    pub thread : List (List BatchTask) → Outcome (List (List Reply))
    pub fetch_all : Worker → List BatchTask × Worker
    pub run_batch : ℕ → List Task → ResponseBuilder → Reply
    pub delete_law :
        (at_hand : List BatchTask) (w : Worker)
        → (sends : List (List Reply)) × (delete at_hand w ≡ ok sends)
          × (sent to_mcp_reply sends
              ≡ batch_replies to_mcp_reply at_hand
                ++ (if has_stop_marker to_mcp_reply at_hand
                    then []
                    else batch_replies to_mcp_reply w.tasks))
    pub run_batch_law :
        (id : ℕ) (ts : List Task) (builder : ResponseBuilder)
        → run_batch id ts builder
          ≡ record { connection_id = id; reply = answers to_mcp_reply builder ts }

  abbrev pub worker_class : WorkerClass
  worker_class = record {
    new = make_worker;
    delete = delete_worker to_mcp_reply;
    take = submit;
    stop = stop_worker;
    thread = run_worker to_mcp_reply;
    fetch_all = fetch_tasks;
    run_batch = run_batch_task to_mcp_reply;
    delete_law = delete_worker-replies to_mcp_reply;
    run_batch_law = run_batch_task-answers to_mcp_reply;
  }

pub record PoolClass : Type 0 where
  pub new : ℕ → Outcome WorkerPool
  pub fetch_worker : WorkerPool → ℕ → Outcome (ℕ × Worker)
  pub stop :
      (TaskOutput → Bytes)
      → (ℕ → List BatchTask)
      → WorkerPool
      → Outcome (List (List Reply) × WorkerPool)
  pub new_law :
      (num : ℕ)
      → num < 2 ^ 32
      → (num ≡ 0 → new num ≡ throws (engine empty_pool))
        × (num ≢ 0 → (p : WorkerPool) × (new num ≡ ok p) × IsReady num p)
  pub stop_law :
      (to_mcp_reply : TaskOutput → Bytes) (hands : ℕ → List BatchTask) (p : WorkerPool) (id : ℕ)
      {sends : List (List Reply)} {p' : WorkerPool}
      → 0 < p.size
      → stop to_mcp_reply hands p ≡ ok (sends, p')
      → fetch_worker p' id ≡ throws (engine worker_stopped)

abbrev pub pool_class : PoolClass
pool_class = record {
  new = make_pool;
  fetch_worker = fetch;
  stop = stop_pool;
  new_law = make_pool-IsReady;
  stop_law = fetch-stop_pool;
}
