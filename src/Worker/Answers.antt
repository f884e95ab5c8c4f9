-- ===== src/Worker/Answers.antt =====
-- A round of a worker in worker.cpp.
use vector_engine.Common.{
  ap, if◌then◌else◌, ℕ, ◌≡◌, refl, sym, ap₂, ◌∙◌, Bool, true, false, ◌||◌, List, [], ◌∷◌, ◌++◌,
  append-nil, append_assoc, Bytes, Bool-cases, inl, inr,
}
use vector_engine.Errors.{ok, ◌>>=◌}
use vector_engine.Task.{Task, TaskOutput, run}
use vector_engine.Protocol.{ResponseBuilder, build}
use vector_engine.Worker.{
  BatchTask, batch, stop_marker, Reply, Worker, submit, stop_worker, fetch_tasks, run_tasks,
  run_batch_task, run_round, run_worker, delete_worker,
}

module _ (to_mcp_reply : TaskOutput → Bytes) where
  -- The answers to tasks, one behind another.
  abbrev pub answers : ResponseBuilder → List Task → Bytes
  answers builder [] = []
  answers builder (t ∷ ts) = build to_mcp_reply builder (run t) ++ answers builder ts

  run_tasks-answers :
      (reply : Bytes) (ts : List Task) (builder : ResponseBuilder)
      → run_tasks to_mcp_reply reply ts builder ≡ reply ++ answers builder ts
  unfolding run_tasks
  run_tasks-answers reply [] builder = sym (append-nil reply)
  run_tasks-answers reply (t ∷ ts) builder =
      run_tasks-answers (reply ++ build to_mcp_reply builder (run t)) ts builder
      ∙ append_assoc reply (build to_mcp_reply builder (run t)) (answers builder ts)

  -- The reply to a batch carries its connection's id and the answers to its tasks, one behind
  -- another in their order.
  pub run_batch_task-answers :
      (id : ℕ) (ts : List Task) (builder : ResponseBuilder)
      → run_batch_task to_mcp_reply id ts builder
        ≡ record { connection_id = id; reply = answers builder ts }
  unfolding run_batch_task
  run_batch_task-answers id ts builder = rw (run_tasks-answers [] ts builder)

  -- The replies to the batches of a list, in order; a stop marker has none.
  abbrev pub batch_replies : List BatchTask → List Reply
  batch_replies [] = []
  batch_replies (stop_marker ∷ bs) = batch_replies bs
  batch_replies (batch id ts builder ∷ bs) =
      record { connection_id = id; reply = answers builder ts } ∷ batch_replies bs

  abbrev pub has_stop_marker : List BatchTask → Bool
  has_stop_marker [] = false
  has_stop_marker (stop_marker ∷ bs) = true
  has_stop_marker (batch id ts builder ∷ bs) = has_stop_marker bs

  -- The replies that the calls of a round carry together, in order.
  abbrev pub sent : List (List Reply) → List Reply
  sent [] = []
  sent (rs ∷ rest) = rs ++ sent rest

  -- A round of a worker sends one reply for each batch that it fetched, in order, also for the
  -- batches behind a stop marker, and the thread stops when it was stopping or the round held a
  -- marker.
  pub run_round-replies :
      (bs : List BatchTask) (stop : Bool)
      → (sent (run_round to_mcp_reply bs [] stop).0 ≡ batch_replies bs)
        × ((run_round to_mcp_reply bs [] stop).1 ≡ (stop || has_stop_marker bs))
  unfolding run_round
  run_round-replies [] true = (refl, refl)
  run_round-replies [] false = (refl, refl)
  run_round-replies (stop_marker ∷ bs) true = run_round-replies bs true
  run_round-replies (stop_marker ∷ bs) false = run_round-replies bs true
  run_round-replies (batch id ts builder ∷ bs) stop = (
    ap₂ (λ r rs. r ∷ rs) (run_batch_task-answers id ts builder) (run_round-replies bs stop).0,
    (run_round-replies bs stop).1,
  )

  pub batch_replies-append :
      (bs cs : List BatchTask) → batch_replies (bs ++ cs) ≡ batch_replies bs ++ batch_replies cs
  batch_replies-append [] cs = refl
  batch_replies-append (stop_marker ∷ bs) cs = batch_replies-append bs cs
  batch_replies-append (batch id ts builder ∷ bs) cs = cc (batch_replies-append bs cs)

  -- One round of the thread, and the rounds behind it.
  run_worker_round :
      (tasks : List BatchTask) (rest : List (List BatchTask)) (stop : Bool)
      → (run_round to_mcp_reply tasks [] false).1 ≡ stop
      → run_worker to_mcp_reply (tasks ∷ rest) ≡ (
          if stop
          then ok (run_round to_mcp_reply tasks [] false).0
          else (run_worker to_mcp_reply rest >>= λ more.
              ok ((run_round to_mcp_reply tasks [] false).0 ++ more)))
  unfolding run_worker
  run_worker_round tasks rest stop e = rw e refl

  sent-append : (xs ys : List (List Reply)) → sent (xs ++ ys) ≡ sent xs ++ sent ys
  sent-append [] ys = refl
  sent-append (x ∷ xs) ys =
      ap (λ rs. x ++ rs) (sent-append xs ys) ∙ sym (append_assoc x (sent xs) (sent ys))

  has_stop_marker-append : (bs : List BatchTask) → has_stop_marker (bs ++ stop_marker ∷ []) ≡ true
  has_stop_marker-append [] = refl
  has_stop_marker-append (stop_marker ∷ bs) = refl
  has_stop_marker-append (batch id ts builder ∷ bs) = has_stop_marker-append bs

  -- The destructor of a worker returns, since its thread ends, also while the thread answers
  -- batches that it has fetched before: those at hand are answered, in order, and then every
  -- batch that is in the queue, in order, unless a stop marker among those at hand ends the
  -- thread first.
  pub delete_worker-replies :
      (at_hand : List BatchTask) (w : Worker)
      → (sends : List (List Reply)) × (delete_worker to_mcp_reply at_hand w ≡ ok sends)
        × (sent sends
            ≡ batch_replies at_hand
              ++ (if has_stop_marker at_hand then [] else batch_replies w.tasks))
  unfolding delete_worker stop_worker fetch_tasks submit
  delete_worker-replies at_hand w =
      let queue = w.tasks ++ stop_marker ∷ [] in
      let (now, ends_now) = run_round-replies at_hand false in
      let (later, ends) = run_round-replies queue false in
      let last = run_worker_round queue [] true (ends ∙ has_stop_marker-append w.tasks) in
      let replied =
        later
        ∙ batch_replies-append w.tasks (stop_marker ∷ [])
        ∙ append-nil (batch_replies w.tasks) in
      elim (Bool-cases (has_stop_marker at_hand)) [
        | inl stops ↦ (
          (run_round to_mcp_reply at_hand [] false).0,
          run_worker_round at_hand (queue ∷ []) true (ends_now ∙ stops),
          rw stops (now ∙ sym (append-nil (batch_replies at_hand))),
        )
        | inr runs ↦ (
          (run_round to_mcp_reply at_hand [] false).0 ++ (run_round to_mcp_reply queue [] false).0,
          run_worker_round at_hand (queue ∷ []) false (ends_now ∙ runs) ∙ rw last refl,
          rw runs (
              sent-append (run_round to_mcp_reply at_hand [] false).0
                (run_round to_mcp_reply queue [] false).0
              ∙ ap₂ ◌++◌ now replied),
        )
      ]
