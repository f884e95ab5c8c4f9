-- ===== src/Worker/Stop.antt =====
-- `WorkerPool::stop` of worker.cpp: who is stopped, and what is still answered.
use vector_engine.Common.{
  ℕ, zero, suc, ◌%◌, ◌<◌, ◌≤◌, ◌≡◌, ◌≢◌, refl, sym, ap, subst, ◌∙◌, false, List, [], ◌∷◌, ◌++◌,
  append-nil, Bytes, none, some, arith, ◌==◌, ==_iff, ==_ne, ==_false, Bool-cases, inl, inr, lt→ltb,
}
use mathlib.Core.List.{cons-ne-nil}
use vector_engine.Common.Maps.{update}
use vector_engine.Errors.{ok, throws, engine, ok-injective, ok_pair-injective}
use vector_engine.Task.{TaskOutput}
use vector_engine.Worker.{
  BatchTask, stop_marker, Reply, Worker, WorkerUPtr, WorkerPool, submit, stop_worker, fetch_tasks,
  run_round, run_worker, delete_worker, stop_and_delete, stop_from, stop_pool, fetch, or_stopped,
  worker_stopped,
}
use vector_engine.Worker.Answers.{
  batch_replies, has_stop_marker, sent, delete_worker-replies, batch_replies-append,
}

module _ (to_mcp_reply : TaskOutput → Bytes) (hands : ℕ → List BatchTask) where
  -- Worker `i` has no batch to answer.
  abbrev pub IsFree : WorkerPool → ℕ → Type 0
  IsFree pool i = (hands i ≡ []) × ((w : Worker) → pool.workers i ≡ some w → w.tasks ≡ [])

  -- Worker `i` runs, was not told to stop, and has a batch to answer.
  pub record IsBusy (pool : WorkerPool) (i : ℕ) : Type 0 where
    pub worker : Worker
    pub runs : pool.workers i ≡ some worker
    pub unmarked : has_stop_marker to_mcp_reply (hands i) ≡ false
    pub some_batch :
        batch_replies to_mcp_reply (hands i) ++ batch_replies to_mcp_reply worker.tasks ≢ []

  -- The pool when the workers before index `n` are stopped.
  pub record Stopped (n : ℕ) (pool : WorkerPool) : Type 0 where
    pub sends : List (List Reply)
    pub left : WorkerPool
    pub done : stop_from to_mcp_reply hands n pool ≡ ok (sends, left)
    pub same_size : left.size ≡ pool.size
    pub gone : (i : ℕ) → i < n → left.workers i ≡ none
    pub others : (i : ℕ) → n ≤ i → left.workers i ≡ pool.workers i
    pub silent : ((i : ℕ) → i < n → IsFree pool i) → sends ≡ []
    pub speaks : (i : ℕ) → i < n → IsBusy pool i → sends ≢ []

  stop_and_delete-ok :
      (at_hand : List BatchTask) (o : WorkerUPtr)
      → (sends : List (List Reply)) × (stop_and_delete to_mcp_reply hands at_hand o ≡ ok sends)
  unfolding stop_and_delete
  stop_and_delete-ok at_hand none = ([], refl)
  stop_and_delete-ok at_hand (some w) =
      let (sends, e, _) = delete_worker-replies to_mcp_reply at_hand (stop_worker w) in (sends, e)

  stop_and_delete_free :
      (at_hand : List BatchTask) (o : WorkerUPtr)
      → at_hand ≡ []
      → ((w : Worker) → o ≡ some w → w.tasks ≡ [])
      → stop_and_delete to_mcp_reply hands at_hand o ≡ ok []
  unfolding stop_and_delete delete_worker stop_worker submit fetch_tasks run_worker run_round
  stop_and_delete_free at_hand none e free = refl
  stop_and_delete_free at_hand (some w) e free = rw (e, free w refl) refl

  stop_and_delete_busy :
      (at_hand : List BatchTask) (w : Worker) {sends : List (List Reply)}
      → has_stop_marker to_mcp_reply at_hand ≡ false
      → batch_replies to_mcp_reply at_hand ++ batch_replies to_mcp_reply w.tasks ≢ []
      → stop_and_delete to_mcp_reply hands at_hand (some w) ≡ ok sends
      → sends ≢ []
  unfolding stop_and_delete stop_worker submit
  stop_and_delete_busy at_hand w {sends} unmarked some_batch e none_sent =
      let (sends', e', replied) = delete_worker-replies to_mcp_reply at_hand (stop_worker w) in
      let same = ok-injective (sym e' ∙ e) in
      some_batch (
        ap (λ rs. batch_replies to_mcp_reply at_hand ++ rs)
          (sym (
            batch_replies-append to_mcp_reply w.tasks (stop_marker ∷ [])
            ∙ append-nil (batch_replies to_mcp_reply w.tasks)))
        ∙ sym (rw unmarked at replied)
        ∙ ap (sent to_mcp_reply) (same ∙ none_sent))

  both_nil {ℓ} : {A : Type ℓ} (xs ys : List A) → xs ++ ys ≡ [] → (xs ≡ []) × (ys ≡ [])
  both_nil [] ys e = (refl, e)
  both_nil (x ∷ xs) ys e = absurd (cons-ne-nil x (xs ++ ys) e)

  pub stop_from-ok : (n : ℕ) (pool : WorkerPool) → Stopped n pool
  unfolding stop_from
  stop_from-ok zero pool = record {
    sends = [];
    left = pool;
    done = refl;
    same_size = refl;
    gone = λ i lt. absurd (omega arith);
    others = λ i le. refl;
    silent = λ free. refl;
    speaks = λ i lt. absurd (omega arith);
  }
  stop_from-ok (suc n) pool =
      let t = stop_from-ok n pool in
      let (more, e) = stop_and_delete-ok (hands n) (t.left.workers n) in
      let same = t.others n (omega arith) in
      record {
        sends = t.sends ++ more;
        left = record t.left { workers = update t.left.workers n none };
        done = rw (t.done, e) refl;
        same_size = t.same_size;
        gone = λ i lt. elim (Bool-cases (n == i)) [
          | inl here ↦ rw here
          | inr other ↦ rw other (t.gone i (omega (arith, lt, ==_ne n i other)))
        ];
        others = λ i le. rw (==_false n i (omega (arith, le))) (t.others i (omega (arith, le)));
        silent = λ free.
            let (empty, idle) = free n (omega arith) in
            rw
              (
                t.silent (λ i lt. free i (omega (arith, lt))),
                ok-injective (
                    sym e
                    ∙ stop_and_delete_free (hands n) (t.left.workers n) empty
                        (λ w found. idle w (sym same ∙ found))),
              )
              refl;
        speaks = λ i lt busy none_sent.
            let (before, now) = both_nil t.sends more none_sent in
            elim (Bool-cases (n == i)) [
              | inl here ↦
                  let at_n = subst (IsBusy pool) (sym ((==_iff n i).0 here)) busy in
                  stop_and_delete_busy (hands n) at_n.worker at_n.unmarked at_n.some_batch
                    (ap (stop_and_delete to_mcp_reply hands (hands n)) (sym (same ∙ at_n.runs)) ∙ e)
                    now
              | inr other ↦ t.speaks i (omega (arith, lt, ==_ne n i other)) busy before
            ];
      }

  -- After `stop` of a pool that has workers, every `fetch` throws.
  pub fetch-stop_pool :
      (pool : WorkerPool) (id : ℕ) {sends : List (List Reply)} {p : WorkerPool}
      → 0 < pool.size
      → stop_pool to_mcp_reply hands pool ≡ ok (sends, p)
      → fetch p id ≡ throws (engine worker_stopped)
  unfolding fetch stop_pool or_stopped
  fetch-stop_pool pool id {sends} {p} some_worker e =
      let t = stop_from-ok pool.size pool in
      let (_, same) = ok_pair-injective (sym t.done ∙ e) in
      subst (λ (q : WorkerPool). fetch q id ≡ throws (engine worker_stopped)) same
        (rw (
          t.same_size,
          lt→ltb 0 pool.size some_worker,
          t.gone (id % pool.size) (omega (arith, some_worker)),
        ))
