-- ===== src/System/Load.antt =====
-- What the workers of worker.cpp hold for one connection: in their queues, and in their hands.
use vector_engine.Common.{
  ℕ, ◌≡◌, ◌≢◌, refl, sym, ap, subst, ◌∙◌, List, [], ◌∷◌, ◌++◌, append-nil, append_assoc, Bytes,
  none, some, ◌==◌, ==_iff, ==_false, Bool-cases, inl, inr, if◌then◌else◌,
}
use vector_engine.Common.Maps.{update}
use vector_engine.Task.{Task, TaskOutput}
use vector_engine.Protocol.{ResponseBuilder}
use vector_engine.Worker.{BatchTask, batch, Worker, WorkerUPtr, submit}
use vector_engine.Worker.Answers.{batch_replies, batch_replies-append}
use vector_engine.Reactor.Send.{replies_to, replies_to-append}

abbrev pub queue_of : WorkerUPtr → List BatchTask
queue_of none = []
queue_of (some w) = w.tasks

module _ (to_mcp_reply : TaskOutput → Bytes) (k : ℕ) where
  -- The answers to the batches of the connection `k`.
  abbrev pub mine : List BatchTask → Bytes
  mine bs = replies_to k (batch_replies to_mcp_reply bs)

  pub mine-append : (bs cs : List BatchTask) → mine (bs ++ cs) ≡ mine bs ++ mine cs
  mine-append bs cs =
      ap (replies_to k) (batch_replies-append to_mcp_reply bs cs)
      ∙ replies_to-append k (batch_replies to_mcp_reply bs) (batch_replies to_mcp_reply cs)

  pub mine-other :
      (id : ℕ) (ts : List Task) (builder : ResponseBuilder)
      → id ≢ k
      → mine (batch id ts builder ∷ []) ≡ []
  mine-other id ts builder other = rw (==_false id k other)

  -- Those that the worker `i` holds: what it has fetched stands before what is in its queue.
  abbrev pub load : (ℕ → List BatchTask) → (ℕ → WorkerUPtr) → ℕ → Bytes
  load hands workers i = mine (hands i ++ queue_of (workers i))

  module _ (hands : ℕ → List BatchTask) (workers : ℕ → WorkerUPtr) (j i : ℕ) where
    pub load-submit :
        (w : Worker) (b : BatchTask)
        → workers j ≡ some w
        → load hands (update workers j (some (submit w b))) i
          ≡ load hands workers i ++ (if j == i then mine (b ∷ []) else [])
    unfolding submit
    load-submit w b e = elim (Bool-cases (j == i)) [
      | inl same ↦
          let e' = subst (λ n. workers n ≡ some w) ((==_iff j i).0 same) e in
          rw (same, e')
            (ap mine (sym (append_assoc (hands i) w.tasks (b ∷ [])))
              ∙ mine-append (hands i ++ w.tasks) (b ∷ []))
      | inr other ↦ rw other (sym (append-nil (load hands workers i)))
    ]

    pub load-fetch :
        (w : Worker)
        → workers j ≡ some w
        → hands j ≡ []
        → load (update hands j w.tasks) (update workers j (some (record { tasks = [] }))) i
          ≡ load hands workers i
    load-fetch w e free = elim (Bool-cases (j == i)) [
      | inl same ↦
          let e' = subst (λ n. workers n ≡ some w) ((==_iff j i).0 same) e in
          let free' = subst (λ n. hands n ≡ []) ((==_iff j i).0 same) free in
          rw (same, e', free') (ap mine (append-nil w.tasks))
      | inr other ↦ rw other refl
    ]

    pub load-answer :
        (b : BatchTask) (bs : List BatchTask)
        → hands j ≡ b ∷ bs
        → load hands workers i
          ≡ (if j == i then mine (b ∷ []) else []) ++ load (update hands j bs) workers i
    load-answer b bs e = elim (Bool-cases (j == i)) [
      | inl same ↦
          let e' = subst (λ n. hands n ≡ b ∷ bs) ((==_iff j i).0 same) e in
          rw (same, e') (mine-append (b ∷ []) (bs ++ queue_of (workers i)))
      | inr other ↦ rw other refl
    ]
