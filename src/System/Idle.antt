-- ===== src/System/Idle.antt =====
-- That a worker of worker.cpp can always take the steps that answer what it holds.
use mathlib.Core.List.{cons-ne-nil}
use vector_engine.Common.{
  ◌⊎◌, inl, inr, ◌≢◌, ℕ, ◌<◌, ◌≡◌, refl, sym, ap, subst, ◌∙◌, List, [], ◌∷◌, Bytes, All, some,
  ==_self,
}
use vector_engine.Common.Maps.{update}
use vector_engine.Task.{TaskOutput}
use vector_engine.Connection.{Connection}
use vector_engine.Worker.{
  Worker, BatchTask, batch, stop_marker, WorkerUPtr, run_batch_task, fetch_tasks,
}
use vector_engine.Reactor.Signals.{send_lem}
use vector_engine.System.{System, Step, Steps, fetches, answers_batch, done, more}
use vector_engine.System.Unmarked.{IsBatch}
use vector_engine.System.Held.{IsHeld-hands}
use vector_engine.System.Load.{queue_of}
use vector_engine.System.Serves.{Serves}
use vector_engine.System.Order.{Step-Serves, Steps-Serves}

nil_cases : (bs : List BatchTask) → (bs ≡ []) ⊎ (bs ≢ [])
nil_cases [] = inl refl
nil_cases (b ∷ bs) = inr (cons-ne-nil b bs)

module _ (to_mcp_reply : TaskOutput → Bytes) (reserve_limit k : ℕ) where
  pub Steps-trans :
      {s s' s'' : System}
      → Steps to_mcp_reply reserve_limit k s s'
      → Steps to_mcp_reply reserve_limit k s' s''
      → Steps to_mcp_reply reserve_limit k s s''
  Steps-trans (done s) steps = steps
  Steps-trans (more step rest) steps = more step (Steps-trans rest steps)

  -- A worker has answered what was in its hands; its queue is as it was.
  record HasAnswered (i : ℕ) (s s' : System) : Type 0 where
    steps : Steps to_mcp_reply reserve_limit k s s'
    same_pool : s'.pool ≡ s.pool
    same_dispatched : s'.dispatched ≡ s.dispatched
    same_reads : s'.reads ≡ s.reads
    empty_hands : s'.hands i ≡ []

  HasAnswered-more :
      {i : ℕ} {s s' s'' : System}
      → Step to_mcp_reply reserve_limit k s s'
      → s'.pool ≡ s.pool
      → s'.dispatched ≡ s.dispatched
      → s'.reads ≡ s.reads
      → HasAnswered i s' s''
      → HasAnswered i s s''
  HasAnswered-more step pool dispatched reads rest = record {
    steps = more step rest.steps;
    same_pool = rest.same_pool ∙ pool;
    same_dispatched = rest.same_dispatched ∙ dispatched;
    same_reads = rest.same_reads ∙ reads;
    empty_hands = rest.empty_hands;
  }

  update_same :
      (hands : ℕ → List BatchTask) (i : ℕ) (bs : List BatchTask) → update hands i bs i ≡ bs
  update_same hands i bs = rw (==_self i) refl

  emptied_queue :
      (workers : ℕ → WorkerUPtr) (i : ℕ)
      → queue_of (update workers i (some (record { tasks = [] })) i) ≡ []
  emptied_queue workers i = rw (==_self i) refl

  answer_all :
      {start : Connection} (bs : List BatchTask) (i : ℕ) (s : System)
      → Serves to_mcp_reply reserve_limit k start s
      → s.hands i ≡ bs
      → (s' : System) × HasAnswered i s s'
  answer_all [] i s inv held = (
    s,
    record {
      steps = done s;
      same_pool = refl;
      same_dispatched = refl;
      same_reads = refl;
      empty_hands = held;
    },
  )
  answer_all (stop_marker ∷ bs) i s inv held =
      absurd
        (subst (All IsBatch) held (IsHeld-hands IsBatch s.hands s.pool.workers i inv.unmarked)).0
  answer_all (batch id ts builder ∷ bs) i s inv held =
      let step =
        answers_batch s i id ts builder bs _ held
          (send_lem (run_batch_task to_mcp_reply id ts builder ∷ []) s.reactor inv.order.wired) in
      let (s', rest) =
        answer_all bs i _ (Step-Serves to_mcp_reply reserve_limit k step inv)
          (update_same s.hands i bs) in
      (s', HasAnswered-more step refl refl refl rest)

  -- A worker has answered its hands and its queue.
  pub record IsIdle (i : ℕ) (s s' : System) : Type 0 where
    pub steps : Steps to_mcp_reply reserve_limit k s s'
    pub same_size : s'.pool.size ≡ s.pool.size
    pub same_dispatched : s'.dispatched ≡ s.dispatched
    pub same_reads : s'.reads ≡ s.reads
    pub empty_hands : s'.hands i ≡ []
    pub empty_queue : queue_of (s'.pool.workers i) ≡ []

  -- A worker whose hands are empty fetches what is in its queue, and answers it.
  round-IsIdle :
      {start : Connection} (i : ℕ) (s : System) (w : Worker)
      → Serves to_mcp_reply reserve_limit k start s
      → s.hands i ≡ []
      → s.pool.workers i ≡ some w
      → (s' : System) × IsIdle i s s'
  unfolding fetch_tasks
  round-IsIdle i s w inv free found = elim (nil_cases w.tasks) [
    | inl nothing ↦ (
      s,
      record {
        steps = done s;
        same_size = refl;
        same_dispatched = refl;
        same_reads = refl;
        empty_hands = free;
        empty_queue = ap queue_of found ∙ nothing;
      },
    )
    | inr something ↦
        let step = fetches s i w found free something in
        let (s', second) =
          answer_all w.tasks i _ (Step-Serves to_mcp_reply reserve_limit k step inv)
            (update_same s.hands i w.tasks) in
        (
          s',
          record {
            steps = more step second.steps;
            same_size = ap (λ p. p.size) second.same_pool;
            same_dispatched = second.same_dispatched;
            same_reads = second.same_reads;
            empty_hands = second.empty_hands;
            empty_queue =
                ap (λ p. queue_of (p.workers i)) second.same_pool ∙ emptied_queue s.pool.workers i;
          },
        )
  ]

  pub become-IsIdle :
      {start : Connection} (i : ℕ) (s : System)
      → i < s.pool.size
      → Serves to_mcp_reply reserve_limit k start s
      → (s' : System) × IsIdle i s s'
  become-IsIdle i s within inv =
      let (s₁, first) = answer_all (s.hands i) i s inv refl in
      let inv₁ = Steps-Serves to_mcp_reply reserve_limit k first.steps inv in
      let (w, found) =
        inv₁.order.working i (subst (λ p. i < p.size) (sym first.same_pool) within) in
      let (s₂, second) = round-IsIdle i s₁ w inv₁ first.empty_hands found in
      (
        s₂,
        record {
          steps = Steps-trans first.steps second.steps;
          same_size = second.same_size ∙ ap (λ p. p.size) first.same_pool;
          same_dispatched = second.same_dispatched ∙ first.same_dispatched;
          same_reads = second.same_reads ∙ first.same_reads;
          empty_hands = second.empty_hands;
          empty_queue = second.empty_queue;
        },
      )
