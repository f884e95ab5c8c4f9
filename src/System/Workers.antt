-- ===== src/System/Workers.antt =====
-- The steps that move batches: `Reactor::dispatch`, and those of the threads of worker.cpp.
use native.Mathlib.Nat.{mod-lt}
use vector_engine.Common.{
  ℕ, ◌%◌, ◌≡◌, ◌≢◌, refl, sym, ap, ap₂, subst, ◌∙◌, List, [], ◌∷◌, ◌++◌, append_assoc,
  append_nothing, Bytes, Bool, true, false, some, ◌==◌, ==_self, ==_iff, ==_false, ==_ne,
  Bool-cases, inl, inr, if◌then◌else◌,
}
use vector_engine.Common.Maps.{update}
use vector_engine.Errors.{ok, ok-injective}
use vector_engine.Task.{Task, TaskOutput}
use vector_engine.Protocol.{ResponseBuilder}
use vector_engine.Connection.{Connection}
use vector_engine.Worker.{
  BatchTask, batch, Worker, WorkerPoolSPtr, submit, fetch_tasks, run_batch_task,
}
use vector_engine.Worker.Answers.{run_batch_task-answers}
use vector_engine.Reactor.{Reactor, send, dispatch}
use vector_engine.Reactor.Signals.{send_lem}
use vector_engine.Reactor.Send.{
  written, replies_to, replies_to-append, either_same, dispatch-submit,
}
use vector_engine.System.{System}
use vector_engine.System.Load.{
  mine, mine-append, mine-other, load, load-submit, load-fetch, load-answer,
}
use vector_engine.System.Held.{still_working}
use vector_engine.System.InOrder.{InOrder}

module _ (to_mcp_reply : TaskOutput → Bytes) (k : ℕ) where
  -- A batch that is dispatched goes to the worker that its id picks, and `m` are its answers to the
  -- connection `k`.
  share :
      (id n i : ℕ) (m : Bytes)
      → (id ≢ k → m ≡ [])
      → (i ≡ k % n → (if id % n == i then m else []) ≡ m)
        × (i ≢ k % n → (if id % n == i then m else []) ≡ [])
  share id n i m none_else = elim (Bool-cases (id == k)) [
    | inl same ↦
        let here : id % n ≡ k % n = ap (λ x. x % n) ((==_iff id k).0 same) in
        (
          λ home. rw ((==_iff (id % n) i).1 (here ∙ sym home)) refl,
          λ away. rw (==_false (id % n) i (λ e. away (sym e ∙ here))) refl,
        )
    | inr other ↦
        let nothing = none_else (==_ne id k other) in
        (
          λ home. rw nothing (sym (either_same (id % n == i) [])),
          λ away. rw nothing (sym (either_same (id % n == i) [])),
        )
  ]

  chosen : (c : Bool) (m : Bytes) → c ≡ true → (if c then m else []) ≡ m
  chosen c m e = rw e refl

  unchosen : (c : Bool) (m : Bytes) → c ≡ false → (if c then m else []) ≡ []
  unchosen c m e = rw e refl

  append_last : (a b c d : Bytes) → a ++ (b ++ (c ++ d)) ≡ (a ++ (b ++ c)) ++ d
  append_last a b c d =
      ap (λ t. a ++ t) (sym (append_assoc b c d)) ∙ sym (append_assoc a (b ++ c) d)

  pub step-dispatches :
      {conn : Connection} (s : System) (id : ℕ) (ts : List Task) (builder : ResponseBuilder)
      (p : WorkerPoolSPtr)
      → InOrder to_mcp_reply k conn s
      → dispatch s.pool id ts builder ≡ ok p
      → InOrder to_mcp_reply k conn
          (record s { pool = p; dispatched = s.dispatched ++ batch id ts builder ∷ [] })
  step-dispatches {conn} s id ts builder p inv e =
      let n = s.pool.size in
      let b = batch id ts builder in
      let (w, found) = inv.working (id % n) (mod-lt id inv.staffed) in
      let shared = λ (i : ℕ).
        share id n i (mine to_mcp_reply k (b ∷ [])) (mine-other to_mcp_reply k id ts builder) in
      let q = record s.pool { workers = update s.pool.workers (id % n) (some (submit w b)) } in
      let same : q ≡ p =
        ok-injective (sym ((dispatch-submit s.pool id ts builder inv.staffed).0 w found) ∙ e) in
      subst
        (λ p'.
          InOrder to_mcp_reply k conn (record s { pool = p'; dispatched = s.dispatched ++ b ∷ [] }))
        same
        (record {
          registry = inv.registry;
          wired = inv.wired;
          opened = inv.opened;
          staffed = inv.staffed;
          working = still_working n (id % n) s.pool.workers (submit w b) inv.working;
          elsewhere = λ i ne.
              load-submit to_mcp_reply k s.hands s.pool.workers (id % n) i w b found
              ∙ ap₂ ◌++◌ (inv.elsewhere i ne) ((shared i).1 ne);
          order =
              ap (λ t. written k s.calls ++ (replies_to k s.reactor.replies ++ t))
                (load-submit to_mcp_reply k s.hands s.pool.workers (id % n) (k % n) w b found
                  ∙ ap (λ t. load to_mcp_reply k s.hands s.pool.workers (k % n) ++ t)
                      ((shared (k % n)).0 refl))
              ∙ append_last (written k s.calls) (replies_to k s.reactor.replies)
                  (load to_mcp_reply k s.hands s.pool.workers (k % n))
                  (mine to_mcp_reply k (b ∷ []))
              ∙ ap (λ t. t ++ mine to_mcp_reply k (b ∷ [])) inv.order
              ∙ sym (mine-append to_mcp_reply k s.dispatched (b ∷ []));
        })

  pub step-fetches :
      {conn : Connection} (s : System) (i : ℕ) (w : Worker)
      → InOrder to_mcp_reply k conn s
      → s.pool.workers i ≡ some w
      → s.hands i ≡ []
      → InOrder to_mcp_reply k conn (record s {
        pool = record s.pool { workers = update s.pool.workers i (some (fetch_tasks w).1) };
        hands = update s.hands i (fetch_tasks w).0;
      })
  unfolding fetch_tasks
  step-fetches s i w inv found free =
      let same = λ (j : ℕ). load-fetch to_mcp_reply k s.hands s.pool.workers i j w found free in
      record {
        registry = inv.registry;
        wired = inv.wired;
        opened = inv.opened;
        staffed = inv.staffed;
        working = still_working s.pool.size i s.pool.workers (record { tasks = [] }) inv.working;
        elsewhere = λ j away. same j ∙ inv.elsewhere j away;
        order =
            ap (λ t. written k s.calls ++ (replies_to k s.reactor.replies ++ t))
              (same (k % s.pool.size))
            ∙ inv.order;
      }

  -- A worker takes the first batch out of its hands.
  module _ {conn : Connection} (s : System) (i : ℕ) (b : BatchTask) (bs : List BatchTask)
      (inv : InOrder to_mcp_reply k conn s) (held : s.hands i ≡ b ∷ bs) where
    abbrev left : ℕ → Bytes
    left = load to_mcp_reply k (update s.hands i bs) s.pool.workers

    taken :
        (j : ℕ)
        → load to_mcp_reply k s.hands s.pool.workers j
          ≡ (if i == j then mine to_mcp_reply k (b ∷ []) else []) ++ left j
    taken j = load-answer to_mcp_reply k s.hands s.pool.workers i j b bs held

    left_elsewhere : (j : ℕ) → j ≢ k % s.pool.size → left j ≡ []
    left_elsewhere j away = (append_nothing _ (left j) (sym (taken j) ∙ inv.elsewhere j away)).1

    -- Another worker has nothing in its hands for the connection.
    nothing_away : i ≢ k % s.pool.size → mine to_mcp_reply k (b ∷ []) ≡ []
    nothing_away away =
        (append_nothing (mine to_mcp_reply k (b ∷ [])) (left i) (
          ap (λ t. t ++ left i) (sym (chosen (i == i) (mine to_mcp_reply k (b ∷ [])) (==_self i)))
          ∙ sym (taken i)
          ∙ inv.elsewhere i away)).0

    left_home :
        mine to_mcp_reply k (b ∷ []) ++ left (k % s.pool.size)
        ≡ load to_mcp_reply k s.hands s.pool.workers (k % s.pool.size)
    left_home = elim (Bool-cases (i == k % s.pool.size)) [
      | inl home ↦
          ap (λ t. t ++ left (k % s.pool.size)) (sym (chosen _ (mine to_mcp_reply k (b ∷ [])) home))
          ∙ sym (taken (k % s.pool.size))
      | inr away ↦
          ap (λ t. t ++ left (k % s.pool.size))
            (nothing_away (==_ne i (k % s.pool.size) away)
              ∙ sym (unchosen _ (mine to_mcp_reply k (b ∷ [])) away))
          ∙ sym (taken (k % s.pool.size))
    ]

  pub step-answers_batch :
      {conn : Connection} (s : System) (i id : ℕ) (ts : List Task) (builder : ResponseBuilder)
      (bs : List BatchTask) (r : Reactor)
      → InOrder to_mcp_reply k conn s
      → s.hands i ≡ batch id ts builder ∷ bs
      → send (run_batch_task to_mcp_reply id ts builder ∷ []) s.reactor ≡ ok r
      → InOrder to_mcp_reply k conn (record s { reactor = r; hands = update s.hands i bs })
  step-answers_batch {conn} s i id ts builder bs r inv held e =
      let b = batch id ts builder in
      let home = k % s.pool.size in
      let x = run_batch_task to_mcp_reply id ts builder in
      let q = record s.reactor { replies = s.reactor.replies ++ x ∷ []; reply_pending = true } in
      let same : q ≡ r = ok-injective (sym (send_lem (x ∷ []) s.reactor inv.wired) ∙ e) in
      let reply : replies_to k (x ∷ []) ≡ mine to_mcp_reply k (b ∷ []) =
        ap (λ y. replies_to k (y ∷ [])) (run_batch_task-answers to_mcp_reply id ts builder) in
      subst
        (λ r'. InOrder to_mcp_reply k conn (record s { reactor = r'; hands = update s.hands i bs }))
        same
        (record {
          registry = inv.registry;
          wired = inv.wired;
          opened = inv.opened;
          staffed = inv.staffed;
          working = inv.working;
          elsewhere = left_elsewhere s i b bs inv held;
          order =
              ap (λ t. written k s.calls ++ t)
                (ap (λ t. t ++ left s i b bs inv held home)
                    (replies_to-append k s.reactor.replies (x ∷ []))
                  ∙ append_assoc (replies_to k s.reactor.replies) (replies_to k (x ∷ []))
                      (left s i b bs inv held home)
                  ∙ ap (λ t. replies_to k s.reactor.replies ++ t)
                      (ap (λ t. t ++ left s i b bs inv held home) reply
                        ∙ left_home s i b bs inv held))
              ∙ inv.order;
        })
