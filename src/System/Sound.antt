-- ===== src/System/Sound.antt =====
-- What holds in every state that the threads of reactor.cpp and worker.cpp reach.
use vector_engine.Common.{
  ℕ, ◌<◌, ◌≤◌, ◌≡◌, refl, ap, ap₂, subst, ◌∙◌, List, [], ◌∷◌, ◌++◌, Bytes, All, arith, negsuc,
  ==_false,
}
use vector_engine.Common.Maps.{update}
use vector_engine.Errors.{Ensures-ok}
use vector_engine.Task.{Task, TaskOutput}
use vector_engine.Protocol.{ResponseBuilder}
use vector_engine.Connection.{Effect, dispatch, close}
use vector_engine.Connection.Kept.{Kept, IsFrom, receive-Kept, on_read-Kept}
use vector_engine.Worker.{BatchTask, batch, stop_marker, run_batch_task}
use vector_engine.Worker.Answers.{run_batch_task-answers}
use vector_engine.Reactor.{Reactor, ReactorOptions, Call}
use vector_engine.Reactor.Registry.{find-IsEntry}
use vector_engine.Reactor.Send.{written, written-append, replies_to}
use vector_engine.System.{
  System, Step, Steps, receives, ends, fetches, answers_batch, replies, writes, connects, closes,
  done, more, batches_of, closings,
}
use vector_engine.System.Batches.{of_connection, of_connection-append, of_connection_other}
use vector_engine.System.Held.{
  IsStaffed, IsHeld, IsHeld-hands, fetch-IsHeld, answer-IsHeld, carry_out-IsHeld, still_working,
}
use vector_engine.System.Good.{
  IsGood, assign-IsGood, send-IsGood, on_reply-IsGood, on_write-IsGood, on_close-IsGood,
  on_connect-IsGood,
}
use vector_engine.System.Reads.{closings-written}

-- A batch of a connection with one of the ids that were given out.
abbrev pub IsGiven : ℕ → BatchTask → Type 0
IsGiven cnt (batch id ts builder) = id < cnt
IsGiven cnt stop_marker = ⊥

-- The reactor is in order, every worker runs and holds nothing but batches of connections that were
-- made, and nothing was read from, dispatched or written for an id that was not given out yet.
pub record IsSound (o : ReactorOptions) (s : System) : Type 0 where
  pub good : IsGood o s.reactor
  pub staff : IsStaffed s.pool
  pub held : IsHeld (IsGiven s.reactor.connection_cnt) s.hands s.pool.workers
  pub unread : (k : ℕ) → s.reactor.connection_cnt ≤ k → s.reads k ≡ []
  pub undispatched : (k : ℕ) → s.reactor.connection_cnt ≤ k → of_connection k s.dispatched ≡ []
  pub unwritten : (k : ℕ) → s.reactor.connection_cnt ≤ k → written k s.calls ≡ []

All-IsGiven : (n m : ℕ) (bs : List BatchTask) → n ≤ m → All (IsGiven n) bs → All (IsGiven m) bs
All-IsGiven n m [] le h = tt
All-IsGiven n m (stop_marker ∷ bs) le (p, h) = absurd p
All-IsGiven n m (batch id ts builder ∷ bs) le (p, h) =
    (omega (arith, p, le), All-IsGiven n m bs le h)

batches_of-IsGiven :
    (cnt id : ℕ) (es : List Effect)
    → id < cnt
    → All (IsFrom id) es
    → All (IsGiven cnt) (batches_of es)
batches_of-IsGiven cnt id [] lt own = tt
batches_of-IsGiven cnt id (close ∷ es) lt (_, own) = batches_of-IsGiven cnt id es lt own
batches_of-IsGiven cnt id (dispatch j ts builder ∷ es) lt (from, own) =
    (omega (arith, lt, from), batches_of-IsGiven cnt id es lt own)

module _ (o : ReactorOptions) where
  pub calls-written :
      (s : System) (cs : List Call)
      → IsSound o s
      → ((k : ℕ) → s.reactor.connection_cnt ≤ k → written k cs ≡ [])
      → (k : ℕ) → s.reactor.connection_cnt ≤ k
      → written k (s.calls ++ cs) ≡ []
  calls-written s cs sound silent k le =
      written-append k s.calls cs ∙ ap₂ ◌++◌ (sound.unwritten k le) (silent k le)

  -- A callback that moves no batch.
  callback-IsSound :
      (s : System) (r : Reactor) (calls : List Call)
      → IsSound o s
      → IsGood o r
      → s.reactor.connection_cnt ≤ r.connection_cnt
      → ((k : ℕ) → s.reactor.connection_cnt ≤ k → written k calls ≡ [])
      → IsSound o (record s { reactor = r; calls = calls })
  callback-IsSound s r calls sound good counted silent = record {
    good = good;
    staff = sound.staff;
    held = λ i. All-IsGiven s.reactor.connection_cnt r.connection_cnt _ counted (sound.held i);
    unread = λ k le. sound.unread k (omega (arith, le, counted));
    undispatched = λ k le. sound.undispatched k (omega (arith, le, counted));
    unwritten = λ k le. silent k (omega (arith, le, counted));
  }

  module _ (to_mcp_reply : TaskOutput → Bytes) (reserve_limit j : ℕ) where
    answer-IsSound :
        (s : System) (i id : ℕ) (ts : List Task) (builder : ResponseBuilder) (bs : List BatchTask)
        (r : Reactor)
        → IsSound o s
        → s.hands i ≡ batch id ts builder ∷ bs
        → IsGood o r
        → r.connection_cnt ≡ s.reactor.connection_cnt
        → IsSound o (record s { reactor = r; hands = update s.hands i bs })
    answer-IsSound s i id ts builder bs r sound taken good counted = record {
      good = good;
      staff = sound.staff;
      held = λ n. All-IsGiven s.reactor.connection_cnt r.connection_cnt _ (omega (arith, counted)) (
          answer-IsHeld (IsGiven s.reactor.connection_cnt) s.hands s.pool.workers i
            (batch id ts builder) bs taken sound.held n);
      unread = λ k le. sound.unread k (omega (arith, le, counted));
      undispatched = λ k le. sound.undispatched k (omega (arith, le, counted));
      unwritten = λ k le. sound.unwritten k (omega (arith, le, counted));
    }

    -- The reply to a batch that a worker holds goes to no id that was not given out.
    reply-given :
        (s : System) (i id : ℕ) (ts : List Task) (builder : ResponseBuilder) (bs : List BatchTask)
        → IsSound o s
        → s.hands i ≡ batch id ts builder ∷ bs
        → (k : ℕ) → s.reactor.connection_cnt ≤ k
        → replies_to k (run_batch_task to_mcp_reply id ts builder ∷ []) ≡ []
    reply-given s i id ts builder bs sound taken k le =
        let (lt, _) =
          subst (All (IsGiven s.reactor.connection_cnt)) taken
            (IsHeld-hands (IsGiven s.reactor.connection_cnt) s.hands s.pool.workers i sound.held) in
        ap (λ x. replies_to k (x ∷ [])) (run_batch_task-answers to_mcp_reply id ts builder)
        ∙ rw (==_false id k (omega (arith, lt, le))) refl

    pub Step-IsSound :
        {s s' : System} → Step to_mcp_reply reserve_limit j s s' → IsSound o s → IsSound o s'
    Step-IsSound (receives s id n bytes c c' es p found read _ e _) sound =
        let cnt = s.reactor.connection_cnt in
        let kept = Ensures-ok (Kept c) read (receive-Kept reserve_limit c n bytes) in
        let (named, lt) = find-IsEntry cnt id s.reactor.connections sound.good.registry found in
        let own = subst (λ i. All (IsFrom i) es) named kept.from in
        let (staff, held) =
          carry_out-IsHeld (IsGiven cnt) s.hands es s.pool p sound.staff e
            (batches_of-IsGiven cnt id es lt own) sound.held in
        record {
          good = assign-IsGood o s.reactor id c c' sound.good found kept.same_id;
          staff = staff;
          held = held;
          unread = λ k le. rw (==_false id k (omega (arith, lt, le))) (sound.unread k le);
          undispatched = λ k le.
              of_connection-append k s.dispatched (batches_of es)
              ∙ ap₂ ◌++◌ (sound.undispatched k le)
                  (of_connection_other k id es (omega (arith, lt, le)) own);
          unwritten = calls-written s (closings id es) sound (λ k _. closings-written k id es);
        }
    Step-IsSound (ends s id n c c' es _ found read _) sound =
        let kept = Ensures-ok (Kept c) read (on_read-Kept reserve_limit c (negsuc n)) in
        callback-IsSound s _ _ sound
          (assign-IsGood o s.reactor id c c' sound.good found kept.same_id) (omega arith)
          (calls-written s (closings id es) sound (λ k _. closings-written k id es))
    Step-IsSound (fetches s i w found free _) sound = record {
      good = sound.good;
      staff = record {
        staffed = sound.staff.staffed;
        working = still_working s.pool.size i s.pool.workers _ sound.staff.working;
      };
      held =
          fetch-IsHeld (IsGiven s.reactor.connection_cnt) s.hands s.pool.workers i w found
            sound.held;
      unread = sound.unread;
      undispatched = sound.undispatched;
      unwritten = sound.unwritten;
    }
    Step-IsSound (answers_batch s i id ts builder bs r taken e) sound =
        let (good, counted) =
          send-IsGood o _ s.reactor sound.good (reply-given s i id ts builder bs sound taken) e in
        answer-IsSound s i id ts builder bs r sound taken good counted
    Step-IsSound (replies s r cs _ e) sound =
        let (good, counted, silent) = on_reply-IsGood o s.reactor sound.good e in
        callback-IsSound s r _ sound good (omega (arith, counted)) (calls-written s cs sound silent)
    Step-IsSound (writes s address status) sound =
        let (good, counted) = on_write-IsGood o s.reactor address status sound.good in
        callback-IsSound s _ s.calls sound good (omega (arith, counted)) sound.unwritten
    Step-IsSound (connects s uv n accept_err r cs unwrapped some_size le bounded alive e) sound =
        let (good, counted, silent) =
          on_connect-IsGood o uv n accept_err s.reactor sound.good unwrapped some_size le bounded
            alive e in
        callback-IsSound s r _ sound good (omega (arith, counted))
          (calls-written s cs sound (λ k _. silent k))
    Step-IsSound (closes s closed _) sound =
        let (good, counted) = on_close-IsGood o s.reactor closed sound.good in
        callback-IsSound s _ s.calls sound good (omega (arith, counted)) sound.unwritten

    pub Steps-IsSound :
        {s s' : System} → Steps to_mcp_reply reserve_limit j s s' → IsSound o s → IsSound o s'
    Steps-IsSound (done s) sound = sound
    Steps-IsSound (more step rest) sound = Steps-IsSound rest (Step-IsSound step sound)
