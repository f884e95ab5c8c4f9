-- ===== src/System/Held.antt =====
-- What holds of every batch that the workers of worker.cpp hold: in their queues and their hands.
use native.Mathlib.Nat.{mod-lt}
use vector_engine.Common.{
  ℕ, ◌%◌, ◌<◌, ◌≡◌, refl, sym, subst, ◌∙◌, List, [], ◌∷◌, ◌++◌, append_assoc, append-nil, All,
  All-append, some, ◌==◌, ==_iff, Bool-cases, inl, inr,
}
use vector_engine.Common.Maps.{update}
use vector_engine.Errors.{ok, ok-injective, >>=-eq-ok}
use vector_engine.Task.{Task}
use vector_engine.Protocol.{ResponseBuilder}
use vector_engine.Connection.{Effect, close}
use vector_engine.Reactor.{dispatch}
use vector_engine.Worker.{BatchTask, batch, Worker, WorkerUPtr, WorkerPoolSPtr, submit, fetch_tasks}
use vector_engine.Reactor.Send.{dispatch-submit}
use vector_engine.System.{carry_out, batches_of}
use vector_engine.System.Load.{queue_of}

-- The pool has workers, and all of them run.
pub record IsStaffed (pool : WorkerPoolSPtr) : Type 0 where
  pub staffed : 0 < pool.size
  pub working : (i : ℕ) → i < pool.size → (w : Worker) × (pool.workers i ≡ some w)

-- A worker that is put in place of another runs.
pub still_working :
    (n j : ℕ) (workers : ℕ → WorkerUPtr) (w : Worker)
    → ((i : ℕ) → i < n → (v : Worker) × (workers i ≡ some v))
    → (i : ℕ) → i < n
    → (v : Worker) × (update workers j (some w) i ≡ some v)
still_working n j workers w all i lt = elim (Bool-cases (j == i)) [
  | inl same ↦ (w, rw same)
  | inr other ↦ rw other (all i lt)
]

-- The worker that the id picks takes the tasks, and the pool is staffed as before.
dispatch-IsStaffed :
    (pool : WorkerPoolSPtr) (id : ℕ) (ts : List Task) (builder : ResponseBuilder)
    → IsStaffed pool
    → (w : Worker) × (pool.workers (id % pool.size) ≡ some w)
      × (dispatch pool id ts builder
          ≡ ok (record pool {
            workers = update pool.workers (id % pool.size) (some (submit w (batch id ts builder)));
          }))
      × IsStaffed (record pool {
        workers = update pool.workers (id % pool.size) (some (submit w (batch id ts builder)));
      })
dispatch-IsStaffed pool id ts builder staff =
    let (w, found) = staff.working (id % pool.size) (mod-lt id staff.staffed) in
    (
      w,
      found,
      (dispatch-submit pool id ts builder staff.staffed).0 w found,
      record {
        staffed = staff.staffed;
        working = still_working pool.size (id % pool.size) pool.workers _ staff.working;
      },
    )

-- The calls of a read on the reactor return.
pub carry_out_ok :
    (es : List Effect) (pool : WorkerPoolSPtr)
    → IsStaffed pool
    → (p : WorkerPoolSPtr) × (carry_out es pool ≡ ok p)
unfolding carry_out
carry_out_ok [] pool staff = (pool, refl)
carry_out_ok (close ∷ es) pool staff = carry_out_ok es pool staff
carry_out_ok (Effect.dispatch id ts builder ∷ es) pool staff =
    let (w, found, e, staff') = dispatch-IsStaffed pool id ts builder staff in
    let (p, e') = carry_out_ok es _ staff' in (p, rw e e')

module _ (P : BatchTask → Type 0) where
  abbrev pub IsHeld : (ℕ → List BatchTask) → (ℕ → WorkerUPtr) → Type 0
  IsHeld hands workers = (i : ℕ) → All P (hands i ++ queue_of (workers i))

  All-front : (xs ys : List BatchTask) → All P (xs ++ ys) → All P xs
  All-front [] ys h = tt
  All-front (x ∷ xs) ys (p, h) = (p, All-front xs ys h)

  All-back : (xs ys : List BatchTask) → All P (xs ++ ys) → All P ys
  All-back [] ys h = h
  All-back (x ∷ xs) ys (p, h) = All-back xs ys h

  pub IsHeld-hands :
      (hands : ℕ → List BatchTask) (workers : ℕ → WorkerUPtr) (i : ℕ)
      → IsHeld hands workers
      → All P (hands i)
  IsHeld-hands hands workers i h = All-front (hands i) (queue_of (workers i)) (h i)

  module _ (hands : ℕ → List BatchTask) (workers : ℕ → WorkerUPtr) (j : ℕ) where
    submit-IsHeld :
        (w : Worker) (b : BatchTask)
        → P b
        → workers j ≡ some w
        → IsHeld hands workers
        → IsHeld hands (update workers j (some (submit w b)))
    unfolding submit
    submit-IsHeld w b p e h i = elim (Bool-cases (j == i)) [
      | inl same ↦
          let e' = subst (λ n. workers n ≡ some w) ((==_iff j i).0 same) e in
          rw same (
            subst (All P) (append_assoc (hands i) w.tasks (b ∷ [])) (
              All-append P (hands i ++ w.tasks) (b ∷ [])
                (subst (λ o. All P (hands i ++ queue_of o)) e' (h i)) (p, tt)))
      | inr other ↦ rw other (h i)
    ]

    pub fetch-IsHeld :
        (w : Worker)
        → workers j ≡ some w
        → IsHeld hands workers
        → IsHeld (update hands j (fetch_tasks w).0) (update workers j (some (fetch_tasks w).1))
    unfolding fetch_tasks
    fetch-IsHeld w e h i = elim (Bool-cases (j == i)) [
      | inl same ↦
          let e' = subst (λ n. workers n ≡ some w) ((==_iff j i).0 same) e in
          rw same (
            subst (All P) (sym (append-nil w.tasks))
              (All-back (hands i) w.tasks (subst (λ o. All P (hands i ++ queue_of o)) e' (h i))))
      | inr other ↦ rw other (h i)
    ]

    pub answer-IsHeld :
        (b : BatchTask) (bs : List BatchTask)
        → hands j ≡ b ∷ bs
        → IsHeld hands workers
        → IsHeld (update hands j bs) workers
    answer-IsHeld b bs e h i = elim (Bool-cases (j == i)) [
      | inl same ↦
          let e' = subst (λ n. hands n ≡ b ∷ bs) ((==_iff j i).0 same) e in
          rw same (
            All-back (b ∷ []) (bs ++ queue_of (workers i))
              (subst (λ hs. All P (hs ++ queue_of (workers i))) e' (h i)))
      | inr other ↦ rw other (h i)
    ]

  -- A read submits batches, and stops no worker.
  pub carry_out-IsHeld :
      (hands : ℕ → List BatchTask) (es : List Effect) (pool p : WorkerPoolSPtr)
      → IsStaffed pool
      → carry_out es pool ≡ ok p
      → All P (batches_of es)
      → IsHeld hands pool.workers
      → IsStaffed p × IsHeld hands p.workers
  unfolding carry_out
  carry_out-IsHeld hands [] pool p staff e ps h =
      subst (λ q. IsStaffed q × IsHeld hands q.workers) (ok-injective e) (staff, h)
  carry_out-IsHeld hands (close ∷ es) pool p staff e ps h =
      carry_out-IsHeld hands es pool p staff e ps h
  carry_out-IsHeld hands (Effect.dispatch id ts builder ∷ es) pool p staff e (b_ok, ps) h =
      let (q, e', further) = >>=-eq-ok _ _ e in
      let (w, found, taken, staffed) = dispatch-IsStaffed pool id ts builder staff in
      let same = ok-injective (sym taken ∙ e') in
      let b = batch id ts builder in
      let (staff', h') =
        subst (λ (q' : WorkerPoolSPtr). IsStaffed q' × IsHeld hands q'.workers) same
          (staffed, submit-IsHeld hands pool.workers (id % pool.size) w b b_ok found h) in
      carry_out-IsHeld hands es q p staff' further ps h'
