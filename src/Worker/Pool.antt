-- ===== src/Worker/Pool.antt =====
-- The constructor and `stop` of the pool in worker.cpp.
use vector_engine.Common.{
  ℕ, zero, suc, ◌+◌, ◌-◌, ◌%◌, ◌^◌, ◌≤◌, ◌<◌, ◌≡◌, ◌≢◌, refl, none, some, arith, Bool-cases, inl,
  inr, ◌==◌, ==_iff, ==_ne, ==_false, subst,
}
use vector_engine.Common.Maps.{update}
use vector_engine.Errors.{ok, throws, engine}
use vector_engine.Worker.{make_worker, WorkerPool, empty_pool, push_workers, make_pool}

-- `num` workers, each with an empty queue, and no other.
pub record IsReady (num : ℕ) (pool : WorkerPool) : Type 0 where
  pub counted : pool.size ≡ num
  pub each : (i : ℕ) → i < num → pool.workers i ≡ some make_worker
  pub no_other : (i : ℕ) → num ≤ i → pool.workers i ≡ none

IsReady-push :
    (idx : ℕ) (pool : WorkerPool)
    → IsReady idx pool
    → IsReady (idx + 1) (record {
      size = pool.size + 1;
      workers = update pool.workers pool.size (some make_worker);
    })
IsReady-push idx pool ready = record {
  counted = omega (arith, ready.counted);
  each = λ i lt. elim (Bool-cases (pool.size == i)) [
    | inl same ↦ rw same
    | inr other ↦
        rw other (ready.each i (omega (arith, lt, ready.counted, ==_ne pool.size i other)))
  ];
  no_other = λ i le. elim (Bool-cases (pool.size == i)) [
    | inl same ↦ absurd (omega (arith, le, ready.counted, (==_iff pool.size i).0 same))
    | inr other ↦ rw other (ready.no_other i (omega (arith, le)))
  ];
}

push_workers-IsReady :
    (fuel num idx : ℕ) (pool : WorkerPool)
    → num < 2 ^ 32
    → idx ≤ num
    → num - idx < fuel
    → IsReady idx pool
    → (p : WorkerPool) × (push_workers fuel num idx pool ≡ ok p) × IsReady num p
unfolding push_workers
push_workers-IsReady zero num idx pool small le enough ready = absurd (omega arith)
push_workers-IsReady (suc fuel) num idx pool small le enough ready =
    elim (Bool-cases (idx == num)) [
      | inl done ↦ (pool, rw done, subst (λ i. IsReady i pool) ((==_iff idx num).0 done) ready)
      | inr more ↦
          let next : (idx + 1) % 2 ^ 32 ≡ idx + 1 =
            omega (arith, small, le, more, ==_ne idx num more) in
          rw (more, next)
            (push_workers-IsReady fuel num (idx + 1) _ small (omega (arith, le, ==_ne idx num more))
              (omega (arith, enough, le, ==_ne idx num more)) (IsReady-push idx pool ready))
    ]

-- For fewer than 2^32 workers, the constructor of the pool throws if none is asked for, and
-- otherwise makes as many as are asked for and no more, each with an empty queue.
pub make_pool-IsReady :
    (num : ℕ)
    → num < 2 ^ 32
    → (num ≡ 0 → make_pool num ≡ throws (engine empty_pool))
      × (num ≢ 0 → (p : WorkerPool) × (make_pool num ≡ ok p) × IsReady num p)
unfolding make_pool
make_pool-IsReady num small = (
  λ none_wanted. rw none_wanted,
  λ wanted. rw (==_false num 0 wanted) (
      push_workers-IsReady (suc num) num 0 _ small (omega arith) (omega arith) (record {
        counted = refl;
        each = λ i lt. absurd (omega (arith, lt));
        no_other = λ i le. refl;
      })),
)
