-- ===== src/System/Batches.antt =====
-- The batches of one connection among those that `Reactor::dispatch` of reactor.cpp submits.
use vector_engine.Common.{
  ℕ, ◌≡◌, ◌≢◌, refl, sym, ap, ◌∙◌, List, [], ◌∷◌, ◌++◌, append_assoc, Bytes, All, ◌==◌, ==_self,
  ==_false, Bool-cases, inl, inr, if◌then◌else◌,
}
use vector_engine.Task.{Task, TaskOutput, run}
use vector_engine.Protocol.{ResponseBuilder, build, resp_response_builder}
use vector_engine.Connection.{Effect, dispatch, close}
use vector_engine.Connection.Dispatch.{dispatched, IsOwn}
use vector_engine.Connection.Kept.{IsFrom}
use vector_engine.Worker.{BatchTask, batch, stop_marker}
use vector_engine.Worker.Answers.{answers}
use vector_engine.System.{batches_of}
use vector_engine.System.Load.{mine}

-- The batches of the connection `k` among those of all.
abbrev pub of_connection : ℕ → List BatchTask → List BatchTask
of_connection k [] = []
of_connection k (stop_marker ∷ bs) = of_connection k bs
of_connection k (batch id ts builder ∷ bs) =
    if id == k then batch id ts builder ∷ of_connection k bs else of_connection k bs

pub of_connection-append :
    (k : ℕ) (bs cs : List BatchTask)
    → of_connection k (bs ++ cs) ≡ of_connection k bs ++ of_connection k cs
of_connection-append k [] cs = refl
of_connection-append k (stop_marker ∷ bs) cs = of_connection-append k bs cs
of_connection-append k (batch id ts builder ∷ bs) cs = elim (Bool-cases (id == k)) [
  | inl same ↦ rw same (ap (λ ds. batch id ts builder ∷ ds) (of_connection-append k bs cs))
  | inr other ↦ rw other (of_connection-append k bs cs)
]

-- A connection dispatches its own batches only.
pub of_connection_own :
    (k : ℕ) (es : List Effect) → All (IsFrom k) es → of_connection k (batches_of es) ≡ batches_of es
of_connection_own k [] own = refl
of_connection_own k (close ∷ es) (_, own) = of_connection_own k es own
of_connection_own k (dispatch id ts builder ∷ es) (from, own) =
    rw (from, ==_self k) (ap (λ ds. batch k ts builder ∷ ds) (of_connection_own k es own))

pub of_connection_other :
    (k j : ℕ) (es : List Effect) → j ≢ k → All (IsFrom j) es → of_connection k (batches_of es) ≡ []
of_connection_other k j [] ne own = refl
of_connection_other k j (close ∷ es) ne (_, own) = of_connection_other k j es ne own
of_connection_other k j (dispatch id ts builder ∷ es) ne (from, own) =
    rw (from, ==_false j k ne) (of_connection_other k j es ne own)

pub batches_of-append :
    (es fs : List Effect) → batches_of (es ++ fs) ≡ batches_of es ++ batches_of fs
batches_of-append [] fs = refl
batches_of-append (close ∷ es) fs = batches_of-append es fs
batches_of-append (dispatch id ts builder ∷ es) fs =
    ap (λ bs. batch id ts builder ∷ bs) (batches_of-append es fs)

module _ (to_mcp_reply : TaskOutput → Bytes) (k : ℕ) where
  pub mine-of_connection :
      (bs : List BatchTask) → mine to_mcp_reply k bs ≡ mine to_mcp_reply k (of_connection k bs)
  mine-of_connection [] = refl
  mine-of_connection (stop_marker ∷ bs) = mine-of_connection bs
  mine-of_connection (batch id ts builder ∷ bs) = elim (Bool-cases (id == k)) [
    | inl same ↦
        rw same (rw same (ap (λ t. answers to_mcp_reply builder ts ++ t) (mine-of_connection bs)))
    | inr other ↦ rw other (mine-of_connection bs)
  ]

  answers-append :
      (builder : ResponseBuilder) (ts us : List Task)
      → answers to_mcp_reply builder (ts ++ us)
        ≡ answers to_mcp_reply builder ts ++ answers to_mcp_reply builder us
  answers-append builder [] us = refl
  answers-append builder (t ∷ ts) us =
      ap (λ r. build to_mcp_reply builder (run t) ++ r) (answers-append builder ts us)
      ∙ sym (
          append_assoc (build to_mcp_reply builder (run t)) (answers to_mcp_reply builder ts)
            (answers to_mcp_reply builder us))

  pub own-answers :
      (es : List Effect)
      → All (IsOwn k) es
      → mine to_mcp_reply k (batches_of es)
        ≡ answers to_mcp_reply resp_response_builder (dispatched es)
  own-answers [] own = refl
  own-answers (close ∷ es) (_, own) = own-answers es own
  own-answers (dispatch id ts builder ∷ es) ((mine_id, resp_builder), own) =
      rw (mine_id, resp_builder, ==_self k)
        (ap (λ t. answers to_mcp_reply resp_response_builder ts ++ t) (own-answers es own)
          ∙ sym (answers-append resp_response_builder ts (dispatched es)))
