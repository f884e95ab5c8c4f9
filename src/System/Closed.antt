-- ===== src/System/Closed.antt =====
-- What reactor.cpp does for a connection that its close callback has taken out of the map.
use vector_engine.Common.{
  ℕ, ◌≡◌, refl, sym, ap, subst, ◌∙◌, negsuc, List, [], ◌++◌, append-nil, append_assoc, Bytes, none,
  ◌==◌, ==_iff, ==_ne, Bool-cases, inl, inr,
}
use vector_engine.Common.Maps.{find}
use vector_engine.Errors.{Ensures-ok}
use vector_engine.Task.{TaskOutput}
use vector_engine.Connection.Kept.{Kept, receive-Kept, on_read-Kept}
use vector_engine.Worker.{BatchTask}
use vector_engine.Reactor.{Call, on_close}
use vector_engine.Reactor.Registry.{on_close_unregisters}
use vector_engine.Reactor.Send.{written, written-append}
use vector_engine.System.{
  System, Step, Steps, receives, ends, fetches, answers_batch, replies, writes, connects, closes,
  done, more, batches_of, closings,
}
use vector_engine.System.Gone.{
  IsGone, assign-IsGone, send-IsGone, on_reply-IsGone, on_write-IsGone, on_close-IsGone,
  on_connect-IsGone,
}
use vector_engine.System.Reads.{closings-written}

-- The connection is still gone, and nothing was written to it on the way.
pub record IsSilent (k : ℕ) (s s' : System) : Type 0 where
  pub gone : IsGone k s'.reactor
  pub same_written : written k s'.calls ≡ written k s.calls
  pub further : List BatchTask
  pub dispatches : s'.dispatched ≡ s.dispatched ++ further

module _ (k : ℕ) where
  -- The calls `cs` come to those before.
  silent_calls :
      (s : System) (cs : List Call)
      → written k cs ≡ []
      → written k (s.calls ++ cs) ≡ written k s.calls
  silent_calls s cs e =
      written-append k s.calls cs
      ∙ ap (λ t. written k s.calls ++ t) e
      ∙ append-nil (written k s.calls)

module _ (to_mcp_reply : TaskOutput → Bytes) (reserve_limit j k : ℕ) where
  -- A step that dispatches nothing.
  undispatched_step :
      {s : System} (s' : System)
      → s'.dispatched ≡ s.dispatched
      → IsGone k s'.reactor
      → written k s'.calls ≡ written k s.calls
      → IsSilent k s s'
  undispatched_step {s} s' same gone silent = record {
    gone = gone;
    same_written = silent;
    further = [];
    dispatches = same ∙ sym (append-nil s.dispatched);
  }

  pub Step-IsSilent :
      {s s' : System}
      → Step to_mcp_reply reserve_limit j s s'
      → IsGone k s.reactor
      → IsSilent k s s'
  Step-IsSilent (receives s id n bytes c c' es p found read _ _ _) gone =
      let kept = Ensures-ok (Kept c) read (receive-Kept reserve_limit c n bytes) in
      record {
        gone = assign-IsGone k s.reactor id c c' gone found kept.same_id;
        same_written = silent_calls k s (closings id es) (closings-written k id es);
        further = batches_of es;
        dispatches = refl;
      }
  Step-IsSilent (ends s id n c c' es _ found read _) gone =
      let kept = Ensures-ok (Kept c) read (on_read-Kept reserve_limit c (negsuc n)) in
      undispatched_step _ refl (assign-IsGone k s.reactor id c c' gone found kept.same_id)
        (silent_calls k s (closings id es) (closings-written k id es))
  Step-IsSilent (fetches s i w found free _) gone = undispatched_step _ refl gone refl
  Step-IsSilent (answers_batch s i id ts builder bs r held e) gone =
      undispatched_step _ refl (send-IsGone k _ s.reactor r gone e) refl
  Step-IsSilent (replies s r cs _ e) gone =
      let (gone', silent) = on_reply-IsGone k s.reactor r cs gone e in
      undispatched_step _ refl gone' (silent_calls k s cs silent)
  Step-IsSilent (writes s address status) gone =
      undispatched_step _ refl (on_write-IsGone k s.reactor address status gone) refl
  Step-IsSilent (connects s uv n accept_err r cs unwrapped some_size le bounded alive e) gone =
      let (gone', silent) =
        on_connect-IsGone k uv n accept_err s.reactor r cs gone unwrapped some_size le bounded alive
          e in
      undispatched_step _ refl gone' (silent_calls k s cs silent)
  Step-IsSilent (closes s closed _) gone =
      let absent : find k (on_close closed s.reactor).connections ≡ none =
        elim (Bool-cases (closed.id == k)) [
          | inl same ↦
              subst (λ i. find i (on_close closed s.reactor).connections ≡ none)
                ((==_iff closed.id k).0 same)
                (on_close_unregisters closed s.reactor gone.registry).1
          | inr other ↦
              (on_close_unregisters closed s.reactor gone.registry).2 k (==_ne closed.id k other)
              ∙ gone.absent
        ] in
      undispatched_step _ refl
        (on_close-IsGone k s.reactor closed gone.registry gone.wired gone.given absent) refl

  pub Steps-IsSilent :
      {s s' : System}
      → Steps to_mcp_reply reserve_limit j s s'
      → IsGone k s.reactor
      → IsSilent k s s'
  Steps-IsSilent (done s) gone = undispatched_step s refl gone refl
  Steps-IsSilent (more {s} {s'} {s''} step rest) gone =
      let first = Step-IsSilent step gone in
      let later = Steps-IsSilent rest first.gone in
      record {
        gone = later.gone;
        same_written = later.same_written ∙ first.same_written;
        further = first.further ++ later.further;
        dispatches =
            later.dispatches
            ∙ ap (λ bs. bs ++ later.further) first.dispatches
            ∙ append_assoc s.dispatched first.further later.further;
      }
