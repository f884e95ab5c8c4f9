-- ===== src/System/Reading.antt =====
-- That libuv goes on reading from a connection of reactor.cpp that is not closed.
use vector_engine.Common.{
  ℕ, zero, suc, ◌≡◌, ◌≢◌, refl, sym, ap, subst, ◌∙◌, Bool, false, ℤ, pos, negsuc, List, [], ◌∷◌,
  ◌++◌, Option, none, some, arith, Bytes, ==_false, ==_self,
}
use vector_engine.Errors.{ok, ok_pair-injective}
use vector_engine.Task.{TaskOutput}
use vector_engine.Connection.{Connection, Effect, dispatch, close}
use vector_engine.Connection.Dispatch.{StaysOpen}
use vector_engine.Worker.{Reply}
use vector_engine.Reactor.{
  Reactor, Call, read_start, handle_close, write, accepted, on_reply, send_pending, send_each,
  send_reply, write_to,
}
use vector_engine.Reactor.Registry.{IsWired, accepted_reads, find-IsEntry, on_connect_registers}
use vector_engine.System.{
  System, Step, Steps, receives, ends, fetches, answers_batch, replies, writes, connects, closes,
  done, more, closings, reading, IsReading,
}
use vector_engine.System.InOrder.{InOrder}
use vector_engine.System.Serves.{Serves}
use vector_engine.System.Order.{Step-Serves}

reading-append :
    (k : ℕ) (cs ds : List Call) (on : Bool)
    → reading k (cs ++ ds) on ≡ reading k ds (reading k cs on)
unfolding reading
reading-append k [] ds on = refl
reading-append k (read_start j ∷ cs) ds on = reading-append k cs ds _
reading-append k (handle_close j ∷ cs) ds on = reading-append k cs ds _
reading-append k (write j bytes ∷ cs) ds on = reading-append k cs ds on

-- Calls that do not stop the reading.
abbrev IsKept : ℕ → List Call → Type 0
IsKept k cs = (on : Bool) → reading k cs on ≡ on

append-IsReading :
    (k : ℕ) (cs ds : List Call) → IsKept k ds → IsReading k cs → IsReading k (cs ++ ds)
append-IsReading k cs ds kept h = reading-append k cs ds false ∙ kept _ ∙ h

closings-IsKept :
    (k id : ℕ) (es : List Effect) → (id ≡ k → StaysOpen es) → IsKept k (closings id es)
unfolding reading
closings-IsKept k id [] stays on = refl
closings-IsKept k id (dispatch j ts builder ∷ es) stays on = closings-IsKept k id es stays on
closings-IsKept k id (close ∷ es) stays on =
    rw (reading, ==_false id k (λ same. stays same))
      (closings-IsKept k id es (λ same. absurd (stays same)) on)

accepted-IsKept : (k id : ℕ) (err : ℤ) → id ≢ k → IsKept k (accepted id err)
unfolding reading accepted
accepted-IsKept k id (pos zero) other on = rw (==_false id k other)
accepted-IsKept k id (pos (suc n)) other on = rw (==_false id k other)
accepted-IsKept k id (negsuc n) other on = rw (==_false id k other)

write_to-IsKept :
    (k : ℕ) (c : Option Connection) (x : Reply) (r : Reactor) → IsKept k (write_to c x r).1
unfolding write_to reading
write_to-IsKept k none x r on = refl
write_to-IsKept k (some c) x r on = refl

send_each-IsKept : (k : ℕ) (r : Reactor) (xs : List Reply) → IsKept k (send_each r xs).1
unfolding send_each send_reply reading
send_each-IsKept k r [] on = refl
send_each-IsKept k r (x ∷ xs) on =
    reading-append k (send_reply r x).1 (send_each (send_reply r x).0 xs).1 on
    ∙ send_each-IsKept k (send_reply r x).0 xs _
    ∙ write_to-IsKept k _ x r on

on_reply-IsKept :
    (k : ℕ) (r r' : Reactor) (cs : List Call) → IsWired r → on_reply r ≡ ok (r', cs) → IsKept k cs
unfolding on_reply send_pending
on_reply-IsKept k r r' cs wired e =
    let (_, same) = ok_pair-injective (rw wired.reply_async at e) in
    subst (IsKept k) same
      (send_each-IsKept k (record r { reply_pending = false; replies = [] }) r.replies)

module _ (to_mcp_reply : TaskOutput → Bytes) (reserve_limit k : ℕ) where
  pub Step-IsReading :
      {conn : Connection} {s s' : System}
      → Step to_mcp_reply reserve_limit k s s'
      → InOrder to_mcp_reply k conn s
      → IsReading k s.calls
      → IsReading k s'.calls
  Step-IsReading (receives s id n bytes c c' es p found read stays e _) inv h =
      append-IsReading k s.calls (closings id es) (closings-IsKept k id es stays) h
  Step-IsReading (ends s id n c c' es other found read _) inv h =
      append-IsReading k s.calls (closings id es)
        (closings-IsKept k id es (λ same. absurd (other same))) h
  Step-IsReading (fetches s i w found free _) inv h = h
  Step-IsReading (answers_batch s i id ts builder bs r held e) inv h = h
  Step-IsReading (replies s r cs _ e) inv h =
      append-IsReading k s.calls cs (on_reply-IsKept k s.reactor r cs inv.wired e) h
  Step-IsReading (writes s address status) inv h = h
  Step-IsReading (connects s uv n accept_err r cs unwrapped some_size le bounded alive e) inv h =
      let (_, _, e', _, _, _, _, _, _) =
        on_connect_registers uv n accept_err s.reactor inv.registry inv.wired unwrapped some_size le
          bounded alive in
      let (_, same) = ok_pair-injective (sym e' ∙ e) in
      let (_, given) =
        find-IsEntry s.reactor.connection_cnt k s.reactor.connections inv.registry inv.opened in
      append-IsReading k s.calls cs
        (subst (IsKept k) same
          (accepted-IsKept k s.reactor.connection_cnt accept_err (omega (arith, given))))
        h
  Step-IsReading (closes s closed other) inv h = h

  -- As long as a connection that is read is not closed, it is read.
  pub Steps-IsReading :
      {start : Connection} {s s' : System}
      → Steps to_mcp_reply reserve_limit k s s'
      → Serves to_mcp_reply reserve_limit k start s
      → IsReading k s.calls
      → IsReading k s'.calls
  Steps-IsReading (done s) inv h = h
  Steps-IsReading (more step rest) inv h =
      Steps-IsReading rest (Step-Serves to_mcp_reply reserve_limit k step inv)
        (Step-IsReading step inv.order h)

-- An accepted client is read.
pub accepted-IsReading :
    (k : ℕ) (before accepts : List Call)
    → accepts ≡ accepted k (pos 0)
    → IsReading k (before ++ accepts)
unfolding reading
accepted-IsReading k before accepts e =
    reading-append k before accepts false
    ∙ ap (λ cs. reading k cs (reading k before false)) (e ∙ accepted_reads k)
    ∙ rw (==_self k) refl
