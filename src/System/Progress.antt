-- ===== src/System/Progress.antt =====
-- That reactor.cpp can always read what a client still sends, and answer it.
use vector_engine.Common.{
  ℕ, ◌≡◌, ◌<◌, refl, sym, subst, ap, ◌∙◌, List, [], ◌∷◌, ◌++◌, append-nil, append_assoc, map, Bytes,
  All, All-append, ==_self,
}
use vector_engine.Decimal.{size_mod}
use vector_engine.Errors.{ok_pair-injective}
use vector_engine.Resp.Command.{RespCommand}
use vector_engine.Resp.Parser.Front.{IsStream, Front-lem, Front-parse}
use vector_engine.Task.{TaskOutput, create}
use vector_engine.Protocol.{resp, resp_response_builder}
use vector_engine.Connection.{Connection}
use vector_engine.Connection.Stream.{received, IsNew}
use vector_engine.Connection.Requests.{
  IsSmallRead, Waits, IsNew-Waits, receive-Waits, receive_all-Waits,
}
use vector_engine.Worker.Answers.{answers}
use vector_engine.Reactor.Send.{written}
use vector_engine.System.Reading.{Step-IsReading, Steps-IsReading}
use vector_engine.System.{System, Steps, IsReading, receives, done, more}
use vector_engine.System.Held.{carry_out_ok}
use vector_engine.System.Serves.{Serves}
use vector_engine.System.Order.{NothingYet, NothingYet-Serves, Step-Serves, Steps-Serves}
use vector_engine.System.Drain.{system_answers}
use vector_engine.System.Idle.{Steps-trans}
use vector_engine.System.Stream.{Serves-parse}

received-append : (rs qs : List (ℕ × Bytes)) → received (rs ++ qs) ≡ received rs ++ received qs
unfolding received
received-append [] qs = refl
received-append ((n, bytes) ∷ rs) qs =
    ap (λ t. bytes ++ t) (received-append rs qs)
    ∙ sym (append_assoc bytes (received rs) (received qs))

module _ (to_mcp_reply : TaskOutput → Bytes) (reserve_limit k most limit : ℕ)
    (cs : List RespCommand) (p : Bytes) (start : Connection) where
  -- The connection waits for the rest of the stream.
  Serves-Waits :
      (zs : Bytes) (s : System)
      → IsNew k resp start
      → start.read_buf.max_size ≡ limit
      → most < size_mod
      → IsStream reserve_limit most cs p
      → All (IsSmallRead most limit) (s.reads k)
      → received (s.reads k) ++ zs ≡ p
      → (inv : Serves to_mcp_reply reserve_limit k start s)
      → (later : List RespCommand) × Waits reserve_limit most limit later zs inv.conn
  Serves-Waits zs s new limited small stream past whole inv =
      let w =
        IsNew-Waits reserve_limit most limit k cs p (received (s.reads k) ++ zs) start new limited
          stream whole in
      let (conn', _, later, e, _, w') =
        receive_all-Waits reserve_limit most limit cs (s.reads k) zs start small past w in
      let (same, _) = ok_pair-injective (sym e ∙ inv.history) in
      (later, subst (Waits reserve_limit most limit later zs) same w')

  -- The loop can take the reads of the connection that are to come.
  take_reads :
      (rs : List (ℕ × Bytes)) (s : System)
      → IsNew k resp start
      → start.read_buf.max_size ≡ limit
      → most < size_mod
      → IsStream reserve_limit most cs p
      → All (IsSmallRead most limit) (s.reads k)
      → All (IsSmallRead most limit) rs
      → received (s.reads k) ++ received rs ≡ p
      → Serves to_mcp_reply reserve_limit k start s
      → IsReading k s.calls
      → (s' : System) × Steps to_mcp_reply reserve_limit k s s' × (s'.reads k ≡ s.reads k ++ rs)
  unfolding received
  take_reads [] s new limited small stream past to_come whole inv heard =
      (s, done s, sym (append-nil (s.reads k)))
  take_reads ((n, bytes) ∷ rs) s new limited small stream past (fits, to_come) whole inv heard =
      let (later, w) =
        Serves-Waits (bytes ++ received rs) s new limited small stream past whole inv in
      let (conn', es, _, e, stays, _) =
        receive-Waits reserve_limit most limit later n bytes (received rs) inv.conn small fits w in
      let (q, e') =
        carry_out_ok es s.pool
          (record { staffed = inv.order.staffed; working = inv.order.working }) in
      let step =
        receives s k n bytes inv.conn conn' es q inv.order.opened e (λ _. stays) e' heard in
      let past' : All (IsSmallRead most limit) (s.reads k ++ (n, bytes) ∷ []) =
        All-append (IsSmallRead most limit) (s.reads k) ((n, bytes) ∷ []) past (fits, tt) in
      let whole' =
        ap (λ (t : Bytes). t ++ received rs) (received-append (s.reads k) ((n, bytes) ∷ []))
        ∙ ap (λ (t : Bytes). (received (s.reads k) ++ t) ++ received rs) (append-nil bytes)
        ∙ append_assoc (received (s.reads k)) bytes (received rs)
        ∙ whole in
      let (s', further, same) =
        take_reads rs _ new limited small stream (rw (==_self k) past') to_come
          (rw (==_self k) whole') (Step-Serves to_mcp_reply reserve_limit k step inv)
          (Step-IsReading to_mcp_reply reserve_limit k step inv.order heard) in
      (s', more step further, same ∙ rw (==_self k) (append_assoc (s.reads k) ((n, bytes) ∷ []) rs))

-- From a state in which the map and the handles of the reactor are in order, a new RESP
-- connection is open and read from by libuv, every worker runs, none holds a stop marker, a
-- signal is on its way if replies wait, and nothing is read from it or dispatched, held, waiting
-- or written for it yet, let the loop and the workers take any steps, in any order and with any
-- other connections, that do not close it, and let its bytes so far be the front of a stream of
-- well-formed requests, each within the limits on its arguments and of at most `most` bytes. If
-- its reads bring no more bytes than were suggested for them and than the greatest size of the
-- buffer leaves beside `most`, then, however the rest of the stream is cut into such reads, there
-- are further steps that take them, after which exactly the answers to all requests of the stream
-- were written to the connection, in order.
pub system_serves :
    (to_mcp_reply : TaskOutput → Bytes) (reserve_limit k most limit : ℕ) (cs : List RespCommand)
    (p : Bytes) (rs : List (ℕ × Bytes)) (s s' : System) (fresh : NothingYet k s)
    → IsNew k resp fresh.conn
    → fresh.conn.read_buf.max_size ≡ limit
    → IsReading k s.calls
    → most < size_mod
    → IsStream reserve_limit most cs p
    → Steps to_mcp_reply reserve_limit k s s'
    → received (s'.reads k) ++ received rs ≡ p
    → All (IsSmallRead most limit) (s'.reads k)
    → All (IsSmallRead most limit) rs
    → (s'' : System) × Steps to_mcp_reply reserve_limit k s' s''
      × (s''.reads k ≡ s'.reads k ++ rs)
      × (written k s''.calls ≡ answers to_mcp_reply resp_response_builder (map create cs))
system_serves to_mcp_reply reserve_limit k most limit cs p rs s s' fresh new limited heard small
      stream steps whole past to_come =
    let inv =
      Steps-Serves to_mcp_reply reserve_limit k steps
        (NothingYet-Serves to_mcp_reply reserve_limit k s fresh) in
    let heard' =
      Steps-IsReading to_mcp_reply reserve_limit k steps
        (NothingYet-Serves to_mcp_reply reserve_limit k s fresh) heard in
    let (s₁, reading, all_read) =
      take_reads to_mcp_reply reserve_limit k most limit cs p fresh.conn rs s' new limited small
        stream past to_come whole inv heard' in
    let all_steps = Steps-trans to_mcp_reply reserve_limit k steps reading in
    let (s₂, answering, _, same_reads, sent) =
      system_answers to_mcp_reply reserve_limit k s s₁ fresh all_steps in
    let (ds, n, parsed, same) =
      Serves-parse to_mcp_reply reserve_limit k s₁ new
        (Steps-Serves to_mcp_reply reserve_limit k reading inv) in
    let arrived = ap received all_read ∙ received-append (s'.reads k) rs ∙ whole in
    let f =
      Front-lem reserve_limit most cs p (received (s₁.reads k)) [] small stream
        (append-nil (received (s₁.reads k)) ∙ arrived) in
    let (same_cmds, _) =
      ok_pair-injective
        (sym parsed ∙ Front-parse reserve_limit most cs (received (s₁.reads k)) [] f) in
    let split =
      f.split ∙ ap (λ later. f.arrived ++ later) (f.complete refl) ∙ append-nil f.arrived in
    (
      s₂,
      Steps-trans to_mcp_reply reserve_limit k reading answering,
      ap (λ reads. reads k) same_reads ∙ all_read,
      sent
          ∙ same
          ∙ ap (λ xs. answers to_mcp_reply resp_response_builder (map create xs))
              (same_cmds ∙ sym split),
    )
