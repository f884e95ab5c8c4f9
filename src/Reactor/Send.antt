-- ===== src/Reactor/Send.antt =====
-- The reply callback and `dispatch` of reactor.cpp.
use vector_engine.Common.{
  ℕ, ◌%◌, ◌<◌, ◌≡◌, refl, sym, ap, ap₂, append_assoc, ◌∙◌, List, [], ◌∷◌, ◌++◌, Option, none, some,
  All, Bytes, ◌==◌, ==_iff, Bool-cases, inl, inr, true, false, Bool, if◌then◌else◌, lt→ltb,
}
use vector_engine.Common.Maps.{find, update}
use vector_engine.Errors.{ok}
use vector_engine.Task.{Task, TaskOutput}
use vector_engine.Protocol.{ResponseBuilder}
use vector_engine.Connection.{Connection}
use vector_engine.Worker.{
  BatchTask, batch, Reply, Worker, WorkerPool, submit, fetch, or_stopped, stop_pool,
}
use vector_engine.Worker.Stop.{fetch-stop_pool}
use vector_engine.Reactor.{
  Reactor, Call, read_start, handle_close, write, write_to, send_reply, send_each, send_pending,
  on_reply, dispatch,
}
use vector_engine.Reactor.Registry.{IsEntry, IsRegistry, IsWired, find-IsEntry}

-- The bytes that calls write to the connection `k`, in order.
abbrev pub written : ℕ → List Call → Bytes
written k [] = []
written k (write j bytes ∷ cs) = if j == k then bytes ++ written k cs else written k cs
written k (read_start j ∷ cs) = written k cs
written k (handle_close j ∷ cs) = written k cs

-- The replies to the connection `k`, one behind another.
abbrev pub replies_to : ℕ → List Reply → Bytes
replies_to k [] = []
replies_to k (r ∷ rs) = if r.connection_id == k then r.reply ++ replies_to k rs else replies_to k rs

-- What an open connection gets; one that is not in the map gets nothing.
abbrev pub if_open : Option Connection → Bytes → Bytes
if_open none bytes = []
if_open (some conn) bytes = bytes

pub replies_to-append :
    (k : ℕ) (rs qs : List Reply) → replies_to k (rs ++ qs) ≡ replies_to k rs ++ replies_to k qs
replies_to-append k [] qs = refl
replies_to-append k (r ∷ rs) qs = elim (Bool-cases (r.connection_id == k)) [
  | inl same ↦ rw same (
      ap (λ bytes. r.reply ++ bytes) (replies_to-append k rs qs)
      ∙ sym (append_assoc r.reply (replies_to k rs) (replies_to k qs)))
  | inr other ↦ rw other (replies_to-append k rs qs)
]

pub written-append :
    (k : ℕ) (cs ds : List Call) → written k (cs ++ ds) ≡ written k cs ++ written k ds
written-append k [] ds = refl
written-append k (read_start j ∷ cs) ds = written-append k cs ds
written-append k (handle_close j ∷ cs) ds = written-append k cs ds
written-append k (write j bytes ∷ cs) ds = elim (Bool-cases (j == k)) [
  | inl same ↦ rw same (
      ap (λ rest. bytes ++ rest) (written-append k cs ds)
      ∙ sym (append_assoc bytes (written k cs) (written k ds)))
  | inr other ↦ rw other (written-append k cs ds)
]

pub either_same : (b : Bool) (bytes : Bytes) → bytes ≡ (if b then bytes else bytes)
either_same true bytes = refl
either_same false bytes = refl

-- The call for one reply, and the calls for several in order.
abbrev call_for : Option Connection → Bytes → List Call
call_for none bytes = []
call_for (some client) bytes = write client.id bytes ∷ []

abbrev calls_for : List (ℕ × Connection) → List Reply → List Call
calls_for m [] = []
calls_for m (r ∷ rs) = call_for (find r.connection_id m) r.reply ++ calls_for m rs

call_for-written :
    (j k : ℕ) (o : Option Connection) (bytes : Bytes) (cs : List Call)
    → ((c : Connection) → o ≡ some c → c.id ≡ j)
    → written k (call_for o bytes ++ cs)
      ≡ (if j == k then if_open o bytes ++ written k cs else written k cs)
call_for-written j k none bytes cs h = either_same (j == k) (written k cs)
call_for-written j k (some c) bytes cs h = rw (h c refl)

if_open-append :
    (o : Option Connection) (a b : Bytes) → if_open o a ++ if_open o b ≡ if_open o (a ++ b)
if_open-append none a b = refl
if_open-append (some c) a b = refl

if_open-nil : (o : Option Connection) → [] ≡ if_open o []
if_open-nil none = refl
if_open-nil (some c) = refl

more_written :
    (k : ℕ) (m : List (ℕ × Connection)) (r : Reply) (rs : List Reply) (cs : List Call)
    → written k cs ≡ if_open (find k m) (replies_to k rs)
    → (if r.connection_id == k
        then if_open (find r.connection_id m) r.reply ++ written k cs
        else written k cs)
      ≡ if_open (find k m) (replies_to k (r ∷ rs))
more_written k m r rs cs h = elim (Bool-cases (r.connection_id == k)) [
  | inl same ↦
      rw (same, h)
        (ap (λ j. if_open (find j m) r.reply ++ if_open (find k m) (replies_to k rs))
            ((==_iff r.connection_id k).0 same)
          ∙ if_open-append (find k m) r.reply (replies_to k rs))
  | inr other ↦ rw other h
]

calls_for-written :
    (cnt k : ℕ) (m : List (ℕ × Connection)) (rs : List Reply)
    → All (IsEntry cnt) m
    → written k (calls_for m rs) ≡ if_open (find k m) (replies_to k rs)
calls_for-written cnt k m [] h = if_open-nil (find k m)
calls_for-written cnt k m (r ∷ rs) h =
    call_for-written r.connection_id k (find r.connection_id m) r.reply (calls_for m rs)
      (λ c e. (find-IsEntry cnt r.connection_id m h e).0)
    ∙ more_written k m r rs (calls_for m rs) (calls_for-written cnt k m rs h)

-- What sending leaves of the reactor: only the heap of contexts changes.
pub record Sent (m : List (ℕ × Connection)) (rs qs : List Reply) (o : Reactor × List Call)
    : Type 0 where
  pub calls : o.1 ≡ calls_for m rs
  pub same_connections : o.0.connections ≡ m
  pub same_replies : o.0.replies ≡ qs

write_to-Sent :
    (c : Option Connection) (x : Reply) (r : Reactor)
    → ((write_to c x r).1 ≡ call_for c x.reply)
      × ((write_to c x r).0.connections ≡ r.connections)
      × ((write_to c x r).0.replies ≡ r.replies)
unfolding write_to
write_to-Sent none x r = (refl, refl, refl)
write_to-Sent (some c) x r = (refl, refl, refl)

send_each-Sent :
    (r : Reactor) (m : List (ℕ × Connection)) (rs qs : List Reply)
    → r.connections ≡ m
    → r.replies ≡ qs
    → Sent m rs qs (send_each r rs)
unfolding send_each send_reply
send_each-Sent r m [] qs same kept = record {
  calls = refl;
  same_connections = same;
  same_replies = kept;
}
send_each-Sent r m (x ∷ xs) qs same kept =
    let (call, connections, replies) = write_to-Sent (find x.connection_id r.connections) x r in
    let rest = send_each-Sent (send_reply r x).0 m xs qs (connections ∙ same) (replies ∙ kept) in
    record {
      calls =
          ap₂ ◌++◌ (call ∙ ap (λ m'. call_for (find x.connection_id m') x.reply) same) rest.calls;
      same_connections = rest.same_connections;
      same_replies = rest.same_replies;
    }

-- With every connection in the map under its own id and the handles of the reactor wired to it,
-- the reply callback returns and empties the queue of replies; a connection that is in the map is
-- written the replies to it, in order, and one that is not in the map is written nothing.
pub on_reply-written :
    (r : Reactor) (k : ℕ)
    → IsRegistry r
    → IsWired r
    → (r' : Reactor) × (cs : List Call) × (on_reply r ≡ ok (r', cs))
      × (r'.replies ≡ [])
      × (r'.connections ≡ r.connections)
      × (written k cs ≡ if_open (find k r.connections) (replies_to k r.replies))
unfolding on_reply send_pending
on_reply-written r k reg wired =
    let s =
      send_each-Sent (record r { reply_pending = false; replies = [] }) r.connections r.replies []
        refl refl in
    (
      (send_each (record r { reply_pending = false; replies = [] }) r.replies).0,
      (send_each (record r { reply_pending = false; replies = [] }) r.replies).1,
      rw wired.reply_async,
      s.same_replies,
      s.same_connections,
      ap (written k) s.calls ∙ calls_for-written r.connection_cnt k r.connections r.replies reg,
    )

-- With a pool that has workers, the tasks of a connection go to the back of the queue of the one
-- worker that its id picks, and no other worker changes; where that worker was stopped they are
-- dropped and nothing is thrown.
pub dispatch-submit :
    (pool : WorkerPool) (id : ℕ) (ts : List Task) (builder : ResponseBuilder)
    → 0 < pool.size
    → ((w : Worker)
        → pool.workers (id % pool.size) ≡ some w
        → dispatch pool id ts builder
          ≡ ok (record pool {
            workers = update pool.workers (id % pool.size) (some (submit w (batch id ts builder)));
          }))
      × (pool.workers (id % pool.size) ≡ none → dispatch pool id ts builder ≡ ok pool)
unfolding dispatch fetch or_stopped
dispatch-submit pool id ts builder some_worker =
    (λ w e. rw (lt→ltb 0 pool.size some_worker, e), λ e. rw (lt→ltb 0 pool.size some_worker, e))

-- Once a pool that has workers was stopped, the tasks of every connection are dropped and nothing
-- is thrown.
pub dispatch-stop_pool :
    (to_mcp_reply : TaskOutput → Bytes) (hands : ℕ → List BatchTask) (pool p : WorkerPool) (id : ℕ)
    (ts : List Task) (builder : ResponseBuilder) {sends : List (List Reply)}
    → 0 < pool.size
    → stop_pool to_mcp_reply hands pool ≡ ok (sends, p)
    → dispatch p id ts builder ≡ ok p
unfolding dispatch
dispatch-stop_pool to_mcp_reply hands pool p id ts builder some_worker e =
    rw (fetch-stop_pool to_mcp_reply hands pool id some_worker e)
