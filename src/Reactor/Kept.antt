-- ===== src/Reactor/Kept.antt =====
-- What the callbacks of reactor.cpp leave as it was, while they write and free contexts.
use mathlib.Core.Option.{some-injective}
use vector_engine.Common.{
  ◌+◌, ◌<◌, ◌≤◌, ◌^◌, ℤ, pos, arith, ℕ, ◌≡◌, refl, sym, subst, ap, ◌∙◌, false, List, [], ◌∷◌, none,
  some, Option,
}
use vector_engine.Common.Maps.{find, find-emplace_self}
use vector_engine.Uv.{Libuv, enable_keepalive}
use vector_engine.Connection.Requests.{make_connection_limit}
use vector_engine.Errors.{ok, ok-injective, ok_pair-injective}
use vector_engine.Connection.{Connection}
use vector_engine.Worker.{Reply}
use vector_engine.Reactor.{
  Reactor, ReplyContext, Call, write_to, send_reply, send_each, send_pending, on_reply, on_connect,
}
use vector_engine.Reactor.Registry.{IsRegistry, IsWired, create_client_lem, emplace_again, fresh}

-- Only the heap of the contexts differs.
pub record IsSameButContexts (r r' : Reactor) : Type 0 where
  pub next : ℕ
  pub heap : List (ℕ × ReplyContext)
  pub same : r' ≡ record r { next_context = next; contexts = heap }

write_to-IsSame :
    (c : Option Connection) (x : Reply) (r : Reactor) → IsSameButContexts r (write_to c x r).0
unfolding write_to
write_to-IsSame none x r = record { next = r.next_context; heap = r.contexts; same = refl }
write_to-IsSame (some c) x r = record { next = _; heap = _; same = refl }

send_each-IsSame : (r : Reactor) (rs : List Reply) → IsSameButContexts r (send_each r rs).0
unfolding send_each send_reply
send_each-IsSame r [] = record { next = r.next_context; heap = r.contexts; same = refl }
send_each-IsSame r (x ∷ xs) =
    let first = write_to-IsSame (find x.connection_id r.connections) x r in
    let rest = send_each-IsSame (send_reply r x).0 xs in
    record {
      next = rest.next;
      heap = rest.heap;
      same =
          rest.same
          ∙ ap {A = Reactor} (λ q. record q { next_context = rest.next; contexts = rest.heap })
              first.same;
    }

pub on_reply-IsRegistry :
    (r r' : Reactor) (cs : List Call)
    → IsRegistry r
    → IsWired r
    → on_reply r ≡ ok (r', cs)
    → IsRegistry r' × IsWired r'
unfolding on_reply send_pending
on_reply-IsRegistry r r' cs reg wired e =
    let q = record r { reply_pending = false; replies = [] } in
    let kept = send_each-IsSame q r.replies in
    let result : (send_each q r.replies).0 ≡ r' =
      ap (λ o. o.0) (ok-injective (rw wired.reply_async at e)) in
    subst (λ p. IsRegistry p × IsWired p) (sym kept.same ∙ result) (reg, wired)

-- The reply callback makes no connection, changes no option and ends no thread.
pub on_reply_counts :
    (r r' : Reactor) (cs : List Call)
    → IsWired r
    → on_reply r ≡ ok (r', cs)
    → (r'.connection_cnt ≡ r.connection_cnt) × (r'.opts ≡ r.opts) × (r'.joinable ≡ r.joinable)
unfolding on_reply send_pending
on_reply_counts r r' cs wired e =
    let q = record r { reply_pending = false; replies = [] } in
    let result : (send_each q r.replies).0 ≡ r' =
      ap (λ o. o.0) (ok-injective (rw wired.reply_async at e)) in
    let same = sym result ∙ (send_each-IsSame q r.replies).same in
    (
      ap (λ (p : Reactor). p.connection_cnt) same,
      ap (λ (p : Reactor). p.opts) same,
      ap (λ (p : Reactor). p.joinable) same,
    )

-- The reply callback changes no connection.
pub on_reply_connections :
    (r r' : Reactor) (cs : List Call)
    → IsWired r
    → on_reply r ≡ ok (r', cs)
    → r'.connections ≡ r.connections
unfolding on_reply send_pending
on_reply_connections r r' cs wired e =
    let q = record r { reply_pending = false; replies = [] } in
    let result : (send_each q r.replies).0 ≡ r' =
      ap (λ o. o.0) (ok-injective (rw wired.reply_async at e)) in
    ap (λ (p : Reactor). p.connections) (sym result ∙ (send_each-IsSame q r.replies).same)

-- The buffer of a new connection may grow to the size that the options give.
pub on_connect_limit :
    (uv : Libuv) (n : ℕ) (accept_err : ℤ) (r : Reactor) {r' : Reactor} {cs : List Call}
    {conn : Connection}
    → IsRegistry r
    → IsWired r
    → r.connection_cnt + 1 < 2 ^ 64
    → 0 < r.opts.connection_opts.read_buf_min_size
    → r.opts.connection_opts.read_buf_min_size ≤ r.opts.connection_opts.read_buf_max_size
    → r.opts.connection_opts.read_buf_max_size ≤ 2 ^ 63
    → enable_keepalive uv r.opts.tcp_opts.keepalive ≡ ok tt
    → on_connect uv (pos n) accept_err r ≡ ok (r', cs)
    → find r.connection_cnt r'.connections ≡ some conn
    → conn.read_buf.max_size ≡ r.opts.connection_opts.read_buf_max_size
unfolding on_connect
on_connect_limit uv n accept_err r {r'} {cs} {conn} reg wired unwrapped some_size le bounded alive e
      opened =
    let (c, e', _, made) = create_client_lem uv r unwrapped some_size le bounded alive in
    let (same, _) = ok_pair-injective (rw (wired.server, e') at e) in
    let absent = fresh r.connection_cnt r.connection_cnt r.connections (omega arith) reg in
    let there =
      sym (find-emplace_self r.connection_cnt c r.connections absent)
      ∙ ap (find r.connection_cnt) (sym (emplace_again r.connection_cnt c r.connections))
      ∙ ap (λ (q : Reactor). find r.connection_cnt q.connections) same
      ∙ opened in
    ap (λ (d : Connection). d.read_buf.max_size) (sym (some-injective c conn there))
    ∙ make_connection_limit r.connection_cnt r.opts.connection_opts.read_buf_min_size
        r.opts.connection_opts.read_buf_max_size r.opts.protocol made

-- A connection that is made counts, and changes no option and ends no thread.
pub on_connect_counts :
    (uv : Libuv) (n : ℕ) (accept_err : ℤ) (r : Reactor) {r' : Reactor} {cs : List Call}
    → IsWired r
    → r.connection_cnt + 1 < 2 ^ 64
    → 0 < r.opts.connection_opts.read_buf_min_size
    → r.opts.connection_opts.read_buf_min_size ≤ r.opts.connection_opts.read_buf_max_size
    → r.opts.connection_opts.read_buf_max_size ≤ 2 ^ 63
    → enable_keepalive uv r.opts.tcp_opts.keepalive ≡ ok tt
    → on_connect uv (pos n) accept_err r ≡ ok (r', cs)
    → (r'.connection_cnt ≡ r.connection_cnt + 1) × (r'.opts ≡ r.opts) × (r'.joinable ≡ r.joinable)
unfolding on_connect
on_connect_counts uv n accept_err r wired unwrapped some_size le bounded alive e =
    let (conn, e', _, _) = create_client_lem uv r unwrapped some_size le bounded alive in
    let (same, _) = ok_pair-injective (rw (wired.server, e') at e) in
    (
      ap (λ (q : Reactor). q.connection_cnt) (sym same),
      ap (λ (q : Reactor). q.opts) (sym same),
      ap (λ (q : Reactor). q.joinable) (sym same),
    )
