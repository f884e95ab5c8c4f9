-- ===== src/System/Gone.antt =====
-- A connection that the close callback of connection.cpp has taken out of the map of reactor.cpp.
use mathlib.Core.Option.{none-ne-some}
use vector_engine.Common.{
  ℕ, ◌+◌, ◌<◌, ◌≤◌, ◌^◌, ◌≡◌, ◌≢◌, sym, ap, subst, ◌∙◌, ℤ, pos, negsuc, List, [], arith, none, some,
}
use vector_engine.Common.Maps.{find, find-assign_ne}
use vector_engine.Errors.{ok, ok-injective, ok_pair-injective}
use vector_engine.Connection.{Connection}
use vector_engine.Worker.{Reply}
use vector_engine.Uv.{Libuv, enable_keepalive}
use vector_engine.Reactor.{
  Reactor, Call, send, on_reply, on_write, on_connect, on_close, remove_connection,
}
use vector_engine.Reactor.Kept.{on_reply-IsRegistry, on_reply_counts}
use vector_engine.Reactor.Registry.{
  IsRegistry, IsWired, find-IsEntry, All-assign, on_connect_registers, on_close_unregisters,
}
use vector_engine.Reactor.Send.{written, replies_to, if_open, on_reply-written}
use vector_engine.Reactor.Signals.{send_lem}
use vector_engine.System.{assign_connection}
use vector_engine.System.Loop.{accepted-written}

-- The connection `k` was made and is not in the map of the reactor.
pub record IsGone (k : ℕ) (r : Reactor) : Type 0 where
  pub registry : IsRegistry r
  pub wired : IsWired r
  pub absent : find k r.connections ≡ none
  pub given : k < r.connection_cnt

module _ (k : ℕ) where
  -- A connection of the map changes in place.
  pub assign-IsGone :
      (r : Reactor) (id : ℕ) (c c' : Connection)
      → IsGone k r
      → find id r.connections ≡ some c
      → c'.id ≡ c.id
      → IsGone k (assign_connection id c' r)
  assign-IsGone r id c c' gone found same =
      let (named, _) = find-IsEntry r.connection_cnt id r.connections gone.registry found in
      let other : id ≢ k = λ e.
        none-ne-some c (sym gone.absent ∙ subst (λ j. find j r.connections ≡ some c) e found) in
      record {
        registry = All-assign r.connection_cnt id c' r.connections gone.registry (same ∙ named);
        wired = gone.wired;
        absent = find-assign_ne id k c' r.connections other ∙ gone.absent;
        given = gone.given;
      }

  pub send-IsGone :
      (rs : List Reply) (r r' : Reactor) → IsGone k r → send rs r ≡ ok r' → IsGone k r'
  send-IsGone rs r r' gone e =
      subst (IsGone k) (ok-injective (sym (send_lem rs r gone.wired) ∙ e)) (record {
        registry = gone.registry;
        wired = gone.wired;
        absent = gone.absent;
        given = gone.given;
      })

  pub on_reply-IsGone :
      (r r' : Reactor) (cs : List Call)
      → IsGone k r
      → on_reply r ≡ ok (r', cs)
      → IsGone k r' × (written k cs ≡ [])
  on_reply-IsGone r r' cs gone e =
      let (_, _, e', _, kept, sent) = on_reply-written r k gone.registry gone.wired in
      let same = ok_pair-injective (sym e' ∙ e) in
      let (reg, wired) = on_reply-IsRegistry r r' cs gone.registry gone.wired e in
      (
        record {
          registry = reg;
          wired = wired;
          absent =
              ap (λ (q : Reactor). find k q.connections) (sym same.0)
              ∙ ap (find k) kept
              ∙ gone.absent;
          given = subst (λ n. k < n) (sym (on_reply_counts r r' cs gone.wired e).0) gone.given;
        },
        ap (written k) (sym same.1)
            ∙ sent
            ∙ ap (λ o. if_open o (replies_to k r.replies)) gone.absent,
      )

  pub on_write-IsGone :
      (r : Reactor) (address : ℕ) (status : ℤ) → IsGone k r → IsGone k (on_write address status r)
  unfolding on_write
  on_write-IsGone r address (pos n) gone = record {
    registry = gone.registry;
    wired = gone.wired;
    absent = gone.absent;
    given = gone.given;
  }
  on_write-IsGone r address (negsuc n) gone = gone

  pub on_close-IsGone :
      (r : Reactor) (closed : Connection)
      → IsRegistry r
      → IsWired r
      → k < r.connection_cnt
      → find k (on_close closed r).connections ≡ none
      → IsGone k (on_close closed r)
  unfolding on_close remove_connection
  on_close-IsGone r closed reg wired given absent = record {
    registry = (on_close_unregisters closed r reg).0;
    wired = wired;
    absent = absent;
    given = given;
  }

  -- A new connection gets another id.
  pub on_connect-IsGone :
      (uv : Libuv) (n : ℕ) (accept_err : ℤ) (r r' : Reactor) (cs : List Call)
      → IsGone k r
      → r.connection_cnt + 1 < 2 ^ 64
      → 0 < r.opts.connection_opts.read_buf_min_size
      → r.opts.connection_opts.read_buf_min_size ≤ r.opts.connection_opts.read_buf_max_size
      → r.opts.connection_opts.read_buf_max_size ≤ 2 ^ 63
      → enable_keepalive uv r.opts.tcp_opts.keepalive ≡ ok tt
      → on_connect uv (pos n) accept_err r ≡ ok (r', cs)
      → IsGone k r' × (written k cs ≡ [])
  on_connect-IsGone uv n accept_err r r' cs gone unwrapped some_size le bounded alive e =
      let (_, q, e', reg, wired, found, _, others, _) =
        on_connect_registers uv n accept_err r gone.registry gone.wired unwrapped some_size le
          bounded alive in
      let same = ok_pair-injective (sym e' ∙ e) in
      let (_, counted) = find-IsEntry q.connection_cnt r.connection_cnt q.connections reg found in
      (
        subst (IsGone k) same.0 (record {
          registry = reg;
          wired = wired;
          absent = others k (omega (arith, gone.given)) ∙ gone.absent;
          given = omega (arith, gone.given, counted);
        }),
        ap (written k) (sym same.1) ∙ accepted-written k r.connection_cnt accept_err,
      )
