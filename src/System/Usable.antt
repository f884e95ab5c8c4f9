-- ===== src/System/Usable.antt =====
-- That every connection of reactor.cpp stays fit for the next read, whatever the threads do.
use mathlib.Core.Option.{some-injective}
use vector_engine.Common.{
  ℕ, ◌+◌, ◌<◌, ◌≤◌, ◌^◌, ◌≡◌, sym, ap, subst, ◌∙◌, ℤ, pos, negsuc, List, Bytes, none, some, ◌==◌,
  ==_iff, ==_ne, Bool-cases, inl, inr,
}
use vector_engine.Common.Maps.{find, find-assign_ne, find-assign_self}
use vector_engine.Errors.{ok, ok-injective, ok_pair-injective, Ensures-ok}
use vector_engine.Task.{TaskOutput}
use vector_engine.Protocol.{resp}
use vector_engine.ReadBuffer.Growth.{IsValid}
use vector_engine.Connection.{Connection, on_read}
use vector_engine.Connection.Kept.{Kept, receive-Kept}
use vector_engine.Connection.Survive.{receive-IsValid}
use vector_engine.Uv.{Libuv, enable_keepalive}
use vector_engine.Reactor.{Reactor, ReactorOptions, Call, on_write, on_close, on_connect}
use vector_engine.Reactor.Registry.{on_connect_registers, on_close_unregisters}
use vector_engine.Reactor.Kept.{on_reply_connections}
use vector_engine.Reactor.Signals.{send_lem}
use vector_engine.System.{
  System, Step, Steps, receives, ends, fetches, answers_batch, replies, writes, connects, closes,
  done, more, assign_connection,
}
use vector_engine.System.Good.{IsGood}
use vector_engine.System.Sound.{IsSound, Step-IsSound}

-- A connection speaks RESP and has a valid buffer.
abbrev pub IsUsable : Connection → Type 0
IsUsable conn = IsValid conn.read_buf × (conn.protocol ≡ resp)

abbrev pub AreUsable : Reactor → Type 0
AreUsable r = (k : ℕ) (conn : Connection) → find k r.connections ≡ some conn → IsUsable conn

assign-AreUsable :
    (r : Reactor) (id : ℕ) (c c' : Connection)
    → find id r.connections ≡ some c
    → IsUsable c'
    → AreUsable r
    → AreUsable (assign_connection id c' r)
assign-AreUsable r id c c' found u all k conn e = elim (Bool-cases (id == k)) [
  | inl same ↦
      let e' =
        subst (λ j. find j (assign_connection id c' r).connections ≡ some conn)
          (sym ((==_iff id k).0 same)) e in
      subst IsUsable
        (some-injective c' conn (sym (find-assign_self id c' c r.connections found) ∙ e')) u
  | inr other ↦ all k conn (sym (find-assign_ne id k c' r.connections (==_ne id k other)) ∙ e)
]

same-AreUsable : (r r' : Reactor) → r'.connections ≡ r.connections → AreUsable r → AreUsable r'
same-AreUsable r r' same all k conn e = all k conn (ap (find k) (sym same) ∙ e)

on_write-AreUsable :
    (address : ℕ) (status : ℤ) (r : Reactor) → AreUsable r → AreUsable (on_write address status r)
unfolding on_write
on_write-AreUsable address (pos n) r all = all
on_write-AreUsable address (negsuc n) r all = all

on_close-AreUsable :
    (o : ReactorOptions) (closed : Connection) (r : Reactor)
    → IsGood o r
    → AreUsable r
    → AreUsable (on_close closed r)
on_close-AreUsable o closed r good all k conn e =
    let (_, gone, kept) = on_close_unregisters closed r good.registry in
    elim (Bool-cases (closed.id == k)) [
      | inl same ↦
          let gone' =
            subst (λ j. find j (on_close closed r).connections ≡ none) ((==_iff closed.id k).0 same)
              gone in
          absurd (cc (sym gone' ∙ e))
      | inr other ↦ all k conn (sym (kept k (==_ne closed.id k other)) ∙ e)
    ]

on_connect-AreUsable :
    (o : ReactorOptions) (uv : Libuv) (n : ℕ) (accept_err : ℤ) (r : Reactor) {r' : Reactor}
    {cs : List Call}
    → IsGood o r
    → o.protocol ≡ resp
    → r.connection_cnt + 1 < 2 ^ 64
    → 0 < r.opts.connection_opts.read_buf_min_size
    → r.opts.connection_opts.read_buf_min_size ≤ r.opts.connection_opts.read_buf_max_size
    → r.opts.connection_opts.read_buf_max_size ≤ 2 ^ 63
    → enable_keepalive uv r.opts.tcp_opts.keepalive ≡ ok tt
    → on_connect uv (pos n) accept_err r ≡ ok (r', cs)
    → AreUsable r
    → AreUsable r'
on_connect-AreUsable o uv n accept_err r {r'} good speaks unwrapped some_size le bounded alive e all
      k conn found =
    let (c, q, e', _, _, opened, new, kept, _) =
      on_connect_registers uv n accept_err r good.registry good.wired unwrapped some_size le bounded
        alive in
    let found' : find k q.connections ≡ some conn =
      ap (λ (p : Reactor). find k p.connections) (ok_pair-injective (sym e' ∙ e)).0 ∙ found in
    elim (Bool-cases (k == r.connection_cnt)) [
      | inl same ↦
          let there =
            subst (λ j. find j q.connections ≡ some conn) ((==_iff k r.connection_cnt).0 same)
              found' in
          subst IsUsable (some-injective c conn (sym opened ∙ there)) (
            new.valid,
            new.same_protocol ∙ ap (λ (p : ReactorOptions). p.protocol) good.same_opts ∙ speaks,
          )
      | inr other ↦ all k conn (sym (kept k (==_ne k r.connection_cnt other)) ∙ found')
    ]

module _ (o : ReactorOptions) (to_mcp_reply : TaskOutput → Bytes) (reserve_limit j : ℕ) where
  Step-AreUsable :
      {s s' : System}
      → o.protocol ≡ resp
      → Step to_mcp_reply reserve_limit j s s'
      → IsSound o s
      → AreUsable s.reactor
      → AreUsable s'.reactor
  unfolding on_read
  Step-AreUsable speaks (receives s id n bytes c c' es p found read _ e _) sound all =
      let (valid, is_resp) = all id c found in
      let kept = Ensures-ok (Kept c) read (receive-Kept reserve_limit c n bytes) in
      assign-AreUsable s.reactor id c c' found
        (receive-IsValid reserve_limit c n bytes valid is_resp read, kept.same_protocol ∙ is_resp)
        all
  Step-AreUsable speaks (ends s id n c c' es _ found read _) sound all =
      assign-AreUsable s.reactor id c c' found
        (subst IsUsable (ok_pair-injective read).0 (all id c found)) all
  Step-AreUsable speaks (fetches s i w found free _) sound all = all
  Step-AreUsable speaks (answers_batch s i id ts builder bs r taken e) sound all =
      same-AreUsable s.reactor r
        (ap (λ (q : Reactor). q.connections)
          (ok-injective (sym e ∙ send_lem _ s.reactor sound.good.wired)))
        all
  Step-AreUsable speaks (replies s r cs _ e) sound all =
      same-AreUsable s.reactor r (on_reply_connections s.reactor r cs sound.good.wired e) all
  Step-AreUsable speaks (writes s address status) sound all =
      on_write-AreUsable address status s.reactor all
  Step-AreUsable speaks (connects s uv n accept_err r cs unwrapped some_size le bounded alive e)
        sound all =
      on_connect-AreUsable o uv n accept_err s.reactor sound.good speaks unwrapped some_size le
        bounded alive e all
  Step-AreUsable speaks (closes s closed _) sound all =
      on_close-AreUsable o closed s.reactor sound.good all

  pub Steps-AreUsable :
      {s s' : System}
      → o.protocol ≡ resp
      → Steps to_mcp_reply reserve_limit j s s'
      → IsSound o s
      → AreUsable s.reactor
      → AreUsable s'.reactor
  Steps-AreUsable speaks (done s) sound all = all
  Steps-AreUsable speaks (more step rest) sound all =
      Steps-AreUsable speaks rest (Step-IsSound o to_mcp_reply reserve_limit j step sound)
        (Step-AreUsable speaks step sound all)
