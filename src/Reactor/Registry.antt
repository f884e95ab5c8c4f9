-- ===== src/Reactor/Registry.antt =====
-- The map of the connections in reactor.cpp: who is in it, under which id.
use mathlib.Core.Option.{some-injective}
use vector_engine.Common.{
  ℕ, ◌+◌, ◌%◌, ◌^◌, ◌≤◌, ◌<◌, ◌≡◌, ◌≢◌, refl, sym, ap, ◌∙◌, zero, suc, ℤ, pos, negsuc, List, [],
  ◌∷◌, none, some, arith, All, ◌==◌, ==_self, ==_false, ==_iff, subst₂, Bool-cases, inl, inr,
}
use vector_engine.Common.Maps.{
  find, emplace, assign, erase, find-erase, find-emplace_ne, find-emplace_self,
}
use vector_engine.Errors.{ok}
use vector_engine.Connection.{Connection, make_connection}
use vector_engine.Connection.Stream.{IsNew, make_connection-IsNew}
use vector_engine.Uv.{Libuv, enable_keepalive, make_tcp_client}
use vector_engine.Handle.{Handle, UPtr, set_data}
use vector_engine.Reactor.{
  Reactor, owned, read_start, handle_close, connection_id, create_client, accepted, on_connect,
  on_close,
}

-- An entry stands under the id of its connection, and that id was given out.
abbrev pub IsEntry : ℕ → ℕ × Connection → Type 0
IsEntry cnt (k, conn) = (conn.id ≡ k) × (k < cnt)

abbrev pub IsRegistry : Reactor → Type 0
IsRegistry r = All (IsEntry r.connection_cnt) r.connections

-- The handles of the reactor are there, and each belongs to it.
pub record AreWired (tcp stop reply : UPtr Handle) : Type 0 where
  pub server : owned tcp ≡ ok tt
  pub stop_async : owned stop ≡ ok tt
  pub reply_async : owned reply ≡ ok tt

abbrev pub IsWired : Reactor → Type 0
IsWired r = AreWired r.server r.stop_async r.reply_async

pub find-IsEntry :
    (cnt k : ℕ) (m : List (ℕ × Connection)) {conn : Connection}
    → All (IsEntry cnt) m
    → find k m ≡ some conn
    → IsEntry cnt (k, conn)
unfolding find
find-IsEntry cnt k [] {conn} h e = cc
find-IsEntry cnt k ((j, c) ∷ m) {conn} (h, hs) e = elim (Bool-cases (j == k)) [
  | inl same ↦
      subst₂ (λ c' j'. IsEntry cnt (j', c')) (some-injective c conn (rw same at e))
        ((==_iff j k).0 same) h
  | inr other ↦ find-IsEntry cnt k m hs (rw other at e)
]

weaken : (n k : ℕ) (m : List (ℕ × Connection)) → n ≤ k → All (IsEntry n) m → All (IsEntry k) m
weaken n k [] le h = tt
weaken n k ((j, c) ∷ m) le ((same, lt), hs) = ((same, omega (arith, lt, le)), weaken n k m le hs)

All-emplace :
    (cnt k : ℕ) (conn : Connection) (m : List (ℕ × Connection))
    → All (IsEntry cnt) m
    → IsEntry cnt (k, conn)
    → All (IsEntry cnt) (emplace k conn m)
unfolding emplace
All-emplace cnt k conn [] h e = (e, tt)
All-emplace cnt k conn ((j, c) ∷ m) (h, hs) e = elim (Bool-cases (j == k)) [
  | inl same ↦ rw same (h, hs)
  | inr other ↦ rw other (h, All-emplace cnt k conn m hs e)
]

All-erase :
    (cnt k : ℕ) (m : List (ℕ × Connection)) → All (IsEntry cnt) m → All (IsEntry cnt) (erase k m)
unfolding erase
All-erase cnt k [] h = tt
All-erase cnt k ((j, c) ∷ m) (h, hs) = elim (Bool-cases (j == k)) [
  | inl same ↦ rw same (All-erase cnt k m hs)
  | inr other ↦ rw other (h, All-erase cnt k m hs)
]

-- A connection that changes in place keeps its id.
pub All-assign :
    (cnt k : ℕ) (conn : Connection) (m : List (ℕ × Connection))
    → All (IsEntry cnt) m
    → conn.id ≡ k
    → All (IsEntry cnt) (assign k conn m)
unfolding assign
All-assign cnt k conn [] h e = tt
All-assign cnt k conn ((j, c) ∷ m) ((id, lt), hs) e = elim (Bool-cases (j == k)) [
  | inl same ↦ rw same ((e ∙ sym ((==_iff j k).0 same), lt), hs)
  | inr other ↦ rw other ((id, lt), All-assign cnt k conn m hs e)
]

-- An id that was not given out yet is in no entry.
pub fresh :
    (cnt k : ℕ) (m : List (ℕ × Connection)) → cnt ≤ k → All (IsEntry cnt) m → find k m ≡ none
unfolding find
fresh cnt k [] le h = refl
fresh cnt k ((j, c) ∷ m) le ((same, lt), hs) =
    rw (==_false j k (omega (arith, lt, le)), fresh cnt k m le hs)

pub on_close_unregisters :
    (conn : Connection) (r : Reactor)
    → IsRegistry r
    → IsRegistry (on_close conn r)
      × (find conn.id (on_close conn r).connections ≡ none)
      × ((k : ℕ) → conn.id ≢ k → find k (on_close conn r).connections ≡ find k r.connections)
unfolding on_close
on_close_unregisters conn r reg = (
  All-erase r.connection_cnt conn.id r.connections reg,
  rw (find-erase conn.id conn.id r.connections, ==_self conn.id),
  λ k ne. rw (find-erase conn.id k r.connections, ==_false conn.id k ne),
)

pub create_client_lem :
    (uv : Libuv) (r : Reactor)
    → r.connection_cnt + 1 < 2 ^ 64
    → 0 < r.opts.connection_opts.read_buf_min_size
    → r.opts.connection_opts.read_buf_min_size ≤ r.opts.connection_opts.read_buf_max_size
    → r.opts.connection_opts.read_buf_max_size ≤ 2 ^ 63
    → enable_keepalive uv r.opts.tcp_opts.keepalive ≡ ok tt
    → (conn : Connection) × (create_client uv r
        ≡ ok (
          r.connection_cnt,
          conn,
          record r {
            connection_cnt = r.connection_cnt + 1;
            connections = emplace r.connection_cnt conn r.connections;
          },
        ))
      × IsNew r.connection_cnt r.opts.protocol conn
      × (make_connection r.connection_cnt r.opts.connection_opts r.opts.protocol ≡ ok conn)
unfolding create_client connection_id make_tcp_client set_data
create_client_lem uv r unwrapped some_size le bounded alive =
    let (conn, e, new) =
      make_connection-IsNew r.connection_cnt r.opts.connection_opts.read_buf_min_size
        r.opts.connection_opts.read_buf_max_size r.opts.protocol some_size le bounded in
    let next : (r.connection_cnt + 1) % 2 ^ 64 ≡ r.connection_cnt + 1 = omega (arith, unwrapped) in
    (conn, rw (e, alive, next), new, e)

pub emplace_again :
    (k : ℕ) (conn : Connection) (m : List (ℕ × Connection))
    → emplace k conn (emplace k conn m) ≡ emplace k conn m
unfolding emplace
emplace_again k conn [] = rw (==_self k)
emplace_again k conn ((j, c) ∷ m) = elim (Bool-cases (j == k)) [
  | inl same ↦ rw same (rw same)
  | inr other ↦ rw other (rw other (ap (λ m'. (j, c) ∷ m') (emplace_again k conn m)))
]

-- If every entry of the map stands under its own id, the handles of the reactor are wired to it,
-- the limits of the read buffer are in order, the keepalive option can be set and fewer than 2^64
-- - 1 connections were made, then a connect callback without error returns: the new, empty
-- connection stands in the map under the next id, it is read or closed as `uv_accept` says, no
-- other entry and no waiting reply changes, every entry still stands under its own id, and the
-- handles are wired.
pub on_connect_registers :
    (uv : Libuv) (n : ℕ) (accept_err : ℤ) (r : Reactor)
    → IsRegistry r
    → IsWired r
    → r.connection_cnt + 1 < 2 ^ 64
    → 0 < r.opts.connection_opts.read_buf_min_size
    → r.opts.connection_opts.read_buf_min_size ≤ r.opts.connection_opts.read_buf_max_size
    → r.opts.connection_opts.read_buf_max_size ≤ 2 ^ 63
    → enable_keepalive uv r.opts.tcp_opts.keepalive ≡ ok tt
    → (conn : Connection) × (r' : Reactor) × (on_connect uv (pos n) accept_err r
        ≡ ok (r', accepted r.connection_cnt accept_err))
      × IsRegistry r'
      × IsWired r'
      × (find r.connection_cnt r'.connections ≡ some conn)
      × IsNew r.connection_cnt r.opts.protocol conn
      × ((k : ℕ) → k ≢ r.connection_cnt → find k r'.connections ≡ find k r.connections)
      × (r'.replies ≡ r.replies)
unfolding on_connect
on_connect_registers uv n accept_err r reg wired unwrapped some_size le bounded alive =
    let (conn, e, new, _) = create_client_lem uv r unwrapped some_size le bounded alive in
    let absent = fresh r.connection_cnt r.connection_cnt r.connections (omega arith) reg in
    (
      conn,
      record r {
        connection_cnt = r.connection_cnt + 1;
        connections = emplace r.connection_cnt conn r.connections;
      },
      rw (wired.server, e, emplace_again r.connection_cnt conn r.connections),
      All-emplace (r.connection_cnt + 1) r.connection_cnt conn r.connections
          (weaken r.connection_cnt (r.connection_cnt + 1) r.connections (omega arith) reg)
          (new.same_id, omega arith),
      wired,
      find-emplace_self r.connection_cnt conn r.connections absent,
      new,
      λ k ne. find-emplace_ne r.connection_cnt k conn r.connections (λ same. ne (sym same)),
      refl,
    )

-- What the result of `uv_accept` decides.
pub accepted_reads : (id : ℕ) → accepted id (pos 0) ≡ read_start id ∷ []
unfolding accepted
accepted_reads id = refl

accepted_closes : (id : ℕ) (err : ℤ) → err ≢ pos 0 → accepted id err ≡ handle_close id ∷ []
unfolding accepted
accepted_closes id (pos zero) failed = absurd (failed refl)
accepted_closes id (pos (suc n)) failed = refl
accepted_closes id (negsuc n) failed = refl

-- If every entry of the map stands under its own id, the handles of the reactor are wired to it,
-- the limits of the read buffer are in order, the keepalive option can be set and fewer than 2^64
-- - 1 connections were made, then a connect callback without error returns: the new, empty
-- connection stands in the map under the next id, its only call on libuv starts to read from it
-- if `uv_accept` returned 0 and closes it otherwise, no other entry and no waiting reply changes,
-- every entry still stands under its own id, and the handles are wired.
pub on_connect_accepts :
    (uv : Libuv) (n : ℕ) (accept_err : ℤ) (r : Reactor)
    → IsRegistry r
    → IsWired r
    → r.connection_cnt + 1 < 2 ^ 64
    → 0 < r.opts.connection_opts.read_buf_min_size
    → r.opts.connection_opts.read_buf_min_size ≤ r.opts.connection_opts.read_buf_max_size
    → r.opts.connection_opts.read_buf_max_size ≤ 2 ^ 63
    → enable_keepalive uv r.opts.tcp_opts.keepalive ≡ ok tt
    → (conn : Connection) × (r' : Reactor) × (accept_err ≡ pos 0
        → on_connect uv (pos n) accept_err r ≡ ok (r', read_start r.connection_cnt ∷ []))
      × (accept_err ≢ pos 0
          → on_connect uv (pos n) accept_err r ≡ ok (r', handle_close r.connection_cnt ∷ []))
      × IsRegistry r'
      × IsWired r'
      × (find r.connection_cnt r'.connections ≡ some conn)
      × IsNew r.connection_cnt r.opts.protocol conn
      × ((k : ℕ) → k ≢ r.connection_cnt → find k r'.connections ≡ find k r.connections)
      × (r'.replies ≡ r.replies)
on_connect_accepts uv n accept_err r reg wired unwrapped some_size le bounded alive =
    let (conn, r', e, reg', wired', opened, new, others, waiting) =
      on_connect_registers uv n accept_err r reg wired unwrapped some_size le bounded alive in
    (
      conn,
      r',
      λ fine.
          e
          ∙ ap (λ a. ok (r', accepted r.connection_cnt a)) fine
          ∙ ap (λ cs. ok (r', cs)) (accepted_reads r.connection_cnt),
      λ failed. e ∙ ap (λ cs. ok (r', cs)) (accepted_closes r.connection_cnt accept_err failed),
      reg',
      wired',
      opened,
      new,
      others,
      waiting,
    )
