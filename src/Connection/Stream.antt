-- ===== src/Connection/Stream.antt =====
-- A connection of connection.cpp over a sequence of reads.
use vector_engine.Common.{
  All, All-append, ℕ, ◌+◌, ◌≤◌, ◌<◌, ◌^◌, ◌≡◌, refl, sym, subst, subst₂, ap, ap₂, ◌∙◌, List, [],
  ◌∷◌, ◌++◌, map, map-append, append-nil, append_assoc, Bytes, drop, drop_within-append, drop-drop,
}
use vector_engine.Errors.{Outcome, ok, ◌>>=◌, >>=-eq-ok, ok_pair-injective, ok-injective}
use vector_engine.Resp.Command.{RespCommand}
use vector_engine.Resp.Parser.{parse}
use vector_engine.Resp.Parser.Stream.{parse_sound, parse_taken, parse_nil, parse_chunks}
use vector_engine.Resp.Parser.Loop.{behind}
use vector_engine.Task.{create}
use vector_engine.Protocol.{ProtocolType, resp}
use vector_engine.ReadBuffer.{contents}
use vector_engine.ReadBuffer.Growth.{IsValid}
use vector_engine.ReadBuffer.Fifo.{make-IsValid}
use vector_engine.Connection.{Connection, Effect, dispatch, close, make_connection}
use vector_engine.Connection.Dispatch.{dispatched, StaysOpen, IsOwn}
use vector_engine.Connection.Read.{receive, IsDrained, Step, Step-nothing, receive-Step}

-- The bytes of several reads, each with the size that libuv suggested for it.
unfoldable pub received : List (ℕ × Bytes) → Bytes
received [] = []
received ((n, bytes) ∷ rs) = bytes ++ received rs

dispatched-append : (es fs : List Effect) → dispatched (es ++ fs) ≡ dispatched es ++ dispatched fs
dispatched-append [] fs = refl
dispatched-append (dispatch id ts p ∷ es) fs =
    ap (◌++◌ ts) (dispatched-append es fs) ∙ sym (append_assoc ts (dispatched es) (dispatched fs))
dispatched-append (close ∷ es) fs = dispatched-append es fs

StaysOpen-append : (es fs : List Effect) → StaysOpen (es ++ fs) → StaysOpen es × StaysOpen fs
StaysOpen-append [] fs h = (tt, h)
StaysOpen-append (dispatch id ts p ∷ es) fs h = StaysOpen-append es fs h
StaysOpen-append (close ∷ es) fs h = absurd h

module _ (reserve_limit : ℕ) where
  unfoldable pub add_effects :
      List Effect → Connection × List Effect → Outcome (Connection × List Effect)
  add_effects es (conn, fs) = ok (conn, es ++ fs)

  unfoldable pub receive_all : Connection → List (ℕ × Bytes) → Outcome (Connection × List Effect)
  unfolding add_effects
  receive_all conn [] = ok (conn, [])
  receive_all conn ((n, bytes) ∷ rs) =
      receive reserve_limit conn n bytes >>= λ (c, es). receive_all c rs >>= add_effects es

  -- One more read.
  pub receive_all-append :
      (conn c c' : Connection) (rs : List (ℕ × Bytes)) (es fs : List Effect) (n : ℕ) (bytes : Bytes)
      → receive_all conn rs ≡ ok (c, es)
      → receive reserve_limit c n bytes ≡ ok (c', fs)
      → receive_all conn (rs ++ (n, bytes) ∷ []) ≡ ok (c', es ++ fs)
  unfolding receive_all add_effects
  receive_all-append conn c c' [] es fs n bytes e e' =
      let (same, none_yet) = ok_pair-injective e in
      let e₂ =
        subst (λ (d : Connection). receive reserve_limit d n bytes ≡ ok (c', fs)) (sym same) e' in
      rw e₂ (ap (λ es. ok (c', es)) (append-nil fs ∙ ap (λ (gs : List Effect). gs ++ fs) none_yet))
  receive_all-append conn c c' ((m, bs) ∷ rs) es fs n bytes e e' =
      let ((d, gs), e₁, k) = >>=-eq-ok (receive reserve_limit conn m bs) _ e in
      let ((d', hs), e₂, k') = >>=-eq-ok (receive_all d rs) _ k in
      let (ec, ees) = ok_pair-injective k' in
      let e₃ =
        subst (λ (x : Connection). receive reserve_limit x n bytes ≡ ok (c', fs)) (sym ec) e' in
      rw (e₁, receive_all-append d d' c' rs hs fs n bytes e₂ e₃)
        (ap (λ es. ok (c', es))
          (sym (append_assoc gs hs fs) ∙ ap (λ (es : List Effect). es ++ fs) ees))

  Step-then :
      (conn c conn' : Connection) (bytes more : Bytes) (es fs : List Effect)
      → Step reserve_limit conn bytes c es
      → Step reserve_limit c more conn' fs
      → Step reserve_limit conn (bytes ++ more) conn' (es ++ fs)
  Step-then conn c conn' bytes more es fs s t =
      let joined : contents conn.read_buf ++ (bytes ++ more)
          ≡ (contents conn.read_buf ++ bytes) ++ more =
        sym (append_assoc (contents conn.read_buf) bytes more) in
      let whole = parse_sound reserve_limit (contents conn.read_buf ++ bytes) s.parsed in
      let (_, _, fits) =
        parse_taken reserve_limit (contents conn.read_buf ++ bytes) s.cmds s.len whole in
      let parsed =
        parse_chunks reserve_limit (contents conn.read_buf ++ bytes) more s.parsed
        ∙ ap (λ text. parse reserve_limit text >>= behind s.cmds s.len)
            (ap (λ (b : Bytes). b ++ more) (sym s.left))
        ∙ ap (λ m. m >>= behind s.cmds s.len) t.parsed in
      record {
        cmds = s.cmds ++ t.cmds;
        len = s.len + t.len;
        parsed = ap (parse reserve_limit) joined ∙ parsed;
        tasks =
            dispatched-append es fs
            ∙ ap₂ ◌++◌ s.tasks t.tasks
            ∙ sym (map-append create s.cmds t.cmds);
        own =
            All-append (IsOwn conn.id) es fs s.own
              (subst (λ id. All (IsOwn id) fs) s.same_id t.own);
        left =
            t.left
            ∙ ap (λ (b : Bytes). drop t.len (b ++ more)) s.left
            ∙ ap (drop t.len)
                (sym (drop_within-append s.len (contents conn.read_buf ++ bytes) more fits))
            ∙ drop-drop s.len t.len ((contents conn.read_buf ++ bytes) ++ more)
            ∙ ap (drop (s.len + t.len)) (sym joined);
        drained = t.drained;
        valid = t.valid;
        same_id = t.same_id ∙ s.same_id;
        same_protocol = t.same_protocol ∙ s.same_protocol;
      }

  -- A sequence of reads that throws nothing and leaves a RESP connection with a valid drained
  -- buffer open dispatches what one parse of the buffer and all new bytes gives, keeps the bytes
  -- behind, and leaves the buffer valid and drained.
  pub receive_all-Step :
      (conn : Connection) (rs : List (ℕ × Bytes)) {conn' : Connection} {es : List Effect}
      → IsValid conn.read_buf
      → conn.protocol ≡ resp
      → IsDrained reserve_limit conn
      → receive_all conn rs ≡ ok (conn', es)
      → StaysOpen es
      → Step reserve_limit conn (received rs) conn' es
  unfolding receive_all received
  receive_all-Step conn [] v p drained h stays =
      let (ec, ees) = ok_pair-injective h in
      subst₂ (Step reserve_limit conn []) ec ees
        (Step-nothing reserve_limit conn conn refl v refl refl drained)
  receive_all-Step conn ((n, bytes) ∷ rs) {conn'} {es} v p drained h stays =
      let ((c, fs), e, k) = >>=-eq-ok (receive reserve_limit conn n bytes) _ h in
      let ((c', gs), e', k') = >>=-eq-ok (receive_all c rs) _ k in
      let (ec, ees) = ok_pair-injective k' in
      let (open_now, open_then) = StaysOpen-append fs gs (rw (← ees) at stays) in
      let s = receive-Step reserve_limit conn n bytes v p drained e open_now in
      let t = receive_all-Step c rs s.valid (s.same_protocol ∙ p) s.drained e' open_then in
      subst₂ (Step reserve_limit conn (bytes ++ received rs)) ec ees
        (Step-then conn c c' bytes (received rs) fs gs s t)

-- A new connection has an empty valid buffer.
pub record IsNew (id : ℕ) (protocol : ProtocolType) (conn : Connection) : Type 0 where
  pub valid : IsValid conn.read_buf
  pub empty : contents conn.read_buf ≡ []
  pub same_id : conn.id ≡ id
  pub same_protocol : conn.protocol ≡ protocol

pub make_connection-IsNew :
    (id min_size max_size : ℕ) (protocol : ProtocolType)
    → 0 < min_size
    → min_size ≤ max_size
    → max_size ≤ 2 ^ 63
    → (conn : Connection) × (make_connection id
          (record { read_buf_min_size = min_size; read_buf_max_size = max_size })
          protocol
        ≡ ok conn)
      × IsNew id protocol conn
unfolding make_connection
make_connection-IsNew id min_size max_size protocol pos le bounded =
    let (b, e, v, empty) = make-IsValid min_size max_size pos le bounded in
    (
      record { id = id; read_buf = b; protocol = protocol },
      rw e,
      record { valid = v; empty = empty; same_id = refl; same_protocol = refl },
    )

-- What a new connection dispatches over any sequence of reads, if the limits of its buffer are in
-- order and no read throws or closes it, is what one parse of all its bytes gives: the tasks of
-- the commands, in order, whatever the sizes of the reads. The bytes behind the last complete
-- command wait in the buffer.
pub connection_stream :
    (reserve_limit id min_size max_size : ℕ) (rs : List (ℕ × Bytes)) {conn conn' : Connection}
    {es : List Effect}
    → 0 < min_size
    → min_size ≤ max_size
    → max_size ≤ 2 ^ 63
    → make_connection id
        (record { read_buf_min_size = min_size; read_buf_max_size = max_size })
        resp
      ≡ ok conn
    → receive_all reserve_limit conn rs ≡ ok (conn', es)
    → StaysOpen es
    → (cs : List RespCommand) × (n : ℕ) × (parse reserve_limit (received rs) ≡ ok (cs, n))
      × (dispatched es ≡ map create cs)
      × (contents conn'.read_buf ≡ drop n (received rs))
connection_stream reserve_limit id min_size max_size rs {conn} {conn'} {es} pos le bounded made h
      stays =
    let (c, e, new) = make_connection-IsNew id min_size max_size resp pos le bounded in
    let n = subst (IsNew id resp) (ok-injective (sym e ∙ made)) new in
    let drained =
      subst (λ text. parse reserve_limit text ≡ ok ([], 0)) (sym n.empty)
        (parse_nil reserve_limit) in
    let s = receive_all-Step reserve_limit conn rs n.valid n.same_protocol drained h stays in
    let start : contents conn.read_buf ++ received rs ≡ received rs =
      ap (λ (b : Bytes). b ++ received rs) n.empty in
    (
      s.cmds,
      s.len,
      ap (parse reserve_limit) (sym start) ∙ s.parsed,
      s.tasks,
      s.left ∙ ap (drop s.len) start,
    )
