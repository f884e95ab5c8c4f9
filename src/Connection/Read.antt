-- ===== src/Connection/Read.antt =====
-- One read from the socket: `on_alloc`, the bytes that arrive, `on_read`.
use vector_engine.Common.{
  All, ℕ, ◌+◌, ◌≤◌, ◌≡◌, refl, sym, subst, subst₂, ap, ◌∙◌, pos, List, [], ◌∷◌, ◌++◌, map,
  append-nil, arith, inl, inr, Bytes, length, drop, leb, if◌then◌else◌, Bool-cases,
}
use vector_engine.Errors.{Outcome, ok, undefined, ◌>>=◌, ok_pair-injective}
use vector_engine.Resp.Command.{RespCommand}
use vector_engine.Resp.Parser.{parse}
use vector_engine.Resp.Parser.Stream.{parse_sound, Parsed-drained}
use vector_engine.Task.{create}
use vector_engine.Protocol.{resp}
use vector_engine.ReadBuffer.{ReadBuffer, Region, contents, alloc}
use vector_engine.ReadBuffer.Growth.{IsValid, alloc-Allocated}
use vector_engine.ReadBuffer.Fifo.{fill, fill-nil, occupy-fill}
use vector_engine.Connection.Dispatch.{
  dispatched, StaysOpen, IsOwn, Taken, parse_and_dispatch_ok, parse_and_dispatch_open,
}
use vector_engine.Connection.{Connection, Effect, on_alloc, parse_and_dispatch, on_read}

module _ (reserve_limit : ℕ) where
  -- libuv asks for memory, reads at most as many bytes as the region holds, and reports them.
  unfoldable pub receive : Connection → ℕ → Bytes → Outcome (Connection × List Effect)
  receive conn suggested_size bytes = do
    (c, r) ← on_alloc conn suggested_size
    (if leb (length bytes) r.len
        then on_read reserve_limit (record c { read_buf = fill c.read_buf bytes })
            (pos (length bytes))
        else undefined)

  -- A complete request stands nowhere in the buffer.
  abbrev pub IsDrained : Connection → Type 0
  IsDrained conn = parse reserve_limit (contents conn.read_buf) ≡ ok ([], 0)

module _ (reserve_limit : ℕ) where
  -- One read: what the buffer held and what arrived, parsed as one text.
  pub record Step (conn : Connection) (bytes : Bytes) (conn' : Connection) (es : List Effect)
      : Type 0 where
    pub cmds : List RespCommand
    pub len : ℕ
    pub parsed : parse reserve_limit (contents conn.read_buf ++ bytes) ≡ ok (cmds, len)
    pub tasks : dispatched es ≡ map create cmds
    pub own : All (IsOwn conn.id) es
    pub left : contents conn'.read_buf ≡ drop len (contents conn.read_buf ++ bytes)
    pub drained : IsDrained reserve_limit conn'
    pub valid : IsValid conn'.read_buf
    pub same_id : conn'.id ≡ conn.id
    pub same_protocol : conn'.protocol ≡ conn.protocol

  pub Taken-Step :
      (conn c conn' : Connection) (bytes : Bytes) (cs : List RespCommand) (n : ℕ) (es : List Effect)
      → contents c.read_buf ≡ contents conn.read_buf ++ bytes
      → c.id ≡ conn.id
      → c.protocol ≡ conn.protocol
      → parse reserve_limit (contents c.read_buf) ≡ ok (cs, n)
      → Taken c (map create cs) n conn' es
      → Step conn bytes conn' es
  Taken-Step conn c conn' bytes cs n es arrived ids protocols e t = record {
    cmds = cs;
    len = n;
    parsed = subst (λ text. parse reserve_limit text ≡ ok (cs, n)) arrived e;
    tasks = t.tasks;
    own = subst (λ id. All (IsOwn id) es) ids t.own;
    left = t.left ∙ ap (drop n) arrived;
    drained =
        subst (λ text. parse reserve_limit text ≡ ok ([], 0)) (sym t.left)
          (Parsed-drained reserve_limit (contents c.read_buf)
            (parse_sound reserve_limit (contents c.read_buf) e));
    valid = t.valid;
    same_id = t.same_id ∙ ids;
    same_protocol = t.same_protocol ∙ protocols;
  }

  parse_and_dispatch-Step :
      (conn c : Connection) (bytes : Bytes) {conn' : Connection} {es : List Effect}
      → contents c.read_buf ≡ contents conn.read_buf ++ bytes
      → IsValid c.read_buf
      → c.id ≡ conn.id
      → c.protocol ≡ conn.protocol
      → conn.protocol ≡ resp
      → parse_and_dispatch reserve_limit c ≡ ok (conn', es)
      → StaysOpen es
      → Step conn bytes conn' es
  parse_and_dispatch-Step conn c bytes {conn'} {es} arrived v ids protocols p h stays =
      let (cs, n, e) = parse_and_dispatch_open reserve_limit c (protocols ∙ p) h stays in
      let (c', fs, e', t) = parse_and_dispatch_ok reserve_limit c v (protocols ∙ p) e in
      let (ec, ees) = ok_pair-injective (sym e' ∙ h) in
      Taken-Step conn c conn' bytes cs n es arrived ids protocols e
        (subst₂ (λ d ds. Taken c (map create cs) n d ds) ec ees t)

  pub Step-nothing :
      (conn c : Connection)
      → contents c.read_buf ≡ contents conn.read_buf
      → IsValid c.read_buf
      → c.id ≡ conn.id
      → c.protocol ≡ conn.protocol
      → IsDrained reserve_limit conn
      → Step conn [] c []
  Step-nothing conn c same v ids protocols drained = record {
    cmds = [];
    len = 0;
    parsed = rw append-nil drained;
    tasks = refl;
    own = tt;
    left = rw append-nil same;
    drained = subst (λ text. parse reserve_limit text ≡ ok ([], 0)) (sym same) drained;
    valid = v;
    same_id = ids;
    same_protocol = protocols;
  }

  -- `on_read` for the bytes that libuv has put behind the contents of the buffer.
  on_read-Step :
      (conn c : Connection) (bytes : Bytes) {conn' : Connection} {es : List Effect}
      → contents c.read_buf ≡ contents conn.read_buf
      → IsValid c.read_buf
      → c.read_buf.size + length bytes ≤ length c.read_buf.buf
      → c.id ≡ conn.id
      → c.protocol ≡ conn.protocol
      → conn.protocol ≡ resp
      → IsDrained reserve_limit conn
      → on_read reserve_limit (record c { read_buf = fill c.read_buf bytes }) (pos (length bytes))
        ≡ ok (conn', es)
      → StaysOpen es
      → Step conn bytes conn' es
  unfolding on_read
  on_read-Step conn c [] {conn'} {es} same v fits ids protocols p drained h stays =
      let (ec, ees) = ok_pair-injective (rw (fill-nil c.read_buf) at h) in
      subst₂ (Step conn []) ec ees (Step-nothing conn c same v ids protocols drained)
  on_read-Step conn c (x ∷ xs) {conn'} {es} same v fits ids protocols p drained h stays =
      let (b, e, valid, arrived) = occupy-fill c.read_buf (x ∷ xs) v fits in
      parse_and_dispatch-Step conn (record c { read_buf = b }) (x ∷ xs)
        (arrived ∙ ap (λ (s : Bytes). s ++ x ∷ xs) same) valid ids protocols p (rw e at h) stays

  pub receive-eq :
      (conn : Connection) (suggested_size : ℕ) (bytes : Bytes) (b : ReadBuffer) (r : Region)
      → alloc conn.read_buf suggested_size ≡ ok (b, r)
      → receive reserve_limit conn suggested_size bytes ≡ (
          if leb (length bytes) r.len
          then on_read reserve_limit (record conn { read_buf = fill b bytes }) (pos (length bytes))
          else undefined)
  unfolding receive on_alloc
  receive-eq conn suggested_size bytes b r e = rw e

  -- A read that leaves the connection open has parsed the buffer and the new bytes as one text,
  -- has dispatched the tasks of its commands, and has left the bytes behind them.
  pub receive-Step :
      (conn : Connection) (suggested_size : ℕ) (bytes : Bytes) {conn' : Connection}
      {es : List Effect}
      → IsValid conn.read_buf
      → conn.protocol ≡ resp
      → IsDrained reserve_limit conn
      → receive reserve_limit conn suggested_size bytes ≡ ok (conn', es)
      → StaysOpen es
      → Step conn bytes conn' es
  receive-Step conn suggested_size bytes v p drained h stays =
      let (b, r, e, a) = alloc-Allocated conn.read_buf suggested_size v in
      elim (Bool-cases (leb (length bytes) r.len)) [
        | inl fits ↦
            on_read-Step conn (record conn { read_buf = b }) bytes a.same_contents a.valid
              (ground (arith, a.free)) refl refl p drained
              (rw (receive-eq conn suggested_size bytes b r e, fits) at h) stays
        | inr over ↦ cc (rw (receive-eq conn suggested_size bytes b r e, over) at h)
      ]
