-- ===== src/Connection/Requests.antt =====
-- A connection of connection.cpp that is sent well-formed requests, cut into reads anywhere.
use vector_engine.Common.{
  ℕ, ◌+◌, ◌≤◌, ◌<◌, ◌^◌, ◌≡◌, refl, sym, subst, ap, ◌∙◌, List, [], ◌∷◌, ◌++◌, map, append_assoc,
  arith, Bytes, All, length, drop, drop-length-append,
}
use vector_engine.Decimal.{size_mod}
use vector_engine.Errors.{ok, ok-injective, ok_pair-injective, >>=-eq-ok, Ensures-ok}
use vector_engine.Resp.Command.{RespCommand}
use vector_engine.Resp.Parser.{parse}
use vector_engine.Resp.Parser.Front.{IsStream, Front-lem, Front-parse}
use vector_engine.Resp.Parser.Stream.{parse_nil}
use vector_engine.Task.{create}
use vector_engine.Protocol.{ProtocolType, resp}
use vector_engine.ReadBuffer.{ReadBuffer, Region, make, alloc, contents}
use vector_engine.ReadBuffer.Growth.{IsValid, alloc-Allocated}
use vector_engine.ReadBuffer.Queue.{room_enough, make_limit}
use vector_engine.Connection.{Connection, Effect, dispatch, close, make_connection, on_alloc}
use vector_engine.Connection.Dispatch.{dispatched, StaysOpen}
use vector_engine.Connection.Read.{receive, IsDrained}
use vector_engine.Connection.Kept.{Kept, receive-Kept}
use vector_engine.Connection.Progress.{receive_ok}
use vector_engine.Connection.Stream.{
  received, receive_all, add_effects, receive_all-Step, IsNew, make_connection-IsNew,
}

-- A read brings no more than was suggested, and a request of `most` bytes fits beside it.
abbrev pub IsSmallRead : ℕ → ℕ → ℕ × Bytes → Type 0
IsSmallRead most limit (n, bytes) = (length bytes ≤ n) × (most + length bytes ≤ limit)

pub stay_open : (es fs : List Effect) → StaysOpen es → StaysOpen fs → StaysOpen (es ++ fs)
stay_open [] fs h k = k
stay_open (dispatch id ts builder ∷ es) fs h k = stay_open es fs h k
stay_open (close ∷ es) fs h k = absurd h

pub on_alloc-eq-ok :
    (conn : Connection) (n : ℕ) {b : ReadBuffer} {r : Region}
    → alloc conn.read_buf n ≡ ok (b, r)
    → on_alloc conn n ≡ ok (record conn { read_buf = b }, r)
unfolding on_alloc
on_alloc-eq-ok conn n e = rw e

module _ (reserve_limit most : ℕ) where
  -- An open connection that holds the front of the next request, and what is to come.
  pub record Waits (limit : ℕ) (cs : List RespCommand) (zs : Bytes) (conn : Connection)
      : Type 0 where
    pub valid : IsValid conn.read_buf
    pub in_resp : conn.protocol ≡ resp
    pub drained : IsDrained reserve_limit conn
    pub short : length (contents conn.read_buf) ≤ most
    pub limited : conn.read_buf.max_size ≡ limit
    pub stream : IsStream reserve_limit most cs (contents conn.read_buf ++ zs)

  -- One read: the connection stays open and waits for the rest of the stream.
  pub receive-Waits :
      (limit : ℕ) (cs : List RespCommand) (n : ℕ) (bytes zs : Bytes) (conn : Connection)
      → most < size_mod
      → IsSmallRead most limit (n, bytes)
      → Waits limit cs (bytes ++ zs) conn
      → (conn' : Connection) × (es : List Effect) × (later : List RespCommand) × (receive
            reserve_limit conn n bytes
          ≡ ok (conn', es))
        × StaysOpen es
        × Waits limit later zs conn'
  receive-Waits limit cs n bytes zs conn small (suggested, fits) w =
      let (b, r, e, a) = alloc-Allocated conn.read_buf n w.valid in
      let room : length bytes ≤ r.len =
        ground
          (arith, room_enough conn.read_buf b n r w.valid a, suggested, fits, w.short, w.limited) in
      let f =
        Front-lem reserve_limit most cs (contents conn.read_buf ++ (bytes ++ zs))
          (contents conn.read_buf ++ bytes) zs small w.stream
          (append_assoc (contents conn.read_buf) bytes zs) in
      let parsed = Front-parse reserve_limit most cs (contents conn.read_buf ++ bytes) zs f in
      let (conn', es, done, stays, s) =
        receive_ok reserve_limit conn _ r n bytes w.valid w.in_resp w.drained
          (on_alloc-eq-ok conn n e) room parsed in
      let (_, taken) = ok_pair-injective (sym s.parsed ∙ parsed) in
      let left : contents conn'.read_buf ≡ f.rest =
        s.left
        ∙ ap (λ m. drop m (contents conn.read_buf ++ bytes)) taken
        ∙ ap (drop (length f.text)) f.whole
        ∙ drop-length-append f.text f.rest in
      let kept = Ensures-ok (Kept conn) done (receive-Kept reserve_limit conn n bytes) in
      (
        conn',
        es,
        f.later,
        done,
        stays,
        record {
          valid = s.valid;
          in_resp = s.same_protocol ∙ w.in_resp;
          drained = s.drained;
          short = omega (arith, ap length left, f.short);
          limited = kept.same_limit ∙ w.limited;
          stream =
              subst (λ (t : Bytes). IsStream reserve_limit most f.later (t ++ zs)) (sym left)
                f.remain;
        },
      )

  -- A new connection waits for a whole stream.
  pub IsNew-Waits :
      (limit id : ℕ) (cs : List RespCommand) (p zs : Bytes) (conn : Connection)
      → IsNew id resp conn
      → conn.read_buf.max_size ≡ limit
      → IsStream reserve_limit most cs p
      → zs ≡ p
      → Waits limit cs zs conn
  IsNew-Waits limit id cs p zs conn n limited stream whole = record {
    valid = n.valid;
    in_resp = n.same_protocol;
    drained =
        subst (λ text. parse reserve_limit text ≡ ok ([], 0)) (sym n.empty)
          (parse_nil reserve_limit);
    short = omega (arith, ap length n.empty);
    limited = limited;
    stream =
        subst (IsStream reserve_limit most cs) (sym (ap (λ (b : Bytes). b ++ zs) n.empty ∙ whole))
          stream;
  }

  -- Several reads.
  pub receive_all-Waits :
      (limit : ℕ) (cs : List RespCommand) (rs : List (ℕ × Bytes)) (zs : Bytes) (conn : Connection)
      → most < size_mod
      → All (IsSmallRead most limit) rs
      → Waits limit cs (received rs ++ zs) conn
      → (conn' : Connection) × (es : List Effect) × (later : List RespCommand) × (receive_all
            reserve_limit conn rs
          ≡ ok (conn', es))
        × StaysOpen es
        × Waits limit later zs conn'
  unfolding receive_all received add_effects
  receive_all-Waits limit cs [] zs conn small tt w = (conn, [], cs, refl, tt, w)
  receive_all-Waits limit cs ((n, bytes) ∷ rs) zs conn small (fits, more) w =
      let w' : Waits limit cs (bytes ++ (received rs ++ zs)) conn =
        subst (λ (t : Bytes). Waits limit cs t conn) (append_assoc bytes (received rs) zs) w in
      let (c, es, later, e, stays, w'') =
        receive-Waits limit cs n bytes (received rs ++ zs) conn small fits w' in
      let (conn', fs, last, e', stays', w₃) =
        receive_all-Waits limit later rs zs c small more w'' in
      (conn', es ++ fs, last, rw (e, e') refl, stay_open es fs stays stays', w₃)

pub make_connection_limit :
    (id least limit : ℕ) (protocol : ProtocolType) {conn : Connection}
    → make_connection id (record { read_buf_min_size = least; read_buf_max_size = limit }) protocol
      ≡ ok conn
    → conn.read_buf.max_size ≡ limit
unfolding make_connection
make_connection_limit id least limit protocol made =
    let (b, e, k) = >>=-eq-ok (make least limit) _ made in
    ap (λ (c : Connection). c.read_buf.max_size) (sym (ok-injective k)) ∙ make_limit least limit e

-- Let the limits of the buffer of a new RESP connection be in order, the upper one at least
-- `most`, and let it be sent a stream of well-formed requests, each within the limits on its
-- arguments and of at most `most` bytes, cut into reads anywhere, each of no more bytes than were
-- suggested and than the upper limit leaves beside `most`. Then every read returns and leaves the
-- connection open; the reads dispatch the tasks of the first requests, in order, and the stream
-- of the later ones begins with what waits in the buffer, in which no request is whole; none is
-- left once the whole stream was read.
pub requests_served :
    (reserve_limit most id least limit : ℕ) (cs : List RespCommand) (p : Bytes)
    (rs : List (ℕ × Bytes)) (zs : Bytes) {conn : Connection}
    → 0 < least
    → least ≤ limit
    → most ≤ limit
    → limit ≤ 2 ^ 63
    → IsStream reserve_limit most cs p
    → received rs ++ zs ≡ p
    → All (IsSmallRead most limit) rs
    → make_connection id (record { read_buf_min_size = least; read_buf_max_size = limit }) resp
      ≡ ok conn
    → (conn' : Connection) × (es : List Effect) × (arrived later : List RespCommand) × (receive_all
          reserve_limit conn rs
        ≡ ok (conn', es))
      × StaysOpen es
      × (dispatched es ≡ map create arrived)
      × (cs ≡ arrived ++ later)
      × IsStream reserve_limit most later (contents conn'.read_buf ++ zs)
      × IsDrained reserve_limit conn'
      × (zs ≡ [] → later ≡ [])
requests_served reserve_limit most id least limit cs p rs zs {conn} some_size le enough bounded
      stream whole reads made =
    let (c, e, new) = make_connection-IsNew id least limit resp some_size le bounded in
    let n = subst (IsNew id resp) (ok-injective (sym e ∙ made)) new in
    let w =
      IsNew-Waits reserve_limit most limit id cs p (received rs ++ zs) conn n
        (make_connection_limit id least limit resp made) stream whole in
    let (conn', es, _, done, stays, _) =
      receive_all-Waits reserve_limit most limit cs rs zs conn (omega arith) reads w in
    let s = receive_all-Step reserve_limit conn rs n.valid n.same_protocol w.drained done stays in
    let f =
      Front-lem reserve_limit most cs p (contents conn.read_buf ++ received rs) zs (omega arith)
        stream
        (append_assoc (contents conn.read_buf) (received rs) zs
          ∙ ap (λ (b : Bytes). b ++ (received rs ++ zs)) n.empty
          ∙ whole) in
    let same = ok_pair-injective (
      sym s.parsed
      ∙ Front-parse reserve_limit most cs (contents conn.read_buf ++ received rs) zs f) in
    let left : contents conn'.read_buf ≡ f.rest =
      s.left
      ∙ ap (λ m. drop m (contents conn.read_buf ++ received rs)) same.1
      ∙ ap (drop (length f.text)) f.whole
      ∙ drop-length-append f.text f.rest in
    (
      conn',
      es,
      f.arrived,
      f.later,
      done,
      stays,
      s.tasks ∙ ap (map create) same.0,
      f.split,
      subst (λ (t : Bytes). IsStream reserve_limit most f.later (t ++ zs)) (sym left) f.remain,
      s.drained,
      f.complete,
    )
