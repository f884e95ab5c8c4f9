-- ===== src/Uv.antt =====
-- uv_utils.h and uv_utils.cpp: the calls on libuv, and what each failure throws. What libuv
-- returns is a parameter: one code for each call that these functions make, 0 for success.
pub mod Listen
pub mod Interface
use vector_engine.Common.{
  ℕ, zero, suc, ◌%◌, ◌^◌, ◌≡◌, ℤ, pos, negsuc, Bool, true, false, List, [], ◌∷◌, ◌++◌, Bytes, codes,
  Option, none, some, ltb, ◌==◌, if◌then◌else◌,
}
use vector_engine.Handle.{
  Handle, AddressFamily, unspecified, inet, inet6, Owner, HandleKind, tcp_kind, async_kind,
  set_data,
}
use vector_engine.Errors.{Error, Outcome, ok, throws, engine, ◌>>=◌}

abbrev pub UvError : Type 0
UvError = Error

pub record TcpOptions : Type 0 where
  pub ip : Bytes
  pub port : ℤ
  pub backlog : ℤ
  pub keepalive : ℕ
  pub nodelay : Bool

-- `ip.find(":") != npos`.
unfoldable pub is_ipv6 : Bytes → Bool
is_ipv6 [] = false
is_ipv6 (c ∷ cs) = if c == 58 then true else is_ipv6 cs

-- `uv_err_name`, `uv_strerror` and the codes that the calls return.
pub record Libuv : Type 0 where
  pub err_name : ℤ → Bytes
  pub strerror : ℤ → Bytes
  pub loop_init : ℤ
  pub loop_close : ℤ
  pub async_init : ℤ
  pub fileno : ℤ
  pub setsockopt : ℤ
  pub tcp_nodelay : ℤ
  pub ip4_addr : Bytes → ℤ → ℤ
  pub ip6_addr : Bytes → ℤ → ℤ
  pub tcp_bind : ℤ
  pub listen : ℤ → ℤ
  pub tcp_keepalive : ℕ → ℤ

unfoldable pub err_msg : Libuv → ℤ → Bytes
err_msg uv err = uv.err_name err ++ (codes ": " ++ uv.strerror err)

-- The constructor of `UvError`.
unfoldable pub uv_error : Libuv → ℤ → Bytes → UvError
unfolding err_msg
uv_error uv err msg = record { msg = err_msg uv err ++ (codes ", " ++ msg) }

-- `if (err != 0) throw UvError(err, msg)`.
unfoldable pub check_uv : Libuv → ℤ → Bytes → Outcome {0} Unit
check_uv uv (pos zero) msg = ok tt
check_uv uv (pos (suc n)) msg = throws (engine (uv_error uv (pos (suc n)) msg))
check_uv uv (negsuc n) msg = throws (engine (uv_error uv (negsuc n) msg))

-- `if (setsockopt(...) != 0) throw Error(msg)`.
unfoldable pub check_setsockopt : ℤ → Bytes → Outcome {0} Unit
check_setsockopt (pos zero) msg = ok tt
check_setsockopt (pos (suc n)) msg = throws (engine (record { msg = msg }))
check_setsockopt (negsuc n) msg = throws (engine (record { msg = msg }))

unfoldable pub make_loop : Libuv → Outcome {0} Unit
make_loop uv = check_uv uv uv.loop_init (codes "failed to make uv loop")

unfoldable pub make_async : Libuv → Option Owner → Outcome Handle
unfolding set_data
make_async uv data_ptr = do
  _ ← check_uv uv uv.async_init (codes "failed to make uv async")
  set_data (some (record { kind = async_kind; family = unspecified; user_data = none })) data_ptr

unfoldable pub enable_reuseport : Libuv → Outcome {0} Unit
enable_reuseport uv = do
  _ ← check_uv uv uv.fileno (codes "failed to get underlying socket")
  check_setsockopt uv.setsockopt (codes "failed to set SO_REUSEPORT option")

unfoldable pub enable_nodelay : Libuv → Outcome {0} Unit
enable_nodelay uv = check_uv uv uv.tcp_nodelay (codes "failed to enable tcp nodelay")

unfoldable pub bind_server : Libuv → Bytes → ℤ → Outcome {0} Unit
bind_server uv ip port =
    if is_ipv6 ip
    then (check_uv uv (uv.ip6_addr ip port) (codes "invalid ipv6 address") >>= λ _.
        check_uv uv uv.tcp_bind (codes "failed to bind to port"))
    else (check_uv uv (uv.ip4_addr ip port) (codes "invalid ipv4 address") >>= λ _.
        check_uv uv uv.tcp_bind (codes "failed to bind to port"))

-- `detail::make_tcp_server`; the result of `uv_tcp_init_ex` is not read.
unfoldable pub init_tcp_server : Bool → Handle
init_tcp_server is_v6 = record {
  kind = tcp_kind;
  family = (if is_v6 then inet6 else inet);
  user_data = none;
}

-- The calls of `make_tcp_server` on the new handle, up to `uv_listen`.
unfoldable pub listen_server : Libuv → TcpOptions → Outcome {0} Unit
listen_server uv options = do
  _ ← enable_reuseport uv
  _ ← (if options.nodelay then enable_nodelay uv else ok tt)
  _ ← bind_server uv options.ip options.port
  check_uv uv (uv.listen options.backlog) (codes "failed to listen to port")

-- `if (data != nullptr) set_data(server.get(), data)`.
unfoldable pub attach : Handle → Option Owner → Outcome Handle
unfolding set_data
attach server none = ok server
attach server (some owner) = set_data (some server) (some owner)

unfoldable pub make_tcp_server : Libuv → TcpOptions → Option Owner → Outcome Handle
unfolding init_tcp_server listen_server attach
make_tcp_server uv options data_ptr = do
  _ ← listen_server uv options
  attach (init_tcp_server (is_ipv6 options.ip)) data_ptr

-- The keepalive option is set when its delay is above 0.
unfoldable pub enable_keepalive : Libuv → ℕ → Outcome {0} Unit
enable_keepalive uv keepalive =
    if ltb 0 keepalive
    then check_uv uv (uv.tcp_keepalive keepalive) (codes "failed to set keepalive")
    else ok tt

unfoldable pub make_tcp_client : Libuv → ℕ → Option Owner → Outcome Handle
unfolding enable_keepalive set_data
make_tcp_client uv keepalive data_ptr = do
  _ ← enable_keepalive uv keepalive
  set_data (some (record { kind = tcp_kind; family = unspecified; user_data = none })) data_ptr
