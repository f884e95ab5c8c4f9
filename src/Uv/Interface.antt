-- ===== src/Uv/Interface.antt =====
-- The functions of uv_utils.h, with what they promise; and uv_utils.cpp as such.
use vector_engine.Common.{ℕ, ◌≡◌, ◌↔◌, refl, ℤ, pos, Bool, Option, some, Bytes}
use vector_engine.Errors.{Outcome, ok}
use vector_engine.Handle.{
  Handle, Owner, UPtr, to_handle, to_stream, set_data, get_data, handle_close, make_write,
}
use vector_engine.Uv.{
  TcpOptions, Libuv, err_msg, make_loop, make_async, make_tcp_server, make_tcp_client,
  init_tcp_server, is_ipv6, enable_reuseport, enable_nodelay, bind_server,
}
use vector_engine.Uv.Listen.{Listens, address, server_handle, make_tcp_server_iff, bind_server_iff}

-- The casts, `data` and the messages.
pub record UvHandles : Type 0 where
  pub handle : Handle → Option Handle
  pub stream : Handle → Option Handle
  pub set_user : UPtr Handle → Option Owner → Outcome Handle
  pub get_user : UPtr Handle → Outcome (Option Owner)
  pub close_call : Handle → Bool → Option (Handle × Bool)
  pub message : Libuv → ℤ → Bytes
  pub set_law :
      (h : Handle) (owner : Option Owner)
      → (h' : Handle) × (set_user (some h) owner ≡ ok h') × (get_user (some h') ≡ ok owner)

pub set-get_data :
    (h : Handle) (owner : Option Owner)
    → (h' : Handle) × (set_data (some h) owner ≡ ok h') × (get_data (some h') ≡ ok owner)
unfolding set_data get_data
set-get_data h owner = (record h { user_data = owner }, refl, refl)

abbrev pub uv_handles : UvHandles
uv_handles = record {
  handle = to_handle;
  stream = to_stream;
  set_user = set_data;
  get_user = get_data;
  close_call = handle_close;
  message = err_msg;
  set_law = set-get_data;
}

module _ (uv : Libuv) where
  -- What makes the objects of libuv.
  pub record UvMakers : Type 0 where
    pub loop : Outcome {0} Unit
    pub async : Option Owner → Outcome Handle
    pub server : TcpOptions → Option Owner → Outcome Handle
    pub client : ℕ → Option Owner → Outcome Handle
    pub request : Option Owner → Outcome Handle
    pub server_law :
        (o : TcpOptions) (owner : Option Owner)
        → (server o owner ≡ ok (server_handle o owner)) ↔ Listens uv o

  abbrev pub uv_makers : UvMakers
  uv_makers = record {
    loop = make_loop uv;
    async = make_async uv;
    server = make_tcp_server uv;
    client = make_tcp_client uv;
    request = make_write;
    server_law = make_tcp_server_iff uv;
  }

  -- `namespace detail`: the steps on the way to a server.
  pub record ServerSteps : Type 0 where
    pub init : Bool → Handle
    pub is_v6 : Bytes → Bool
    pub reuseport : Outcome {0} Unit
    pub nodelay : Outcome {0} Unit
    pub bind : Bytes → ℤ → Outcome {0} Unit
    pub bind_law :
        (o : TcpOptions)
        → (bind o.ip o.port ≡ ok tt) ↔ ((address uv o ≡ pos 0) × (uv.tcp_bind ≡ pos 0))

  abbrev pub server_steps : ServerSteps
  server_steps = record {
    init = init_tcp_server;
    is_v6 = is_ipv6;
    reuseport = enable_reuseport uv;
    nodelay = enable_nodelay uv;
    bind = bind_server uv;
    bind_law = bind_server_iff uv;
  }
