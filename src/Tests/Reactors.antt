-- ===== src/Tests/Reactors.antt =====
-- The reactor, with one client, and the start of the program.
use vector_engine.Common.Maps.{find}
use vector_engine.Errors.{ok}
use vector_engine.Task.{TaskOutput, ping_task}
use vector_engine.Protocol.{resp, resp_response_builder}
use vector_engine.Connection.{Connection}
use vector_engine.Connection.Stream.{IsNew}
use vector_engine.Worker.{WorkerPool, BatchTask, batch, stop_marker}
use vector_engine.Common.{
  ℕ, ◌≡◌, ◌≢◌, ◌↔◌, refl, ℤ, pos, negsuc, true, false, List, [], ◌∷◌, ◌++◌, some, Bytes, codes,
  arith,
}
use vector_engine.Handle.{Handle, UPtr, async_kind, unspecified, of_reactor, get_data}
use vector_engine.Uv.{Libuv, check_uv, enable_keepalive, make_tcp_server, is_ipv6}
use vector_engine.Uv.Listen.{Listens, server_handle, make_tcp_server_iff}
use vector_engine.Reactor.{Reactor, Call, read_start, handle_close, owned, on_connect, on_reply}
use vector_engine.Reactor.Registry.{IsRegistry, IsWired, on_connect_accepts}
use vector_engine.Reactor.Send.{written, on_reply-written}
use vector_engine.Logger.{Spdlog}
use vector_engine.System.{System}
use vector_engine.System.Connect.{started}
use vector_engine.Main.{tcp_options, options, main}
use vector_engine.Main.Start.{Willing, main-reports}

-- A libuv whose calls all succeed.
abbrev pub willing : Libuv
willing = record {
  err_name = λ err. codes "EIO";
  strerror = λ err. codes "i/o error";
  loop_init = pos 0;
  loop_close = negsuc 15;
  async_init = pos 0;
  fileno = pos 0;
  setsockopt = pos 0;
  tcp_nodelay = pos 0;
  ip4_addr = λ ip port. pos 0;
  ip6_addr = λ ip port. pos 0;
  tcp_bind = pos 0;
  listen = λ backlog. pos 0;
  tcp_keepalive = λ delay. pos 0;
}

make_tcp_server_iff_example :
    (make_tcp_server willing tcp_options (some of_reactor)
      ≡ ok (server_handle tcp_options (some of_reactor)))
    ↔ Listens willing tcp_options
make_tcp_server_iff_example = make_tcp_server_iff willing tcp_options (some of_reactor)

pub willing-Listens : Listens willing tcp_options
unfolding is_ipv6
willing-Listens = record {
  socket = refl;
  shared_port = refl;
  undelayed = λ _. refl;
  resolved = refl;
  bound = refl;
  listening = refl;
}

abbrev pub client : Connection
client = record {
  id = 0;
  read_buf = record { min_size = 8; max_size = 64; size = 0; buf = codes "--------" };
  protocol = resp;
}

abbrev pub wire : UPtr Handle
wire = some (record { kind = async_kind; family = unspecified; user_data = some of_reactor })

abbrev pub reactor : Reactor
reactor = record {
  opts = options;
  connection_cnt = 1;
  connections = (0, client) ∷ [];
  replies =
      record { connection_id = 0; reply = codes "+PONG\r\n" }
      ∷ record { connection_id = 5; reply = codes "+PONG\r\n" }
      ∷ [];
  server = wire;
  stop_async = wire;
  reply_async = wire;
  next_context = 0;
  contexts = [];
  stop_pending = false;
  reply_pending = true;
  loop_stopped = false;
  joinable = true;
}

pub reactor-IsWired : IsWired reactor
unfolding owned get_data
reactor-IsWired = record { server = refl; stop_async = refl; reply_async = refl }

on_reply-written_example :
    (r : Reactor) × (cs : List Call) × (on_reply reactor ≡ ok (r, cs))
    × (r.replies ≡ [])
    × (r.connections ≡ reactor.connections)
    × (written 0 cs ≡ codes "+PONG\r\n")
unfolding find
on_reply-written_example = on_reply-written reactor 0 ((refl, omega arith), tt) reactor-IsWired

abbrev batches : List BatchTask
batches = batch 0 (ping_task ∷ []) resp_response_builder ∷ stop_marker ∷ []

abbrev no_reply : TaskOutput → Bytes
no_reply output = []

on_connect_accepts_example :
    (conn : Connection) × (r : Reactor) × (◌≡◌ {A = ℤ} (negsuc 23) (pos 0)
      → on_connect willing (pos 0) (negsuc 23) reactor ≡ ok (r, read_start 1 ∷ []))
    × (◌≢◌ {A = ℤ} (negsuc 23) (pos 0)
        → on_connect willing (pos 0) (negsuc 23) reactor ≡ ok (r, handle_close 1 ∷ []))
    × IsRegistry r
    × IsWired r
    × (find 1 r.connections ≡ some conn)
    × IsNew 1 resp conn
    × ((k : ℕ) → k ≢ 1 → find k r.connections ≡ find k reactor.connections)
    × (r.replies ≡ reactor.replies)
unfolding check_uv enable_keepalive
on_connect_accepts_example =
    on_connect_accepts willing 0 (negsuc 23) reactor ((refl, omega arith), tt) reactor-IsWired
      (omega arith) (omega arith) (omega arith) (omega arith) refl

-- Two clients, of which the second closes its connection.
abbrev two_clients : Reactor
two_clients = record reactor {
  connection_cnt = 2;
  connections = (0, client) ∷ (1, record client { id = 1 }) ∷ [];
}

-- A spdlog that forgets what it is told.
abbrev pub quiet : Spdlog
quiet = record {
  SpdLogger = ℕ;
  rotating_logger = λ path max_size max_files. ok 0;
  set_level = λ l level. l;
  set_pattern = λ l pattern. l;
  call = λ l level message. l;
  compiled = λ level. true;
}

abbrev pub willing-Willing : Willing willing
willing-Willing = record { looped = refl; signals = refl; listens = willing-Listens }

-- A libuv that makes no loop.
abbrev unwilling : Libuv
unwilling = record willing { loop_init = negsuc 11 }

-- Threads that have done nothing.
abbrev pub start_only : WorkerPool → Reactor → System × List Bytes
start_only pool r = (started pool r, [])

main-reports_example :
    main unwilling quiet no_reply start_only []
    ≡ ok (
        ((codes "EIO" ++ (codes ": " ++ codes "i/o error")) ++ codes ", failed to make uv loop")
        ∷ [])
main-reports_example = main-reports unwilling quiet 0 no_reply start_only [] refl 11 refl
