-- ===== src/Tests/Systems.antt =====
-- A run of the reactor with three workers and one client, which has sent one command.
use mathlib.Core.List.{cons-ne-nil}
use vector_engine.Common.{
  inl, ℕ, none, ◌≡◌, refl, ap, true, false, List, [], ◌∷◌, ◌++◌, some, Bytes, arith, codes, map,
  replicate,
}
use vector_engine.Common.Maps.{find, assign, erase, update}
use vector_engine.Errors.{ok, ◌>>=◌}
use vector_engine.Decimal.{from_chars}
use vector_engine.Resp.Command.{RespCommand}
use vector_engine.Resp.Parser.{parse_num, parse_argv, parse_args, parse_command, parse}
use vector_engine.Str.{bytes_eq, to_lower}
use vector_engine.Task.{TaskOutput, ping_task, create}
use vector_engine.Protocol.{
  resp, resp_response_builder, create_response_builder, create_request_parser, parse_with,
  parse_request,
}
use vector_engine.ReadBuffer.{alloc, realloc_if_needed, clamp, occupy, dealloc}
use vector_engine.ReadBuffer.Fifo.{fill, write_at}
use vector_engine.Connection.{Connection, dispatch, on_alloc, on_read, parse_and_dispatch}
use vector_engine.Connection.Read.{receive}
use vector_engine.Connection.Stream.{received, IsNew}
use vector_engine.Worker.{Worker, WorkerPool, BatchTask, batch, submit, fetch_tasks, run_batch_task}
use vector_engine.Worker.Answers.{answers, batch_replies}
use vector_engine.Reactor.{
  read_start, on_close, on_reply, remove_connection, send_pending, send_each, send_reply, write_to,
  owned,
}
use vector_engine.Reactor.Registry.{IsWired}
use vector_engine.Reactor.Send.{written, replies_to, dispatch-submit}
use vector_engine.Reactor.Signals.{send_lem}
use vector_engine.System.{
  System, Steps, reading, carry_out, receives, fetches, answers_batch, replies, closes, done, more,
}
use vector_engine.System.Order.{NothingYet, IsQuiet, system_order}
use vector_engine.System.Drain.{system_answers}
use vector_engine.System.Idle.{Steps-trans}
use vector_engine.System.Stream.{system_stream}
use vector_engine.System.Front.{system_front, system_closed}
use vector_engine.Handle.{get_data}
use vector_engine.System.Progress.{system_serves}
use vector_engine.Tests.{ping, ping_text, ping_text-IsRequest}
use vector_engine.Decimal.{to_string}
use vector_engine.Tests.Reactors.{client, reactor, reactor-IsWired}

abbrev no_reply : TaskOutput → Bytes
no_reply output = []

abbrev idle : Worker
idle = record { tasks = [] }

abbrev pool : WorkerPool
pool = record { size = 3; workers = λ i. some idle }

abbrev first : System
first = record {
  reactor = record reactor { replies = [] };
  pool = pool;
  hands = λ i. [];
  calls = read_start 0 ∷ [];
  dispatched = [];
  reads = λ i. [];
}

wired : IsWired first.reactor
wired = reactor-IsWired

abbrev first-NothingYet : NothingYet 0 first
unfolding find
first-NothingYet = record {
  registry = ((refl, omega arith), tt);
  wired = wired;
  conn = client;
  opened = refl;
  staffed = omega arith;
  working = λ i lt. (idle, refl);
  unmarked = λ i. tt;
  signalled = inl refl;
  unread = refl;
  undispatched = refl;
  unheld = λ to_mcp_reply i. refl;
  unreplied = refl;
  unwritten = refl;
}

client-IsNew : IsNew 0 resp client
client-IsNew = record {
  valid = record {
    positive = omega arith;
    bounded = omega arith;
    least = omega arith;
    most = omega arith;
    occupied = omega arith;
  };
  empty = refl;
  same_id = refl;
  same_protocol = refl;
}

-- The first read brings the front of a request, and the next one the rest and a byte more.
abbrev front_read : ℕ × Bytes
front_read = (8, codes "*1\r\n$4\r\n")

abbrev next_read : ℕ × Bytes
next_read = (8, codes "Ping\r\n*")

abbrev client_waiting : Connection
client_waiting = record client {
  read_buf = record { min_size = 8; max_size = 64; size = 8; buf = codes "*1\r\n$4\r\n" };
}

abbrev client_after : Connection
client_after = record client {
  read_buf = record { min_size = 8; max_size = 64; size = 1; buf = codes "*" ++ replicate 7 0 };
}

abbrev waiting : System
waiting = record first {
  reactor = record first.reactor { connections = (0, client_waiting) ∷ [] };
  reads = update first.reads 0 (front_read ∷ []);
}

front_comes : (j : ℕ) → Steps no_reply 100 j first waiting
unfolding parse parse_command parse_num from_chars receive on_alloc on_read alloc realloc_if_needed
    clamp occupy fill write_at parse_and_dispatch parse_request create_request_parser parse_with
    find assign carry_out parse_argv parse_args reading
front_comes j =
    more
      (receives first 0 8 (codes "*1\r\n$4\r\n") client client_waiting [] pool refl refl (λ _. tt)
        refl refl)
      (done waiting)

abbrev ping_batch : BatchTask
ping_batch = batch 0 (ping_task ∷ []) resp_response_builder

abbrev busy : WorkerPool
busy = record pool { workers = update pool.workers 0 (some (submit idle ping_batch)) }

abbrev second : System
second = record waiting {
  reactor = record first.reactor { connections = (0, client_after) ∷ [] };
  pool = busy;
  dispatched = ping_batch ∷ [];
  reads = update waiting.reads 0 (front_read ∷ next_read ∷ []);
}

abbrev third : System
third = record second {
  pool = record busy { workers = update busy.workers 0 (some idle) };
  hands = update first.hands 0 (ping_batch ∷ []);
}

abbrev fourth : System
fourth = record third {
  reactor = record second.reactor {
    replies = run_batch_task no_reply 0 (ping_task ∷ []) resp_response_builder ∷ [];
    reply_pending = true;
  };
  hands = update third.hands 0 [];
}

request_comes : (j : ℕ) → Steps no_reply 100 j waiting second
unfolding parse parse_command parse_num from_chars parse_argv parse_args create bytes_eq to_lower
    receive on_alloc on_read alloc realloc_if_needed clamp occupy dealloc fill write_at
    parse_and_dispatch parse_request create_request_parser parse_with create_response_builder find
    assign carry_out reading
request_comes j =
    more
      (receives waiting 0 8 (codes "Ping\r\n*") client_waiting client_after
        (dispatch 0 (ping_task ∷ []) resp_response_builder ∷ []) busy refl refl (λ _. tt)
        (ap (λ m. m >>= carry_out [])
          ((dispatch-submit pool 0 (ping_task ∷ []) resp_response_builder (omega arith)).0 idle
            refl))
        refl)
      (done second)

second-IsWired : IsWired second.reactor
second-IsWired = reactor-IsWired

batch_answered : (j : ℕ) → Steps no_reply 100 j second fourth
unfolding submit fetch_tasks
batch_answered j =
    more (fetches second 0 (submit idle ping_batch) refl refl (cons-ne-nil ping_batch [])) (
      more
        (answers_batch third 0 0 (ping_task ∷ []) resp_response_builder [] fourth.reactor refl (
          send_lem (run_batch_task no_reply 0 (ping_task ∷ []) resp_response_builder ∷ [])
            second.reactor second-IsWired))
        (done fourth))

answered : (j : ℕ) → Steps no_reply 100 j first fourth
answered j =
    Steps-trans no_reply 100 j (front_comes j)
      (Steps-trans no_reply 100 j (request_comes j) (batch_answered j))

system_order_example :
    (rest : Bytes) × (replies_to 0 (batch_replies no_reply fourth.dispatched)
      ≡ written 0 fourth.calls ++ rest)
    × (IsQuiet fourth → rest ≡ [])
system_order_example = system_order no_reply 100 0 first fourth first-NothingYet (answered 0)

system_answers_example :
    (s : System) × Steps no_reply 100 0 fourth s
    × (s.dispatched ≡ fourth.dispatched)
    × (s.reads ≡ fourth.reads)
    × (written 0 s.calls ≡ replies_to 0 (batch_replies no_reply fourth.dispatched))
system_answers_example = system_answers no_reply 100 0 first fourth first-NothingYet (answered 0)

system_stream_example :
    (cs : List RespCommand) × (n : ℕ) × (rest : Bytes) × (parse 100 (received (fourth.reads 0))
      ≡ ok (cs, n))
    × (answers no_reply resp_response_builder (map create cs) ≡ written 0 fourth.calls ++ rest)
    × (IsQuiet fourth → rest ≡ [])
unfolding first-NothingYet
system_stream_example =
    system_stream no_reply 100 0 first fourth first-NothingYet client-IsNew (answered 0)

system_serves_example :
    (s : System) × Steps no_reply 100 0 waiting s
    × (s.reads 0 ≡ front_read ∷ (6, codes "Ping\r\n") ∷ [])
    × (written 0 s.calls ≡ answers no_reply resp_response_builder (map create (ping ∷ [])))
unfolding received to_string first-NothingYet reading
system_serves_example =
    system_serves no_reply 100 0 14 64 (ping ∷ []) ping_text ((6, codes "Ping\r\n") ∷ []) first
      waiting first-NothingYet client-IsNew refl refl (omega arith)
      (ping_text, [], ping_text-IsRequest, (omega arith, omega arith), omega arith, refl, refl)
      (front_comes 0) refl ((omega arith, omega arith), tt) ((omega arith, omega arith), tt)

-- The connection closes while its answer waits in the reactor.
abbrev fifth : System
fifth = record fourth { reactor = record fourth.reactor { connections = [] } }

abbrev sixth : System
sixth = record fifth { reactor = record fifth.reactor { replies = []; reply_pending = false } }

closed : Steps no_reply 100 9 first fifth
unfolding on_close remove_connection erase
closed =
    Steps-trans no_reply 100 9 (answered 9)
      (more (closes fourth client_after (omega arith)) (done fifth))

dropped : Steps no_reply 100 9 fifth sixth
unfolding on_reply send_pending send_each send_reply write_to owned get_data find
dropped = more (replies fifth sixth.reactor [] refl refl) (done sixth)

system_front_example :
    (rest : Bytes) × (replies_to 0 (batch_replies no_reply sixth.dispatched)
      ≡ written 0 sixth.calls ++ rest)
system_front_example =
    system_front no_reply 0 100 9 first sixth first-NothingYet
      (Steps-trans no_reply 100 9 closed dropped)

system_closed_example :
    (find 0 sixth.reactor.connections ≡ none) × (written 0 sixth.calls ≡ written 0 fifth.calls)
unfolding find
system_closed_example =
    system_closed no_reply 0 100 9 first fifth sixth first-NothingYet closed refl dropped
