-- ===== src/Tests/Programs.antt =====
-- Runs of the program of main.cpp with one client.
use vector_engine.Common.{
  length, length-take, ◌⊎◌, ◌∙◌, sym, ℕ, ◌≤◌, pos, ◌≡◌, ◌≢◌, refl, ap, List, [], ◌∷◌, ◌++◌, some,
  Bytes, arith, codes, map,
}
use vector_engine.Common.Maps.{find}
use vector_engine.Errors.{ok}
use vector_engine.Task.{TaskOutput, create}
use vector_engine.Protocol.{resp, resp_response_builder}
use vector_engine.ReadBuffer.Growth.{Allocated, alloc-Allocated}
use vector_engine.Resp.Parser.Tame.{HasTrap}
use vector_engine.Main.Survive.{read_taken}
use vector_engine.ReadBuffer.{ReadBuffer, Region, contents, alloc}
use vector_engine.Connection.{Connection, on_alloc}
use vector_engine.Connection.Stream.{received, IsNew}
use vector_engine.Worker.{WorkerPool}
use vector_engine.Worker.Answers.{answers}
use vector_engine.Reactor.{read_start, Reactor, accepted, on_connect}
use vector_engine.Uv.{check_uv, enable_keepalive}
use vector_engine.Reactor.Registry.{IsWired}
use vector_engine.Reactor.Send.{written}
use vector_engine.System.{reading, System, Step, Steps, connects, done, more}
use vector_engine.Tests.{ping, ping_text, ping_text-IsRequest}
use vector_engine.Decimal.{to_string}
use vector_engine.Logger.{Logger}
use vector_engine.Main.{options, start}
use vector_engine.Main.Serve.{connected, start-serves, client_served, reached-IsSound}
use vector_engine.System.Sound.{IsSound}
use vector_engine.Main.Start.{start_lem, first_reactor, first_reactor-IsWired}
use vector_engine.System.Connect.{started}
use vector_engine.Reactor.Registry.{IsRegistry, on_connect_registers}
use vector_engine.Tests.Reactors.{quiet, willing-Willing, willing}

abbrev no_reply : TaskOutput → Bytes
no_reply output = []

abbrev two_reads : List (ℕ × Bytes)
two_reads = (8, codes "*1\r\n$4\r\n") ∷ (6, codes "Ping\r\n") ∷ []

start-serves_example :
    (logger : Logger quiet) × (p : WorkerPool) × (r r' : Reactor) × (served : System) × (start
        willing quiet
      ≡ ok (logger, p, r))
    × (on_connect willing (pos 0) (pos 0) r ≡ ok (r', read_start 0 ∷ []))
    × Steps no_reply 100 0 (connected p r') served
    × (served.reads 0 ≡ two_reads)
    × (written 0 served.calls ≡ answers no_reply resp_response_builder (map create (ping ∷ [])))
unfolding received to_string check_uv enable_keepalive
start-serves_example =
    start-serves no_reply willing quiet 0 100 14 0 (ping ∷ []) two_reads refl willing-Willing refl
      (omega arith)
      (ping_text, [], ping_text-IsRequest, (omega arith, omega arith), omega arith, refl, refl)
      ((omega arith, omega arith), ((omega arith, omega arith), tt))

-- The program just after its start, with the workers that the constructor of the pool makes.
abbrev new_pool : WorkerPool
new_pool = (start_lem willing quiet 0 refl willing-Willing).1

abbrev at_start : System
at_start = started new_pool (first_reactor willing quiet)

abbrev first_client :
    (conn : Connection) × (r : Reactor) × (on_connect willing (pos 0) (pos 0) at_start.reactor
      ≡ ok (r, read_start 0 ∷ []))
    × IsRegistry r
    × IsWired r
    × (find 0 r.connections ≡ some conn)
    × IsNew 0 resp conn
    × ((k : ℕ) → k ≢ 0 → find k r.connections ≡ find k at_start.reactor.connections)
    × (r.replies ≡ [])
unfolding check_uv enable_keepalive accepted
first_client =
    on_connect_registers willing 0 (pos 0) at_start.reactor tt (first_reactor-IsWired willing quiet)
      (omega arith) (omega arith) (omega arith) (omega arith) refl

abbrev with_client : System
with_client = record at_start { reactor = first_client.1; calls = read_start 0 ∷ [] }

client_connects : Steps no_reply 100 9 at_start with_client
unfolding check_uv enable_keepalive
client_connects =
    more
      (connects at_start willing 0 (pos 0) first_client.1 (read_start 0 ∷ []) (omega arith)
        (omega arith) (omega arith) (omega arith) refl first_client.2)
      (done with_client)

reached-IsSound_example : IsSound options with_client
reached-IsSound_example =
    reached-IsSound no_reply willing quiet 0 100 9 with_client refl willing-Willing
      (start_lem willing quiet 0 refl willing-Willing).2 client_connects

abbrev first_region :
    (b : ReadBuffer) × (r : Region) × (alloc first_client.0.read_buf 64 ≡ ok (b, r))
    × Allocated first_client.0.read_buf 64 b r
first_region = alloc-Allocated first_client.0.read_buf 64 first_client.6.valid

first_region_free : 1 ≤ first_region.1.len
first_region_free =
    let a = first_region.3 in
    let v = first_client.6.valid in
    let empty : first_client.0.read_buf.size ≡ 0 =
      sym (length-take first_client.0.read_buf.size first_client.0.read_buf.buf v.occupied)
      ∙ ap length first_client.6.empty in
    omega (arith, a.free, a.same_size, empty, a.valid.least, a.valid.positive)

first_alloc :
    on_alloc first_client.0 64
    ≡ ok (record first_client.0 { read_buf = first_region.0 }, first_region.1)
unfolding on_alloc
first_alloc = rw first_region.2 refl

-- A client that sends a byte that begins no request.
read_taken_example :
    ((s : System) × Step no_reply 100 5 with_client s × (s.reads 0 ≡ (64, codes "+") ∷ []))
    ⊎ HasTrap 100 (contents first_client.0.read_buf ++ codes "+")
unfolding reading
read_taken_example =
    read_taken no_reply willing quiet 0 100 9 5 0 64 (codes "+") with_client refl willing-Willing
      (start_lem willing quiet 0 refl willing-Willing).2 client_connects first_client.5 first_alloc
      first_region_free refl (omega arith)

-- The threads have taken one client and printed a line when the input ends.
abbrev one_joins : WorkerPool → Reactor → System × List Bytes
one_joins pool r = (with_client, codes "protocol error" ∷ [])

client_served_example :
    (s : System) × Steps no_reply 100 0 with_client s
    × (s.reads 0 ≡ two_reads)
    × (written 0 s.calls ≡ answers no_reply resp_response_builder (map create (ping ∷ [])))
unfolding received to_string check_uv enable_keepalive
client_served_example =
    client_served no_reply willing quiet 0 100 9 14 0 (ping ∷ []) ping_text two_reads at_start
      with_client refl willing-Willing refl (start_lem willing quiet 0 refl willing-Willing).2
      (done at_start) (omega arith) first_client.2 (done with_client) (omega arith)
      (ping_text, [], ping_text-IsRequest, (omega arith, omega arith), omega arith, refl, refl) refl
      tt ((omega arith, omega arith), ((omega arith, omega arith), tt))
