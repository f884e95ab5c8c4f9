-- ===== src/Tests/Connections.antt =====
-- A connection that is sent a ping.
use vector_engine.Common.{
  ◌↔◌, ◌⊎◌, negsuc, ℕ, ◌≡◌, refl, List, [], ◌∷◌, ◌++◌, Bytes, codes, length, map, arith, drop,
  replicate,
}
use vector_engine.Errors.{ok, throws, standard}
use vector_engine.Decimal.{from_chars, to_string}
use vector_engine.Resp.Command.{RespCommand, star}
use vector_engine.Resp.Parser.{parse_num, parse_argv, parse_args, parse_command, parse}
use vector_engine.Str.{bytes_eq, to_lower}
use vector_engine.Task.{ping_task, create}
use vector_engine.Protocol.{
  resp, resp_response_builder, create_response_builder, create_request_parser, parse_with,
  parse_request,
}
use vector_engine.ReadBuffer.{
  Region, contents, make, alloc, realloc_if_needed, clamp, occupy, dealloc,
}
use vector_engine.ReadBuffer.Fifo.{fill, write_at}
use vector_engine.ReadBuffer.Growth.{IsValid}
use vector_engine.Connection.{
  Connection, Effect, dispatch, close, make_connection, on_alloc, on_read, parse_and_dispatch,
}
use vector_engine.Connection.Dispatch.{StaysOpen, dispatched}
use vector_engine.Connection.Read.{Step, IsDrained, receive}
use vector_engine.Connection.Progress.{receive_ok}
use vector_engine.Connection.Full.{full_buffer_closes}
use vector_engine.Connection.Requests.{requests_served}
use vector_engine.Resp.Parser.Front.{IsStream}
use vector_engine.Connection.Stream.{received, receive_all, connection_stream}
use vector_engine.Connection.Survive.{Survives, receive-Survives}
use vector_engine.Resp.Parser.Tame.{HasTrap}
use vector_engine.Connection.Reject.{bad_request_closes, huge_count_escapes}
use vector_engine.Tests.{
  header_text, header_text-IsHeader, bulk_text, bulk_text-IsBulk, ping, ping_text,
  ping_text-IsRequest,
}

-- A connection whose buffer holds a text of at most 40 bytes.
abbrev holding : Bytes → Connection
holding text = record {
  id = 7;
  read_buf = record {
    min_size = 8;
    max_size = 64;
    size = length text;
    buf = text ++ codes "--------";
  };
  protocol = resp;
}

abbrev empty-IsValid : IsValid ((holding []).read_buf)
empty-IsValid = record {
  positive = omega arith;
  bounded = omega arith;
  least = omega arith;
  most = omega arith;
  occupied = omega arith;
}

abbrev ping_bytes : Bytes
ping_bytes = codes "*1\r\n$4\r\nPing\r\n"

abbrev reads : List (ℕ × Bytes)
reads = (4, codes "*1\r\n$4\r\n") ∷ (4, codes "Ping\r\n*") ∷ []

abbrev after_reads : Connection
after_reads = record {
  id = 7;
  read_buf = record { min_size = 8; max_size = 64; size = 1; buf = codes "*" ++ replicate 7 0 };
  protocol = resp;
}

connection_stream_example :
    (cs : List RespCommand) × (n : ℕ) × (parse 100 (received reads) ≡ ok (cs, n))
    × (dispatched (dispatch 7 (ping_task ∷ []) resp_response_builder ∷ []) ≡ map create cs)
    × (contents after_reads.read_buf ≡ drop n (received reads))
unfolding parse parse_command parse_num from_chars parse_argv parse_args create bytes_eq to_lower
    receive_all receive on_alloc on_read alloc realloc_if_needed clamp occupy dealloc fill write_at
    parse_and_dispatch parse_request create_request_parser parse_with create_response_builder
    make_connection make
connection_stream_example =
    connection_stream 100 7 8 64 reads (omega arith) (omega arith) (omega arith) refl refl tt

-- A connection as the constructor makes it.
abbrev made_with : ℕ → ℕ → ℕ → Connection
made_with id least limit = record {
  id = id;
  read_buf = record { min_size = least; max_size = limit; size = 0; buf = replicate least 0 };
  protocol = resp;
}

-- The stream of a ping in two reads, of which the second is still to come.
requests_served_example :
    (conn' : Connection) × (es : List Effect) × (arrived later : List RespCommand) × (receive_all
        100
        (made_with 7 8 64)
        ((8, codes "*1\r\n$4\r\n") ∷ [])
      ≡ ok (conn', es))
    × StaysOpen es
    × (dispatched es ≡ map create arrived)
    × (ping ∷ [] ≡ arrived ++ later)
    × IsStream 100 14 later (contents conn'.read_buf ++ codes "Ping\r\n")
    × IsDrained 100 conn'
    × (codes "Ping\r\n" ≡ [] → later ≡ [])
unfolding received to_string make_connection make
requests_served_example =
    requests_served 100 14 7 8 64 (ping ∷ []) ping_text ((8, codes "*1\r\n$4\r\n") ∷ [])
      (codes "Ping\r\n") (omega arith) (omega arith) (omega arith) (omega arith)
      (ping_text, [], ping_text-IsRequest, (omega arith, omega arith), omega arith, refl, refl) refl
      ((omega arith, omega arith), tt) refl

receive_ok_example :
    (conn : Connection) × (es : List Effect) × (receive 100 (holding []) 16 ping_bytes
      ≡ ok (conn, es))
    × StaysOpen es
    × Step 100 (holding []) ping_bytes conn es
unfolding parse parse_command parse_num from_chars parse_argv parse_args create bytes_eq to_lower
    on_alloc alloc realloc_if_needed clamp
receive_ok_example =
    receive_ok 100 (holding []) _ _ 16 ping_bytes empty-IsValid refl refl refl (omega arith) refl

-- Bytes that are no request.
receive-Survives_example :
    Survives
      (holding (codes "*1\r\n$"))
      (receive 100 (holding (codes "*1\r\n$")) 16 (codes "+\r\n"))
    ⊎ HasTrap 100 (contents ((holding (codes "*1\r\n$")).read_buf) ++ codes "+\r\n")
unfolding on_alloc alloc realloc_if_needed clamp
receive-Survives_example =
    receive-Survives 100 (holding (codes "*1\r\n$")) _ _ 16 (codes "+\r\n")
      (record {
        positive = omega arith;
        bounded = omega arith;
        least = omega arith;
        most = omega arith;
        occupied = omega arith;
      })
      refl refl (omega arith)

abbrev bad : Connection
bad = holding (codes "*1\r\n$4\r\nPing\r\n+")

bad_request_closes_example : parse_and_dispatch 100 bad ≡ ok (bad, close ∷ [])
unfolding parse_command parse_num to_string
bad_request_closes_example =
    bad_request_closes 100 bad (ping ∷ []) ping_text (codes "+") refl refl
      (ping_text, [], ping_text-IsRequest, refl, refl) ((omega arith, omega arith), tt) refl

abbrev greedy : Connection
greedy = holding (codes "*200\r\n$4\r\nPing\r\n")

huge_count_escapes_example : parse_and_dispatch 100 greedy ≡ throws standard
unfolding to_string
huge_count_escapes_example =
    huge_count_escapes 100 greedy 200 (codes "Ping") (header_text star 200)
      (bulk_text (codes "Ping")) [] refl refl (header_text-IsHeader star 200 (omega arith))
      (bulk_text-IsBulk (codes "Ping") (omega arith)) (omega arith)

-- A connection whose buffer has grown to its limit and holds the front of a request.
abbrev crowded : Connection
crowded = record {
  id = 7;
  read_buf = record { min_size = 8; max_size = 16; size = 16; buf = codes "*1\r\n$99\r\nabcdefg" };
  protocol = resp;
}

abbrev crowded-IsValid : IsValid crowded.read_buf
crowded-IsValid = record {
  positive = omega arith;
  bounded = omega arith;
  least = omega arith;
  most = omega arith;
  occupied = omega arith;
}

full_buffer_closes_example :
    (conn : Connection) × (r : Region) × (on_alloc crowded 4096 ≡ ok (conn, r))
    × ((r.len ≡ 0) ↔ (length (contents crowded.read_buf) ≡ 16))
    × (on_read 100 conn (negsuc 104) ≡ ok (conn, close ∷ []))
full_buffer_closes_example = full_buffer_closes 100 4096 104 crowded crowded-IsValid (omega arith)
