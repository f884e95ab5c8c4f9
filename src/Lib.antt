-- ===== src/Lib.antt =====
-- vector-engine: a server that reads requests in the Redis serialization protocol (RESP) from TCP
-- connections, runs them on a pool of worker threads and writes the replies back. All code is in
-- src/sw/vector-engine/.
--
-- The parts and how they interact. The reactor (reactor.h, reactor.cpp) runs the event loop of
-- libuv and owns the connections. A connection (connection.h, connection.cpp) gives libuv memory
-- from its read buffer (read_buffer.h, read_buffer.cpp); when bytes have arrived it parses the
-- buffer (resp.h, resp.cpp, behind protocol.h and protocol.cpp), makes a task of each command
-- (task.h, ping_task, unknown_task) and hands the tasks to the reactor, which submits them to the
-- worker that the connection's id picks (worker.h, worker.cpp). The worker runs them, builds the
-- reply and sends it to the reactor, whose reply callback writes it to the connection if that is
-- still open.
--
-- Which file models what:
-- - Errors: errors.h, and what a function does: it returns, throws an `Error`, throws another
--   exception, fails an assertion or reads out of bounds (`undefined`), or has used up its fuel
--   (`diverges`).
-- - Decimal: std::from_chars and std::to_string of the standard library, for numbers of 64 bits.
-- - Resp.Command, Resp.Parser: `RespCommand` and `RespCommandParser` (resp.cpp), a function for
--   each method; the loop of `parse` is `parse_loop` over `parse_command`, its inner loop is
--   `parse_args`. Resp.Format says apart from the parser which bytes are a request.
--   Resp.Parser.Argument, Sound, Complete, Total, Loop, Stream, Prefix, Front, Tame and Overflow
--   hold the proofs.
-- - Resp.Reply: `RespReplyBuilder`.
-- - Str: str_utils.cpp. Task: task.h with the two tasks, `RespTaskCreator` of resp.cpp and, in
--   Task.Creator, task.cpp. JsonRpc: json_rpc.cpp. Protocol: protocol.cpp and the subclasses in
--   resp.cpp.
-- - ReadBuffer: read_buffer.cpp; `_buf` is the list of its bytes. ReadBuffer.Growth, Fifo, Queue,
--   Limit and Replay hold the proofs.
-- - Connection: the callbacks `on_alloc` and `on_read`; `on_close` stands in Reactor, whose map
--   it changes. Each gives the connection after it and its calls on the reactor and on libuv.
--   Connection.Dispatch, Read, Progress, Stream, Kept, Requests, Full, Reject, Survive and
--   Assertions hold the proofs.
-- - Handle: the casts of uv_utils.h, what a handle's `data` points to, and the deleter of the
--   loop. Uv: the functions of uv_utils.cpp, over the codes that libuv returns.
-- - Worker: worker.cpp; a worker is its queue, `run_round` is one round of `_run` and
--   `run_worker` all of them, over what the thread fetches, until it ends. Worker.Stop is about
--   the end of the pool. Worker.Lines reads the answers as a client does, line by line.
-- - Reactor: reactor.cpp; the connections are an association list from ids, the contexts of
--   writes one from addresses, and the calls on libuv are values in order. Reactor.Registry is
--   about the map, Reactor.Signals about the handles that threads signal through, Reactor.Kept
--   about what the callbacks leave alone, Reactor.Send and Reactor.Round about what reaches a
--   client.
-- - Logger: logger.cpp over spdlog's calls. Main: main.cpp, on the lines of its input and on what
--   the threads have done when it ends; Main.Start, Main.Serve, Main.Survive and Main.Quit hold
--   its proofs.
-- - System: the reactor and the workers together, as steps in any order that the code allows, the
--   reads of the connections among them; libuv reads from a connection from `uv_read_start` to
--   `uv_close`. System.Load, Batches, Held, Unmarked, InOrder, Workers, Loop, Reads, Serves,
--   Order, Good, Sound, Usable, Connect, Idle, Drain, Stream, Progress, Reading, Gone, Closed and
--   Front hold the proofs.
-- - A file Interface of a component is its header's class as a record: the operations of the
--   class, with laws that its clients rely on, and the code as an instance.
--
-- Numbers are natural numbers; std::size_t and uint64_t wrap at 2^64, unsigned int at 2^32,
-- written out where the code adds or multiplies. A string is the list of its bytes.
--
-- Fuel. `parse_loop` and `parse_args` get one more than the bytes that are left, since each round
-- takes a byte at least. `grow` gets one more than the greatest size of the buffer, since the
-- capacity grows in each round and stays within it. `push_workers` gets one more than the number
-- of workers.
--
-- Parameters. `reserve_limit` is the greatest count that std::vector::reserve grants; beyond it
-- the call throws std::length_error or std::bad_alloc. `Libuv` holds what each call on libuv
-- returns. `Spdlog` holds what spdlog's calls do. `to_mcp_reply`, which json_rpc.cpp calls and no
-- class declares, gives the reply of a task in JSON-RPC. In C's default locale std::tolower and
-- std::isspace are about ASCII; std::tolower of a byte above 127, which the code passes as a
-- negative char, is left as it is.
--
-- Not modelled: the mutexes and the condition variable, whose critical sections are single steps
-- of System, and the start of the timer; the memory that a failed write keeps is its context,
-- which stays on the heap, and the request beside it is left out; what std::cout and the log
-- files hold; CMakeLists.txt; deps/, which holds copies of nlohmann/json and spdlog.
pub mod Common
pub mod Errors
pub mod Decimal
pub mod Resp
pub mod Str
pub mod Task
pub mod JsonRpc
pub mod Protocol
pub mod ReadBuffer
pub mod Connection
pub mod Worker
pub mod Handle
pub mod Uv
pub mod Reactor
pub mod Logger
pub mod Main
pub mod System
pub mod Tests
