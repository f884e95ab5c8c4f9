-- ===== src/JsonRpc.antt =====
-- json_rpc.h and json_rpc.cpp. The type of a request is a library's, and `to_mcp_reply`, which the
-- builder calls, is declared nowhere: the first is not used here, the second is a parameter. A
-- class that holds nothing and has one method is the type of that method.
use vector_engine.Common.{ℕ, List, [], Bytes}
use vector_engine.Errors.{Outcome, ok}
use vector_engine.Task.{Task, TaskOutput}

abbrev pub JsonRpcReply : Type 0
JsonRpcReply = Bytes

abbrev pub JsonRpcResponseBuilder : Type 0
JsonRpcResponseBuilder = TaskOutput → JsonRpcReply

abbrev pub JsonRpcRequestParser : Type 0
JsonRpcRequestParser = Bytes → Outcome (List Task × ℕ)

unfoldable pub parse_json_rpc_request : JsonRpcRequestParser
parse_json_rpc_request buffer = ok ([], 0)

unfoldable pub build_json_rpc_reply : (TaskOutput → JsonRpcReply) → JsonRpcResponseBuilder
build_json_rpc_reply to_mcp_reply output = to_mcp_reply output
