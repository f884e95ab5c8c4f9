-- ===== src/Protocol.antt =====
-- protocol.h, protocol.cpp, and the request parser and response builder of resp.h and resp.cpp.
-- The subclasses are the constructors of two types, and a virtual call is a split on them. A class
-- that holds nothing and has one method is the type of that method.
pub mod Interface
use vector_engine.Common.{ℕ, List, [], map, Bytes, codes}
use vector_engine.Errors.{Error, Outcome, ok, throws, engine, ◌>>=◌}
use vector_engine.Resp.Parser.{parse}
use vector_engine.Task.{Task, TaskOutput, to_resp_reply, create}
use vector_engine.JsonRpc.{parse_json_rpc_request, build_json_rpc_reply}

-- The two enumerators, and a value of the type that none of them names.
pub data ProtocolType : Type 0 where
  resp json_rpc other_protocol : ProtocolType

pub data ResponseBuilder : Type 0 where
  resp_response_builder json_rpc_response_builder : ResponseBuilder

pub data RequestParser : Type 0 where
  resp_request_parser json_rpc_request_parser : RequestParser

abbrev pub ResponseBuilderCreator : Type 0
ResponseBuilderCreator = ProtocolType → Outcome ResponseBuilder

abbrev pub RequestParserCreator : Type 0
RequestParserCreator = ProtocolType → Outcome RequestParser

pub unknown_protocol : Error
unknown_protocol = record { msg = codes "unknown protocol type" }

unfoldable pub create_response_builder : ResponseBuilderCreator
create_response_builder resp = ok resp_response_builder
create_response_builder json_rpc = ok json_rpc_response_builder
create_response_builder other_protocol = throws (engine unknown_protocol)

unfoldable pub create_request_parser : RequestParserCreator
create_request_parser resp = ok resp_request_parser
create_request_parser json_rpc = ok json_rpc_request_parser
create_request_parser other_protocol = throws (engine unknown_protocol)

abbrev pub RespReply : Type 0
RespReply = Bytes

abbrev pub RespResponseBuilder : Type 0
RespResponseBuilder = TaskOutput → RespReply

abbrev pub RespRequestParser : Type 0
RespRequestParser = Bytes → Outcome (List Task × ℕ)

-- `RespRequestParser::parse`.
unfoldable pub parse_resp_request : ℕ → RespRequestParser
parse_resp_request reserve_limit buffer = do
  (cmds, len) ← parse reserve_limit buffer
  ok (map create cmds, len)

-- `RespResponseBuilder::build`.
unfoldable pub build_resp_reply : RespResponseBuilder
build_resp_reply output = to_resp_reply output

-- `RequestParser::parse`.
unfoldable pub parse_with : ℕ → RequestParser → Bytes → Outcome (List Task × ℕ)
unfolding parse_resp_request parse_json_rpc_request
parse_with reserve_limit resp_request_parser buffer = parse_resp_request reserve_limit buffer
parse_with reserve_limit json_rpc_request_parser buffer = parse_json_rpc_request buffer

-- `ResponseBuilder::build`.
unfoldable pub build : (TaskOutput → Bytes) → ResponseBuilder → TaskOutput → Bytes
unfolding build_resp_reply build_json_rpc_reply
build to_mcp_reply resp_response_builder output = build_resp_reply output
build to_mcp_reply json_rpc_response_builder output = build_json_rpc_reply to_mcp_reply output

-- `Connection::_parse_request`.
unfoldable pub parse_request : ℕ → ProtocolType → Bytes → Outcome (List Task × ℕ)
unfolding create_request_parser parse_with
parse_request reserve_limit protocol buffer = do
  parser ← create_request_parser protocol
  parse_with reserve_limit parser buffer
