-- ===== src/Protocol/Interface.antt =====
-- The two creators of protocol.h, and the classes of each protocol; protocol.cpp, resp.cpp and
-- json_rpc.cpp as such.
use vector_engine.Common.{ℕ, ◌≡◌, ◌↔◌, refl, [], Bytes}
use vector_engine.Errors.{ok}
use vector_engine.JsonRpc.{
  JsonRpcReply, JsonRpcRequestParser, JsonRpcResponseBuilder, parse_json_rpc_request,
  build_json_rpc_reply,
}
use vector_engine.Task.{TaskOutput}
use vector_engine.Protocol.{
  ProtocolType, resp, json_rpc, other_protocol, ResponseBuilder, RequestParser,
  ResponseBuilderCreator, RequestParserCreator, create_response_builder, create_request_parser,
  RespRequestParser, RespResponseBuilder, parse_resp_request, build_resp_reply,
}

-- A protocol that has a parser has a builder, and the other way round.
pub record Creators : Type 0 where
  pub builder : ResponseBuilderCreator
  pub parser : RequestParserCreator
  pub agree_law :
      (p : ProtocolType)
      → ((b : ResponseBuilder) × (builder p ≡ ok b)) ↔ ((q : RequestParser) × (parser p ≡ ok q))

pub creators_agree :
    (p : ProtocolType)
    → ((b : ResponseBuilder) × (create_response_builder p ≡ ok b))
      ↔ ((q : RequestParser) × (create_request_parser p ≡ ok q))
unfolding create_response_builder create_request_parser
creators_agree resp = (λ h. (_, refl), λ h. (_, refl))
creators_agree json_rpc = (λ h. (_, refl), λ h. (_, refl))
creators_agree other_protocol = (λ (b, h). cc, λ (q, h). cc)

abbrev pub creators : Creators
creators = record {
  builder = create_response_builder;
  parser = create_request_parser;
  agree_law = creators_agree;
}

-- The parser and the builder of RESP.
pub record RespProtocol : Type 0 where
  pub parser : RespRequestParser
  pub builder : RespResponseBuilder

abbrev pub resp_protocol : ℕ → RespProtocol
resp_protocol reserve_limit = record {
  parser = parse_resp_request reserve_limit;
  builder = build_resp_reply;
}

-- The parser and the builder of JSON-RPC; the parser takes nothing.
pub record JsonRpcProtocol : Type 0 where
  pub parser : JsonRpcRequestParser
  pub builder : JsonRpcResponseBuilder
  pub parser_law : (buffer : Bytes) → parser buffer ≡ ok ([], 0)

pub parse_json_rpc_request_lem : (buffer : Bytes) → parse_json_rpc_request buffer ≡ ok ([], 0)
unfolding parse_json_rpc_request
parse_json_rpc_request_lem buffer = refl

abbrev pub json_rpc_protocol : (TaskOutput → JsonRpcReply) → JsonRpcProtocol
json_rpc_protocol to_mcp_reply = record {
  parser = parse_json_rpc_request;
  builder = build_json_rpc_reply to_mcp_reply;
  parser_law = parse_json_rpc_request_lem;
}
