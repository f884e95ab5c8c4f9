-- ===== src/Resp/Reply/Interface.antt =====
-- The class `RespReplyBuilder` of resp.h: every call appends to what stands in the buffer, and
-- what it appends does not depend on that; and its code in resp.h and resp.cpp as such.
use vector_engine.Common.{ℕ, ◌≡◌, refl, ℤ, [], ◌++◌, Bytes}
use vector_engine.Resp.Reply.{
  append_ok, append_string, append_simple_string, append_error, append_integer, append_bulk_string,
  append_nil, append_array,
}

-- A call that puts something behind the buffer.
abbrev pub Appends : (Bytes → Bytes) → Type 0
Appends call = (buffer : Bytes) → call buffer ≡ buffer ++ call []

pub record RespReplyBuilder : Type 0 where
  pub ok_reply : Bytes → Bytes
  pub simple_string : Bytes → Bytes → Bytes
  pub error_reply : Bytes → Bytes → Bytes
  pub integer : ℤ → Bytes → Bytes
  pub bulk_string : Bytes → Bytes → Bytes
  pub nil : Bytes → Bytes
  pub array : ℤ → Bytes → Bytes
  pub any_string : ℕ → Bytes → Bytes → Bytes
  pub data_of : Bytes → Bytes
  pub ok_law : Appends ok_reply
  pub simple_string_law : (s : Bytes) → Appends (simple_string s)
  pub error_law : (s : Bytes) → Appends (error_reply s)
  pub integer_law : (n : ℤ) → Appends (integer n)
  pub bulk_string_law : (s : Bytes) → Appends (bulk_string s)
  pub nil_law : Appends nil
  pub array_law : (n : ℤ) → Appends (array n)
  pub data_law : (buffer : Bytes) → data_of buffer ≡ buffer

-- `data`: the buffer.
unfoldable pub data_of_builder : Bytes → Bytes
data_of_builder buffer = buffer

pub append_ok-Appends : Appends append_ok
unfolding append_ok
append_ok-Appends buffer = refl

pub append_simple_string-Appends : (s : Bytes) → Appends (append_simple_string s)
unfolding append_simple_string
append_simple_string-Appends s buffer = refl

pub append_error-Appends : (s : Bytes) → Appends (append_error s)
unfolding append_error
append_error-Appends s buffer = refl

pub append_integer-Appends : (n : ℤ) → Appends (append_integer n)
unfolding append_integer
append_integer-Appends n buffer = refl

pub append_bulk_string-Appends : (s : Bytes) → Appends (append_bulk_string s)
unfolding append_bulk_string
append_bulk_string-Appends s buffer = refl

pub append_nil-Appends : Appends append_nil
unfolding append_nil
append_nil-Appends buffer = refl

pub append_array-Appends : (n : ℤ) → Appends (append_array n)
unfolding append_array
append_array-Appends n buffer = refl

pub data_of_builder_lem : (buffer : Bytes) → data_of_builder buffer ≡ buffer
unfolding data_of_builder
data_of_builder_lem buffer = refl

abbrev pub resp_reply_builder : RespReplyBuilder
resp_reply_builder = record {
  ok_reply = append_ok;
  simple_string = append_simple_string;
  error_reply = append_error;
  integer = append_integer;
  bulk_string = append_bulk_string;
  nil = append_nil;
  array = append_array;
  any_string = append_string;
  data_of = data_of_builder;
  ok_law = append_ok-Appends;
  simple_string_law = append_simple_string-Appends;
  error_law = append_error-Appends;
  integer_law = append_integer-Appends;
  bulk_string_law = append_bulk_string-Appends;
  nil_law = append_nil-Appends;
  array_law = append_array-Appends;
  data_law = data_of_builder_lem;
}
