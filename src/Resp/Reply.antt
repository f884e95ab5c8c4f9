-- ===== src/Resp/Reply.antt =====
-- `RespReplyBuilder` of resp.h and resp.cpp. A call appends to `_buffer`: it is a function from
-- the buffer before to the buffer after.
pub mod Interface
pub mod Request
use vector_engine.Common.{ℕ, suc, ℤ, pos, negsuc, [], ◌∷◌, ◌++◌, Bytes, codes, length}
use vector_engine.Decimal.{to_string}
use vector_engine.Resp.Command.{cr, lf, crlf, dollar, star}

-- `std::to_string(long long)`.
unfoldable pub int_to_string : ℤ → Bytes
int_to_string (pos n) = to_string n
int_to_string (negsuc n) = b'-' ∷ to_string (suc n)

unfoldable pub append_ok : Bytes → Bytes
append_ok buffer = buffer ++ codes "+OK\r\n"

unfoldable pub append_string : ℕ → Bytes → Bytes → Bytes
append_string type str buffer = buffer ++ (type ∷ str ++ crlf)

unfoldable pub append_simple_string : Bytes → Bytes → Bytes
unfolding append_string
append_simple_string str buffer = append_string b'+' str buffer

unfoldable pub append_error : Bytes → Bytes → Bytes
unfolding append_string
append_error err buffer = append_string b'-' err buffer

unfoldable pub append_integer : ℤ → Bytes → Bytes
unfolding append_string int_to_string
append_integer num buffer = append_string b':' (int_to_string num) buffer

unfoldable pub append_bulk_string : Bytes → Bytes → Bytes
append_bulk_string str buffer =
    let len = to_string (length str) in buffer ++ ((dollar ∷ len ++ crlf) ++ (str ++ crlf))

unfoldable pub append_nil : Bytes → Bytes
append_nil buffer = buffer ++ codes "$-1\r\n"

unfoldable pub append_array : ℤ → Bytes → Bytes
unfolding append_string int_to_string
append_array size buffer = append_string star (int_to_string size) buffer
