-- ===== src/Tests.antt =====
-- Requests and other data at which the theorems are applied.
mod Parser
mod Buffer
mod Connections
mod Workers
mod Reactors
mod Systems
mod Programs
mod Strings
use vector_engine.Common.{
  ℕ, suc, ◌+◌, ◌<◌, ◌≡◌, refl, List, [], ◌∷◌, ◌++◌, Bytes, codes, length, arith,
}
use vector_engine.Decimal.{size_mod, to_string}
use vector_engine.Decimal.RoundTrip.{to_string-IsNumeral}
use vector_engine.Resp.Command.{RespCommand, crlf, star, dollar}
use vector_engine.Resp.Format.{IsHeader, IsBulk, IsRequest}

abbrev pub header_text : ℕ → ℕ → Bytes
header_text c n = c ∷ (to_string n ++ crlf)

abbrev pub header_text-IsHeader : (c n : ℕ) → n < size_mod → IsHeader c n (header_text c n)
header_text-IsHeader c n h = record {
  ds = to_string n;
  numeral = to_string-IsNumeral n h;
  whole = refl;
}

abbrev pub ping : RespCommand
ping = record { name = codes "Ping"; args = [] }

abbrev pub bulk_text : Bytes → Bytes
bulk_text s = header_text dollar (length s) ++ (s ++ crlf)

abbrev pub bulk_text-IsBulk : (s : Bytes) → length s < size_mod → IsBulk s (bulk_text s)
bulk_text-IsBulk s h = record {
  header = header_text dollar (length s);
  sized = header_text-IsHeader dollar (length s) h;
  whole = refl;
}

abbrev pub ping_text : Bytes
ping_text = header_text star 1 ++ (bulk_text (codes "Ping") ++ [])

abbrev pub ping_text-IsRequest : IsRequest ping ping_text
ping_text-IsRequest = record {
  header = header_text star 1;
  body = bulk_text (codes "Ping") ++ [];
  counted = header_text-IsHeader star 1 (omega arith);
  bulks = (bulk_text (codes "Ping"), [], bulk_text-IsBulk (codes "Ping") (omega arith), refl, refl);
  whole = refl;
}
