-- ===== src/Resp/Reply/Request.antt =====
-- Requests as a client of `RespReplyBuilder` writes them: arrays of bulk strings (resp.cpp).
use vector_engine.Common.{
  ℕ, suc, pos, ◌<◌, ◌≡◌, refl, sym, ap, ◌∙◌, List, [], ◌∷◌, ◌++◌, append-nil, append_assoc, Bytes,
  All, length,
}
use vector_engine.Errors.{◌>>=◌}
use vector_engine.Decimal.{size_mod, to_string}
use vector_engine.Decimal.RoundTrip.{to_string-IsNumeral}
use vector_engine.Resp.Command.{RespCommand, crlf, star, dollar}
use vector_engine.Resp.Format.{IsBulk, IsBulks, IsRequest, IsRequests}
use vector_engine.Resp.Parser.{parse}
use vector_engine.Resp.Parser.Stream.{parse-append}
use vector_engine.Resp.Parser.Loop.{IsGranted, behind}
use vector_engine.Resp.Reply.{append_bulk_string, append_array}

-- The strings appended in turn, as a client of the builder does.
unfoldable pub append_bulk_strings : List Bytes → Bytes → Bytes
append_bulk_strings [] buffer = buffer
append_bulk_strings (s ∷ ss) buffer = append_bulk_strings ss (append_bulk_string s buffer)

-- The command as an array of bulk strings.
unfoldable pub append_command : RespCommand → Bytes → Bytes
unfolding append_bulk_strings
append_command c buffer =
    append_bulk_strings (c.name ∷ c.args) (append_array (pos (suc (length c.args))) buffer)

unfoldable pub append_commands : List RespCommand → Bytes → Bytes
append_commands [] buffer = buffer
append_commands (c ∷ cs) buffer = append_commands cs (append_command c buffer)

abbrev pub Short : Bytes → Type 0
Short s = length s < size_mod

bulk : Bytes → Bytes
bulk s = (dollar ∷ to_string (length s) ++ crlf) ++ (s ++ crlf)

bulk-IsBulk : (s : Bytes) → Short s → IsBulk s (bulk s)
unfolding bulk
bulk-IsBulk s h = record {
  header = dollar ∷ to_string (length s) ++ crlf;
  sized = record {
    ds = to_string (length s);
    numeral = to_string-IsNumeral (length s) h;
    whole = refl;
  };
  whole = refl;
}

-- What the builder appends, apart from what stood in the buffer.
record Appended (after before : Bytes) (P : Bytes → Type 0) : Type 0 where
  text : Bytes
  whole : after ≡ before ++ text
  is : P text

append_bulk_strings-IsBulks :
    (ss : List Bytes) (buffer : Bytes)
    → All Short ss
    → Appended (append_bulk_strings ss buffer) buffer (IsBulks ss)
unfolding append_bulk_strings append_bulk_string bulk
append_bulk_strings-IsBulks [] buffer h = record {
  text = [];
  whole = sym (append-nil buffer);
  is = refl;
}
append_bulk_strings-IsBulks (s ∷ ss) buffer (hs, hss) =
    let r = append_bulk_strings-IsBulks ss (buffer ++ bulk s) hss in
    record {
      text = bulk s ++ r.text;
      whole = r.whole ∙ append_assoc buffer (bulk s) r.text;
      is = (bulk s, r.text, bulk-IsBulk s hs, r.is, refl);
    }

-- A command of 64-bit lengths and fewer than 2^64 parts.
abbrev pub IsShort : RespCommand → Type 0
IsShort c = Short c.name × All Short c.args × (suc (length c.args) < size_mod)

append_command-IsRequest :
    (c : RespCommand) (buffer : Bytes)
    → IsShort c
    → Appended (append_command c buffer) buffer (IsRequest c)
unfolding append_command append_array
append_command-IsRequest c buffer (name, args, count) =
    let head = star ∷ to_string (suc (length c.args)) ++ crlf in
    let r = append_bulk_strings-IsBulks (c.name ∷ c.args) (buffer ++ head) (name, args) in
    record {
      text = head ++ r.text;
      whole = r.whole ∙ append_assoc buffer head r.text;
      is = record {
        header = head;
        body = r.text;
        counted = record {
          ds = to_string (suc (length c.args));
          numeral = to_string-IsNumeral (suc (length c.args)) count;
          whole = refl;
        };
        bulks = r.is;
        whole = refl;
      };
    }

append_commands-IsRequests :
    (cs : List RespCommand) (buffer : Bytes)
    → All IsShort cs
    → Appended (append_commands cs buffer) buffer (IsRequests cs)
unfolding append_commands
append_commands-IsRequests [] buffer h = record {
  text = [];
  whole = sym (append-nil buffer);
  is = refl;
}
append_commands-IsRequests (c ∷ cs) buffer (hc, hcs) =
    let a = append_command-IsRequest c buffer hc in
    let r = append_commands-IsRequests cs (append_command c buffer) hcs in
    record {
      text = a.text ++ r.text;
      whole = r.whole ∙ ap (λ (b : Bytes). b ++ r.text) a.whole ∙ append_assoc buffer a.text r.text;
      is = (a.text, r.text, a.is, r.is, refl);
    }

-- Commands that the reply builder writes as arrays of bulk strings one behind another, within
-- 64-bit lengths and the limits on their arguments, are parsed back, each whole and in order, and
-- what follows them is parsed as it would be alone.
pub parse-append_commands :
    (reserve_limit : ℕ) (cs : List RespCommand) (rest : Bytes)
    → All IsShort cs
    → All (IsGranted reserve_limit) cs
    → parse reserve_limit (append_commands cs [] ++ rest)
      ≡ (parse reserve_limit rest >>= behind cs (length (append_commands cs [])))
parse-append_commands reserve_limit cs rest short granted =
    let r = append_commands-IsRequests cs [] short in
    rw r.whole (parse-append reserve_limit cs r.text rest r.is granted)
