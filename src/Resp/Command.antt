-- ===== src/Resp/Command.antt =====
-- `RespCommand` of resp.h, and the bytes and messages that the parser and the replies share.
use vector_engine.Common.{ℕ, List, [], ◌∷◌, ◌++◌, Bytes, codes}
use vector_engine.Errors.{Error}

pub record RespCommand : Type 0 where
  pub name : Bytes
  pub args : List Bytes

abbrev pub cr : ℕ
cr = 13

abbrev pub lf : ℕ
lf = 10

abbrev pub crlf : Bytes
crlf = cr ∷ lf ∷ []

abbrev pub star : ℕ
star = b'*'

abbrev pub dollar : ℕ
dollar = b'$'

pub expect_char : ℕ → Error
expect_char c = record { msg = codes "expect " ++ c ∷ [] }

pub expect_integer : Error
expect_integer = record { msg = codes "expect a positive integer" }

pub expect_crlf : Error
expect_crlf = record { msg = codes "expect '\\r\\n'" }

pub zero_argument : Error
zero_argument = record { msg = codes "invalid request: zero argument" }
