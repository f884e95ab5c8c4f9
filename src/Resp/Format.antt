-- ===== src/Resp/Format.antt =====
-- The request format, apart from the parser: which bytes spell a command.
use vector_engine.Common.{ℕ, suc, ◌≡◌, List, [], ◌∷◌, ◌++◌, Bytes, length}
use vector_engine.Decimal.Numeral.{IsNumeral}
use vector_engine.Resp.Command.{RespCommand, crlf, star, dollar}

-- A mark, a numeral and a line end.
pub record IsHeader (c n : ℕ) (p : Bytes) : Type 0 where
  pub ds : Bytes
  pub numeral : IsNumeral n ds
  pub whole : p ≡ c ∷ ds ++ crlf

-- `$n\r\n`, n bytes, `\r\n`.
pub record IsBulk (s p : Bytes) : Type 0 where
  pub header : Bytes
  pub sized : IsHeader dollar (length s) header
  pub whole : p ≡ header ++ (s ++ crlf)

abbrev pub IsBulks : List Bytes → Bytes → Type 0
IsBulks [] p = p ≡ []
IsBulks (s ∷ ss) p = (h : Bytes) × (t : Bytes) × IsBulk s h × IsBulks ss t × (p ≡ h ++ t)

-- `*n\r\n` and n bulk strings, the name and the arguments.
pub record IsRequest (c : RespCommand) (p : Bytes) : Type 0 where
  pub header : Bytes
  pub body : Bytes
  pub counted : IsHeader star (suc (length c.args)) header
  pub bulks : IsBulks (c.name ∷ c.args) body
  pub whole : p ≡ header ++ body

abbrev pub IsRequests : List RespCommand → Bytes → Type 0
IsRequests [] p = p ≡ []
IsRequests (c ∷ cs) p = (h : Bytes) × (t : Bytes) × IsRequest c h × IsRequests cs t × (p ≡ h ++ t)
