-- ===== src/Resp/Parser/Complete.antt =====
-- `RespCommandParser` of resp.cpp on texts in the request format.
use vector_engine.Common.{
  ℕ, zero, suc, ◌+◌, ◌-◌, ◌%◌, ◌^◌, ◌≤◌, ◌<◌, ◌≡◌, ◌≢◌, refl, ap, ◌∙◌, List, [], ◌∷◌, ◌++◌,
  append-nil, append_assoc, some, arith, Bytes, length, length-append, take-length-append,
  drop-length-append, ltb-false, ==_self, ==_false,
}
use vector_engine.Errors.{ok}
use vector_engine.Decimal.{size_mod}
use vector_engine.Decimal.Numeral.{IsNumeral, from_chars-append}
use vector_engine.Resp.Command.{RespCommand, crlf}
use vector_engine.Resp.Format.{IsHeader, IsBulk, IsBulks, IsRequest}
use vector_engine.Resp.Parser.{
  end_of_num, check_num, after_mark, parse_num, end_of_argv, read_argv, parse_argv, push_arg,
  parse_args, finish_command, read_args, parse_command,
}

after_mark-append :
    {n : ℕ} (ds rest : Bytes)
    → IsNumeral n ds
    → after_mark (ds ++ (crlf ++ rest)) ≡ ok (some (n, rest))
unfolding after_mark check_num end_of_num
after_mark-append [] rest num = absurd (num.some_digit refl)
after_mark-append (d ∷ ds) rest num = rw (from_chars-append (d ∷ ds) (crlf ++ rest) num refl)

-- A header is read whole.
pub parse_num-append :
    {c n : ℕ} (p rest : Bytes) → IsHeader c n p → parse_num c (p ++ rest) ≡ ok (some (n, rest))
unfolding parse_num
parse_num-append {c} p rest head =
    rw (head.whole, ==_self c, append_assoc head.ds crlf rest)
      (after_mark-append head.ds rest head.numeral)

read_argv-append :
    (s rest : Bytes)
    → length s < size_mod
    → read_argv (length s, s ++ (crlf ++ rest)) ≡ ok (some (s, rest))
unfolding read_argv end_of_argv
read_argv-append s rest h = rw (
  ltb-false (length (s ++ (crlf ++ rest))) ((length s + 2) % size_mod)
      (omega (arith, length-append s (crlf ++ rest))),
  take-length-append s (crlf ++ rest),
  drop-length-append s (crlf ++ rest),
)

-- A bulk string is read whole, whatever bytes it holds.
pub parse_argv-append :
    {s : Bytes} (p rest : Bytes) → IsBulk s p → parse_argv (p ++ rest) ≡ ok (some (s, rest))
unfolding parse_argv
parse_argv-append {s} p rest bulk =
    rw
      (
        bulk.whole,
        append_assoc bulk.header (s ++ crlf) rest,
        parse_num-append bulk.header ((s ++ crlf) ++ rest) bulk.sized,
        append_assoc s crlf rest,
      )
      (read_argv-append s rest bulk.sized.numeral.fits)

-- The loop reads the arguments that are left, if `idx` has not wrapped and the fuel exceeds them.
parse_args-append :
    (fuel n idx : ℕ) (done news : List Bytes) (p rest : Bytes)
    → IsBulks news p
    → idx + length news ≡ n
    → n < 2 ^ 32
    → length news < fuel
    → parse_args fuel n (record { idx = idx; args = done; buffer = p ++ rest })
      ≡ ok (record { idx = n; args = done ++ news; buffer = rest })
unfolding parse_args
parse_args-append zero n idx done news p rest bulks e lt enough = absurd (omega arith)
parse_args-append (suc fuel) n idx done [] p rest bulks e lt enough =
    let e' : idx ≡ n = omega arith in rw (e', ==_self n, bulks, append-nil)
parse_args-append (suc fuel) n idx done (s ∷ news) p rest (h, t, bulk, bulks, e') e lt enough =
    let small : (idx + 1) % 2 ^ 32 ≡ idx + 1 = omega arith in
    let ne : idx ≢ n = omega arith in
    rw
      (
        ==_false idx n ne,
        e',
        append_assoc h t rest,
        parse_argv-append h (t ++ rest) bulk,
        push_arg,
        small,
      )
      (parse_args-append fuel n (idx + 1) (done ++ s ∷ []) news t rest bulks (omega arith) lt
          (omega arith)
        ∙ ap (λ (xs : List Bytes). ok (record { idx = n; args = xs; buffer = rest }))
            (append_assoc done (s ∷ []) news))

-- A bulk string takes a byte at least, so the fuel of the loop covers its arguments.
length-le-IsBulks : (news : List Bytes) (p : Bytes) → IsBulks news p → length news ≤ length p
length-le-IsBulks [] p e = omega arith
length-le-IsBulks (s ∷ news) p (h, t, bulk, bulks, e) = omega (
  arith,
  length-le-IsBulks news t bulks,
  ap length e,
  length-append h t,
  ap length bulk.whole,
  length-append bulk.header (s ++ crlf),
  ap length bulk.sized.whole,
)

read_args-append :
    (reserve_limit n : ℕ) (name : Bytes) (args : List Bytes) (t rest : Bytes)
    → IsBulks args t
    → length args ≡ n
    → n < 2 ^ 32
    → n ≤ reserve_limit
    → read_args reserve_limit n (name, t ++ rest)
      ≡ ok (some (record { name = name; args = args }, rest))
unfolding read_args finish_command
read_args-append reserve_limit n name args t rest bulks e few granted = rw (
  ltb-false reserve_limit n granted,
  parse_args-append (suc (length (t ++ rest))) n 0 [] args t rest bulks (omega (arith, e)) few
      (omega (arith, length-le-IsBulks args t bulks, length-append t rest)),
  ltb-false n n (omega arith),
)

-- A request in the request format with fewer than 2^32 arguments, which `reserve` grants, is read
-- whole by one round of `parse`, whatever follows it.
pub parse_command-append :
    (reserve_limit : ℕ) (c : RespCommand) (p rest : Bytes)
    → IsRequest c p
    → length c.args < 2 ^ 32
    → length c.args ≤ reserve_limit
    → parse_command reserve_limit (p ++ rest) ≡ ok (some (c, rest))
unfolding parse_command
parse_command-append reserve_limit c p rest r few granted =
    let (h, t, bulk, bulks, e) = r.bulks in
    rw
      (
        r.whole,
        append_assoc r.header r.body rest,
        parse_num-append r.header (r.body ++ rest) r.counted,
        ==_false (suc (length c.args)) 0 (omega arith),
        e,
        append_assoc h t rest,
        parse_argv-append h (t ++ rest) bulk,
      )
      (read_args-append reserve_limit (suc (length c.args) - 1) c.name c.args t rest bulks
        (omega arith) (omega arith) (omega arith))
