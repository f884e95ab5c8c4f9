-- ===== src/Resp/Parser/Prefix.antt =====
-- `RespCommandParser` of resp.cpp on the front of a request, before its end has arrived.
use mathlib.Core.List.{cons-ne-nil}
use vector_engine.Common.{
  ℕ, zero, suc, ◌+◌, ◌-◌, ◌%◌, ◌^◌, ◌≤◌, ◌<◌, ◌≡◌, ◌≢◌, refl, ap, subst, ◌∙◌, inl, inr, List, [],
  ◌∷◌, ◌++◌, append_nothing, append-nil, none, arith, Bytes, length, length-append, length_pos,
  IsProperPrefix, IsProperPrefix-append, lt→ltb, ltb-false, ==_self, ==_false,
}
use vector_engine.Errors.{ok}
use vector_engine.Decimal.{size_mod}
use vector_engine.Decimal.Numeral.{IsNumeral, from_chars-append}
use vector_engine.Decimal.Prefix.{IsNumeral-front}
use vector_engine.Resp.Command.{RespCommand, cr, lf, crlf}
use vector_engine.Resp.Format.{IsHeader, IsBulk, IsBulks, IsRequest}
use vector_engine.Resp.Parser.{
  end_of_num, check_num, after_mark, parse_num, read_argv, parse_argv, push_arg, Args, parse_args,
  finish_command, read_args, read_command, parse_command,
}
use vector_engine.Resp.Parser.Complete.{parse_num-append, parse_argv-append}

-- A numeral at whose end at most a CR has arrived.
after_mark_cut :
    {n : ℕ} (ds e : Bytes) → IsNumeral n ds → IsProperPrefix e crlf → after_mark (ds ++ e) ≡ ok none
unfolding after_mark check_num end_of_num
after_mark_cut [] e num cut = absurd (num.some_digit refl)
after_mark_cut (d ∷ ds) [] num cut = rw (from_chars-append (d ∷ ds) [] num tt)
after_mark_cut (d ∷ ds) (a ∷ []) num (zs, ne, e) =
    let is_cr : a ≡ cr = cc in rw is_cr (rw (from_chars-append (d ∷ ds) (cr ∷ []) num refl))
after_mark_cut (d ∷ ds) (a ∷ b ∷ e) num (zs, ne, k) = absurd (ne (append_nothing e zs (cc)).1)

-- Some of the digits of a numeral.
after_mark_digits : {n : ℕ} (q ws : Bytes) → IsNumeral n (q ++ ws) → after_mark q ≡ ok none
unfolding after_mark
after_mark_digits [] ws num = refl
after_mark_digits (d ∷ q) ws num =
    subst (λ (t : Bytes). after_mark t ≡ ok none) (append-nil (d ∷ q))
      (after_mark_cut (d ∷ q) [] (IsNumeral-front (d ∷ q) ws (cons-ne-nil d q) num)
        (crlf, cons-ne-nil cr (lf ∷ []), refl))

after_mark_front :
    {n : ℕ} (q ds : Bytes) → IsNumeral n ds → IsProperPrefix q (ds ++ crlf) → after_mark q ≡ ok none
after_mark_front {n} q ds num cut = elim (IsProperPrefix-append q ds crlf cut) [
  | inl (ws, ne, k) ↦ after_mark_digits q ws (rw (← k) at num)
  | inr (ys, k, rest) ↦ rw k (after_mark_cut ds ys num rest)
]

-- A header whose end has not arrived is incomplete, and no error.
parse_num_cut :
    {c n : ℕ} (q p : Bytes) → IsHeader c n p → IsProperPrefix q p → parse_num c q ≡ ok none
unfolding parse_num
parse_num_cut {c} [] p head cut = refl
parse_num_cut {c} {n} (x ∷ q) p head (zs, ne, e) =
    let same : x ≡ c = cc (head.whole) in
    let e' : q ++ zs ≡ head.ds ++ crlf = cc (head.whole) in
    rw (same, ==_self c) (after_mark_front q head.ds head.numeral (zs, ne, e'))

length-IsBulk : {s : Bytes} (p : Bytes) → IsBulk s p → length s + 3 ≤ length p
length-IsBulk {s} p bulk = omega (
  arith,
  ap length bulk.whole,
  length-append bulk.header (s ++ crlf),
  length-append s crlf,
  ap length bulk.sized.whole,
)

-- A bulk string whose end has not arrived is incomplete, if the sum of its length and 2 does not
-- wrap.
parse_argv_cut :
    {s : Bytes} (q p : Bytes)
    → IsBulk s p
    → length s + 2 < size_mod
    → IsProperPrefix q p
    → parse_argv q ≡ ok none
unfolding parse_argv read_argv
parse_argv_cut {s} q p bulk small cut =
    elim (IsProperPrefix-append q bulk.header (s ++ crlf) (rw bulk.whole at cut)) [
      | inl within ↦ rw (parse_num_cut q bulk.header bulk.sized within)
      | inr (ys, k, (zs, ne, e)) ↦
          let short : length ys < (length s + 2) % size_mod = omega (
            arith,
            small,
            ap length e,
            length-append ys zs,
            length-append s crlf,
            length_pos zs ne,
          ) in
          rw (
            k,
            parse_num-append bulk.header ys bulk.sized,
            lt→ltb (length ys) ((length s + 2) % size_mod) short,
          )
    ]

-- The loop over the arguments breaks before their number.
parse_args_cut :
    (fuel n idx : ℕ) (done news : List Bytes) (q p : Bytes)
    → IsBulks news p
    → length p < size_mod
    → IsProperPrefix q p
    → idx + length news ≡ n
    → n < 2 ^ 32
    → length q < fuel
    → (a : Args) × (parse_args fuel n (record { idx = idx; args = done; buffer = q }) ≡ ok a)
      × (a.idx < n)
unfolding parse_args
parse_args_cut zero n idx done news q p bulks small cut e lt enough = absurd (omega arith)
parse_args_cut (suc fuel) n idx done [] q p bulks small (zs, ne, k) e lt enough =
    absurd (ne (append_nothing q zs (k ∙ bulks)).1)
parse_args_cut (suc fuel) n idx done (s ∷ news) q p (h, t, bulk, bulks, e') small cut e lt enough =
    let ne : idx ≢ n = omega arith in
    let long = length-IsBulk h bulk in
    let whole : length p ≡ length h + length t = omega (arith, ap length e', length-append h t) in
    elim (IsProperPrefix-append q h t (rw e' at cut)) [
      | inl within ↦ (
        record { idx = idx; args = done; buffer = q },
        rw (==_false idx n ne, parse_argv_cut q h bulk (omega (arith, long, whole, small)) within),
        omega arith,
      )
      | inr (ys, k, rest) ↦
          let (a, done', less) =
            parse_args_cut fuel n (idx + 1) (done ++ s ∷ []) news ys t bulks
              (omega (arith, whole, small)) rest (omega arith) lt
              (omega (arith, long, enough, ap length k, length-append h ys)) in
          let next : (idx + 1) % 2 ^ 32 ≡ idx + 1 = omega arith in
          (a, rw (==_false idx n ne, k, parse_argv-append h ys bulk, push_arg, next) done', less)
    ]

read_args_cut :
    (reserve_limit n : ℕ) (name : Bytes) (args : List Bytes) (q t : Bytes)
    → IsBulks args t
    → length t < size_mod
    → IsProperPrefix q t
    → length args ≡ n
    → n < 2 ^ 32
    → n ≤ reserve_limit
    → read_args reserve_limit n (name, q) ≡ ok none
unfolding read_args finish_command
read_args_cut reserve_limit n name args q t bulks small cut e few granted =
    let (a, done, less) =
      parse_args_cut (suc (length q)) n 0 [] args q t bulks small cut (omega (arith, e)) few
        (omega arith) in
    rw (ltb-false reserve_limit n granted, done, lt→ltb a.idx n less)

-- A request whose end has not arrived yet, within the limits on its arguments and of less than
-- 2^64 bytes, is incomplete for one round of `parse`, wherever it is cut: it throws nothing and
-- reads nothing out of bounds.
pub parse_command_cut :
    (reserve_limit : ℕ) (c : RespCommand) (q p : Bytes)
    → IsRequest c p
    → length c.args < 2 ^ 32
    → length c.args ≤ reserve_limit
    → length p < size_mod
    → IsProperPrefix q p
    → parse_command reserve_limit q ≡ ok none
unfolding parse_command read_command
parse_command_cut reserve_limit c q p r few granted small cut =
    let (h, t, bulk, bulks, e) = r.bulks in
    let whole : length p ≡ length r.header + (length h + length t) =
      omega
        (arith, ap length r.whole, length-append r.header r.body, ap length e, length-append h t) in
    let long = length-IsBulk h bulk in
    elim (IsProperPrefix-append q r.header r.body (rw r.whole at cut)) [
      | inl within ↦ rw (parse_num_cut q r.header r.counted within)
      | inr (ys, k, rest) ↦
          rw
            (
              k,
              parse_num-append r.header ys r.counted,
              ==_false (suc (length c.args)) 0 (omega arith),
            )
            (elim (IsProperPrefix-append ys h t (rw e at rest)) [
              | inl within ↦
                  rw (parse_argv_cut ys h bulk (omega (arith, long, whole, small)) within)
              | inr (us, k', rest') ↦
                  rw (k', parse_argv-append h us bulk)
                    (read_args_cut reserve_limit (suc (length c.args) - 1) c.name c.args us t bulks
                      (omega (arith, whole, small)) rest' (omega arith) (omega arith) (omega arith))
            ])
    ]
