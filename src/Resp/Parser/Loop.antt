-- ===== src/Resp/Parser/Loop.antt =====
-- The loop of `RespCommandParser::parse` (resp.cpp), a command at a time.
use vector_engine.Common.{
  ℕ, zero, suc, ◌+◌, ◌-◌, ◌^◌, ◌≤◌, ◌<◌, ◌≡◌, refl, ap, sym, ◌∙◌, List, [], ◌∷◌, ◌++◌, append-nil,
  append_assoc, Option, none, some, arith, Bytes, length,
}
use vector_engine.Errors.{
  Outcome, ok, throws, undefined, diverges, ◌>>=◌, or_break, >>=_congr, >>=_assoc,
}
use vector_engine.Resp.Command.{RespCommand}
use vector_engine.Resp.Parser.{parse_command, parse_loop, parse}
use vector_engine.Resp.Parser.Total.{parse_command_shrinks}

-- The result of a parse behind `cmds`, which took `n` bytes.
abbrev pub behind : List RespCommand → ℕ → List RespCommand × ℕ → Outcome (List RespCommand × ℕ)
behind cmds n (ds, m) = ok (cmds ++ ds, n + m)

-- The two limits of the code on the number of arguments.
abbrev pub IsGranted : ℕ → RespCommand → Type 0
IsGranted reserve_limit c = (length c.args < 2 ^ 32) × (length c.args ≤ reserve_limit)

module _ (reserve_limit : ℕ) where
  -- More fuel than bytes makes no difference.
  parse_loop_fuel :
      (f g size : ℕ) (buffer : Bytes) (cmds : List RespCommand) (n : ℕ)
      → length buffer < f
      → length buffer < g
      → parse_loop reserve_limit f size buffer cmds n
        ≡ parse_loop reserve_limit g size buffer cmds n
  unfolding parse_loop
  parse_loop_fuel zero g size buffer cmds n hf hg = absurd (omega arith)
  parse_loop_fuel (suc f) zero size buffer cmds n hf hg = absurd (omega arith)
  parse_loop_fuel (suc f) (suc g) size buffer cmds n hf hg =
      >>=_congr (parse_command reserve_limit buffer) (next (parse_loop_fuel f g size))
    where
      next :
          ((rest : Bytes) (cs : List RespCommand) (m : ℕ)
            → length rest < f
            → length rest < g
            → parse_loop reserve_limit f size rest cs m ≡ parse_loop reserve_limit g size rest cs m)
          → (o : Option (RespCommand × Bytes)) → parse_command reserve_limit buffer ≡ ok o
          → or_break
              (ok (cmds, n))
              (λ (c, rest).
                parse_loop reserve_limit f size rest (cmds ++ c ∷ []) (size - length rest))
              o
            ≡ or_break
                (ok (cmds, n))
                (λ (c, rest).
                  parse_loop reserve_limit g size rest (cmds ++ c ∷ []) (size - length rest))
                o
      next ih none e = refl
      next ih (some (c, rest)) e =
          ih rest (cmds ++ c ∷ []) (size - length rest)
            (omega (arith, parse_command_shrinks reserve_limit buffer e))
            (omega (arith, parse_command_shrinks reserve_limit buffer e))

  pub behind-behind :
      (m : Outcome (List RespCommand × ℕ)) (cs ds : List RespCommand) (i j k : ℕ)
      → i ≡ j + k
      → (m >>= behind (cs ++ ds) i) ≡ (m >>= behind ds k >>= behind cs j)
  behind-behind (ok (es, l)) cs ds i j k e = ground (arith, append_assoc cs ds es)
  behind-behind (throws x) cs ds i j k e = refl
  behind-behind undefined cs ds i j k e = refl
  behind-behind diverges cs ds i j k e = refl

  -- What the loop has done before only stands in front of its result.
  parse_loop-behind :
      (f size : ℕ) (buffer : Bytes) (cmds : List RespCommand)
      → length buffer ≤ size
      → parse_loop reserve_limit f size buffer cmds (size - length buffer) ≡ (
          parse_loop reserve_limit f (length buffer) buffer [] 0
          >>= behind cmds (size - length buffer))
  unfolding parse_loop
  parse_loop-behind zero size buffer cmds h = refl
  parse_loop-behind (suc f) size buffer cmds h =
      >>=_congr (parse_command reserve_limit buffer) (next (parse_loop-behind f))
      ∙ sym (>>=_assoc (parse_command reserve_limit buffer) _ _)
    where
      next :
          ((k : ℕ) (rest : Bytes) (cs : List RespCommand)
            → length rest ≤ k
            → parse_loop reserve_limit f k rest cs (k - length rest) ≡ (
                parse_loop reserve_limit f (length rest) rest [] 0 >>= behind cs (k - length rest)))
          → (o : Option (RespCommand × Bytes)) → parse_command reserve_limit buffer ≡ ok o
          → or_break
              (ok (cmds, size - length buffer))
              (λ (c, rest).
                parse_loop reserve_limit f size rest (cmds ++ c ∷ []) (size - length rest))
              o
            ≡ (or_break
                  (ok ([], 0))
                  (λ (c, rest).
                    parse_loop reserve_limit f
                      (length buffer)
                      rest
                      (c ∷ [])
                      (length buffer - length rest))
                  o
                >>= behind cmds (size - length buffer))
      next ih none e = ground (arith, append-nil cmds)
      next ih (some (c, rest)) e =
          let less = parse_command_shrinks reserve_limit buffer e in
          rw
            (
              ih size rest (cmds ++ c ∷ []) (omega (arith, less)),
              ih (length buffer) rest (c ∷ []) (omega (arith, less)),
            )
            (behind-behind (parse_loop reserve_limit f (length rest) rest [] 0) cmds (c ∷ [])
              (size - length rest) (size - length buffer) (length buffer - length rest)
              (omega (arith, less)))

  -- One round: the first command, then the parse of the bytes behind it.
  pub parse_step :
      (buffer : Bytes) {c : RespCommand} {rest : Bytes}
      → parse_command reserve_limit buffer ≡ ok (some (c, rest))
      → parse reserve_limit buffer
        ≡ (parse reserve_limit rest >>= behind (c ∷ []) (length buffer - length rest))
  unfolding parse
  parse_step buffer {c} {rest} e =
      let less = parse_command_shrinks reserve_limit buffer e in
      rw (e, parse_loop)
        (parse_loop-behind (length buffer) (length buffer) rest (c ∷ []) (omega (arith, less))
          ∙ ap (λ m. m >>= behind (c ∷ []) (length buffer - length rest))
              (parse_loop_fuel (length buffer) (suc (length rest)) (length rest) rest [] 0
                (omega (arith, less)) (omega arith)))

  -- A text that begins with no complete request yields nothing.
  pub parse_stop :
      (buffer : Bytes)
      → parse_command reserve_limit buffer ≡ ok none
      → parse reserve_limit buffer ≡ ok ([], 0)
  unfolding parse
  parse_stop buffer e = rw (e, parse_loop)

  pub behind-nil : (m : Outcome (List RespCommand × ℕ)) → (m >>= behind [] 0) ≡ m
  behind-nil (ok (ds, n)) = ground arith
  behind-nil (throws x) = refl
  behind-nil undefined = refl
  behind-nil diverges = refl
