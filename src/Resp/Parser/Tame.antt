-- ===== src/Resp/Parser/Tame.antt =====
-- Which texts `RespCommandParser::parse` of resp.cpp neither parses nor rejects with an `Error`.
use vector_engine.Common.{
  ℕ, zero, suc, ◌+◌, ◌-◌, ◌%◌, ◌<◌, ◌≤◌, ◌≡◌, sym, ap, ◌∙◌, ◌⊎◌, inl, inr, List, [], ◌∷◌, ◌++◌,
  append_assoc, Option, none, some, arith, Bytes, length, length-drop, take, drop, ltb, ltb-false,
  Bool-cases, ◌==◌,
}
use vector_engine.Errors.{Outcome, ok, IsTame, or_break, TameOr-bind, TameOr-next}
use vector_engine.Decimal.{size_mod}
use vector_engine.Resp.Command.{RespCommand, star, dollar}
use vector_engine.Resp.Format.{IsHeader}
use vector_engine.Resp.Parser.{
  parse_num, end_of_argv, read_argv, parse_argv, Args, push_arg, parse_args, read_args,
  read_command, parse_command, parse_loop, parse,
}
use vector_engine.Resp.Parser.Argument.{parse_num_sound, parse_argv_sound}
use vector_engine.Resp.Parser.Sound.{parse_command_sound}
use vector_engine.Resp.Parser.Total.{parse_num-IsTame, parse_argv_shrinks, parse_command_shrinks}

module _ (reserve_limit : ℕ) where
  -- A header that declares a length of 2^64 - 2 or more, or more arguments than `reserve` grants.
  abbrev pub IsTrap : ℕ → Bytes → Type 0
  IsTrap n p =
      (IsHeader dollar n p × (size_mod ≤ n + 2)) ⊎ (IsHeader star n p × (reserve_limit + 1 < n))

  -- Such a header stands somewhere in the text.
  pub record HasTrap (text : Bytes) : Type 0 where
    pub before : Bytes
    pub header : Bytes
    pub behind : Bytes
    pub number : ℕ
    pub split : text ≡ before ++ (header ++ behind)
    pub trap : IsTrap number header

  pub HasTrap-behind : (u v text : Bytes) → text ≡ u ++ v → HasTrap v → HasTrap text
  HasTrap-behind u v text e t = record {
    before = u ++ t.before;
    header = t.header;
    behind = t.behind;
    number = t.number;
    split = e ∙ ap (λ w. u ++ w) t.split ∙ sym (append_assoc u t.before (t.header ++ t.behind));
    trap = t.trap;
  }

  -- A call that is tame unless there is a trap behind `p`.
  behind {ℓ} :
      {A : Type ℓ} (m : Outcome A) (p rest text : Bytes)
      → text ≡ p ++ rest
      → IsTame m ⊎ HasTrap rest
      → IsTame m ⊎ HasTrap text
  behind m p rest text cut (inl tame) = inl tame
  behind m p rest text cut (inr trap) = inr (HasTrap-behind p rest text cut trap)

  end_of_argv-IsTame : (s t : Bytes) → 2 ≤ length t → IsTame (end_of_argv s t)
  unfolding end_of_argv
  end_of_argv-IsTame s [] h = absurd (omega arith)
  end_of_argv-IsTame s (a ∷ []) h = absurd (omega arith)
  end_of_argv-IsTame s (a ∷ b ∷ t) h = ground arith

  read_argv-IsTame : (len : ℕ) (rest : Bytes) → len + 2 < size_mod → IsTame (read_argv (len, rest))
  unfolding read_argv
  read_argv-IsTame len rest small = elim (Bool-cases (ltb (length rest) ((len + 2) % size_mod))) [
    | inl short ↦ rw short tt
    | inr enough ↦
        let fits : (len + 2) % size_mod ≤ length rest = ground arith in
        rw enough (
          end_of_argv-IsTame (take len rest) (drop len rest)
            (omega (arith, length-drop len rest, fits, small)))
  ]

  parse_argv_tame : (buffer : Bytes) → IsTame (parse_argv buffer) ⊎ HasTrap buffer
  unfolding parse_argv
  parse_argv_tame buffer =
      TameOr-next (HasTrap buffer) (parse_num dollar buffer) read_argv
        (inl (parse_num-IsTame dollar buffer)) read
    where
      read :
          (o : ℕ × Bytes)
          → parse_num dollar buffer ≡ ok (some o)
          → IsTame (read_argv o) ⊎ HasTrap buffer
      read (len, rest) e =
          let (p, head, cut) = parse_num_sound dollar buffer e in
          elim (Bool-cases (ltb (len + 2) size_mod)) [
            | inl small ↦ inl (read_argv-IsTame len rest (ground (arith, small)))
            | inr wraps ↦ inr (record {
              before = [];
              header = p;
              behind = rest;
              number = len;
              split = cut;
              trap = inl (head, ground (arith, wraps));
            })
          ]

  next_arg_tame :
      (fuel n : ℕ) (a : Args)
      → length a.buffer < suc fuel
      → ((b : Args) → length b.buffer < fuel → IsTame (parse_args fuel n b) ⊎ HasTrap b.buffer)
      → (o : Option (Bytes × Bytes)) → parse_argv a.buffer ≡ ok o
      → IsTame (or_break (ok a) (λ p. parse_args fuel n (push_arg a p)) o) ⊎ HasTrap a.buffer
  unfolding push_arg
  next_arg_tame fuel n a enough ih none e = inl tt
  next_arg_tame fuel n a enough ih (some (s, rest)) e =
      let (p, _, cut) = parse_argv_sound a.buffer e in
      behind _ p rest a.buffer cut
        (ih (push_arg a (s, rest)) (omega (arith, enough, parse_argv_shrinks a.buffer e)))

  parse_args_tame :
      (fuel n : ℕ) (a : Args)
      → length a.buffer < fuel
      → IsTame (parse_args fuel n a) ⊎ HasTrap a.buffer
  unfolding parse_args
  parse_args_tame zero n a enough = absurd (omega arith)
  parse_args_tame (suc fuel) n a enough = elim (Bool-cases (a.idx == n)) [
    | inl done ↦ rw done (inl tt)
    | inr more ↦ rw more (
        TameOr-bind (HasTrap a.buffer) (parse_argv a.buffer) _ (parse_argv_tame a.buffer)
          (next_arg_tame fuel n a enough (parse_args_tame fuel n)))
  ]

  read_args_tame :
      (n : ℕ) (name buffer : Bytes)
      → n ≤ reserve_limit
      → IsTame (read_args reserve_limit n (name, buffer)) ⊎ HasTrap buffer
  unfolding read_args
  read_args_tame n name buffer granted = rw (ltb-false reserve_limit n granted) (
      TameOr-bind (HasTrap buffer) (parse_args (suc (length buffer)) n _) _
        (parse_args_tame (suc (length buffer)) n _ (omega arith)) (λ a e. inl tt))

  read_command_tame :
      (argc : ℕ) (buffer : Bytes)
      → argc ≤ reserve_limit + 1
      → IsTame (read_command reserve_limit (argc, buffer)) ⊎ HasTrap buffer
  unfolding read_command
  read_command_tame argc buffer granted = elim (Bool-cases (argc == 0)) [
    | inl no_args ↦ rw no_args (inl tt)
    | inr args ↦ rw args (
        TameOr-next (HasTrap buffer) (parse_argv buffer) (read_args reserve_limit (argc - 1))
          (parse_argv_tame buffer) next)
  ]
    where
      next :
          (o : Bytes × Bytes)
          → parse_argv buffer ≡ ok (some o)
          → IsTame (read_args reserve_limit (argc - 1) o) ⊎ HasTrap buffer
      next (name, rest) e =
          let (p, _, cut) = parse_argv_sound buffer e in
          behind _ p rest buffer cut (read_args_tame (argc - 1) name rest (omega (arith, granted)))

  parse_command_tame :
      (buffer : Bytes) → IsTame (parse_command reserve_limit buffer) ⊎ HasTrap buffer
  unfolding parse_command
  parse_command_tame buffer =
      TameOr-next (HasTrap buffer) (parse_num star buffer) (read_command reserve_limit)
        (inl (parse_num-IsTame star buffer)) next
    where
      next :
          (o : ℕ × Bytes)
          → parse_num star buffer ≡ ok (some o)
          → IsTame (read_command reserve_limit o) ⊎ HasTrap buffer
      next (argc, rest) e =
          let (p, head, cut) = parse_num_sound star buffer e in
          elim (Bool-cases (ltb (reserve_limit + 1) argc)) [
            | inl over ↦ inr (record {
              before = [];
              header = p;
              behind = rest;
              number = argc;
              split = cut;
              trap = inr (head, ground (arith, over));
            })
            | inr granted ↦
                behind _ p rest buffer cut (read_command_tame argc rest (ground (arith, granted)))
          ]

  next_command_tame :
      (fuel size : ℕ) (buffer : Bytes) (cmds : List RespCommand) (n : ℕ)
      → length buffer < suc fuel
      → ((rest : Bytes) (cs : List RespCommand) (m : ℕ)
          → length rest < fuel
          → IsTame (parse_loop reserve_limit fuel size rest cs m) ⊎ HasTrap rest)
      → (o : Option (RespCommand × Bytes)) → parse_command reserve_limit buffer ≡ ok o
      → IsTame (
          or_break
            (ok (cmds, n))
            (λ (c, rest).
              parse_loop reserve_limit fuel size rest (cmds ++ c ∷ []) (size - length rest))
            o)
        ⊎ HasTrap buffer
  next_command_tame fuel size buffer cmds n enough ih none e = inl tt
  next_command_tame fuel size buffer cmds n enough ih (some (c, rest)) e =
      let (p, _, cut, _, _) = parse_command_sound reserve_limit buffer e in
      behind _ p rest buffer cut (
        ih rest (cmds ++ c ∷ []) (size - length rest)
          (omega (arith, enough, parse_command_shrinks reserve_limit buffer e)))

  parse_loop_tame :
      (fuel size : ℕ) (buffer : Bytes) (cmds : List RespCommand) (n : ℕ)
      → length buffer < fuel
      → IsTame (parse_loop reserve_limit fuel size buffer cmds n) ⊎ HasTrap buffer
  unfolding parse_loop
  parse_loop_tame zero size buffer cmds n enough = absurd (omega arith)
  parse_loop_tame (suc fuel) size buffer cmds n enough =
      TameOr-bind (HasTrap buffer) (parse_command reserve_limit buffer) _
        (parse_command_tame buffer)
        (next_command_tame fuel size buffer cmds n enough (parse_loop_tame fuel size))

  -- Whatever bytes a client has sent, `RespCommandParser::parse` returns or throws an `Error`,
  -- unless somewhere in them stands a header that declares an argument of 2^64 - 2 bytes or more,
  -- or more arguments than `reserve` grants: no other input makes it read out of bounds or throw
  -- anything else.
  pub parse_tame : (buffer : Bytes) → IsTame (parse reserve_limit buffer) ⊎ HasTrap buffer
  unfolding parse
  parse_tame buffer =
      parse_loop_tame (suc (length buffer)) (length buffer) buffer [] 0 (omega arith)
