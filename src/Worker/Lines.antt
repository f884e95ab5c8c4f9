-- ===== src/Worker/Lines.antt =====
-- The answers of ping_task.cpp and unknown_task.cpp, as a client reads them: line by line.
use vector_engine.Common.{
  ℕ, ◌≡◌, ◌≢◌, refl, sym, ap, ◌∙◌, List, [], ◌∷◌, ◌++◌, append-nil, append_assoc, map, Bytes, All,
  All-append, codes, Option, none, some, ◌==◌, ◌&&◌, ==_false, ==_ne, Bool, true, false,
  if◌then◌else◌, Bool-cases, inl, inr,
}
use vector_engine.Str.{to_lower, bytes_eq}
use vector_engine.Str.Affix.{bytes_eq→eq, bytes_eq_self}
use vector_engine.Resp.Command.{RespCommand, cr, lf, crlf}
use vector_engine.Task.{TaskOutput, run, create}
use vector_engine.Task.Reply.{answer_of_command}
use vector_engine.Protocol.{build, resp_response_builder}
use vector_engine.Worker.Answers.{answers}

abbrev put_in_front : ℕ → Option (Bytes × Bytes) → Option (Bytes × Bytes)
put_in_front a none = none
put_in_front a (some (line, rest)) = some (a ∷ line, rest)

-- The bytes up to the first CR LF, and those behind it.
abbrev pub first_line : Bytes → Option (Bytes × Bytes)
first_line [] = none
first_line (a ∷ []) = none
first_line (a ∷ b ∷ t) =
    if a == cr && b == lf then some ([], t) else put_in_front a (first_line (b ∷ t))

-- The lines of a text are these.
abbrev pub IsLines : List Bytes → Bytes → Type 0
IsLines [] text = text ≡ []
IsLines (line ∷ lines) text =
    (rest : Bytes) × (first_line text ≡ some (line, rest)) × IsLines lines rest

-- No byte is a CR.
abbrev pub IsPlain : Bytes → Type 0
IsPlain = All (λ b. b ≢ cr)

first_line-crlf :
    (line t : Bytes) → IsPlain line → first_line (line ++ (crlf ++ t)) ≡ some (line, t)
first_line-crlf [] t plain = refl
first_line-crlf (a ∷ []) t (ne, plain) = rw (==_false a cr ne) (refl)
first_line-crlf (a ∷ b ∷ line) t (ne, plain) =
    rw (==_false a cr ne, first_line-crlf (b ∷ line) t plain) refl

-- The same as a test.
abbrev is_plain : Bytes → Bool
is_plain [] = true
is_plain (a ∷ t) = if a == cr then false else is_plain t

pub is_plain-IsPlain : (t : Bytes) → is_plain t ≡ true → IsPlain t
is_plain-IsPlain [] e = tt
is_plain-IsPlain (a ∷ t) e = elim (Bool-cases (a == cr)) [
  | inl same ↦ let e' : false ≡ true = rw same at e in cc
  | inr other ↦ (==_ne a cr other, is_plain-IsPlain t (rw other at e))
]

-- The line of the answer to a command.
abbrev pub answer_line : RespCommand → Bytes
answer_line c =
    if bytes_eq (codes "ping") (to_lower c.name)
    then codes "+PONG"
    else codes "-unknown command: " ++ c.name

IsPlain-answer_line : (c : RespCommand) → IsPlain c.name → IsPlain (answer_line c)
IsPlain-answer_line c plain = elim (Bool-cases (bytes_eq (codes "ping") (to_lower c.name))) [
  | inl same ↦ rw same (is_plain-IsPlain (codes "+PONG") refl)
  | inr other ↦ rw other (
      All-append (λ b. b ≢ cr) (codes "-unknown command: ") c.name
        (is_plain-IsPlain (codes "-unknown command: ") refl) plain)
]

module _ (to_mcp_reply : TaskOutput → Bytes) where
  answer-answer_line :
      (c : RespCommand)
      → build to_mcp_reply resp_response_builder (run (create c)) ≡ answer_line c ++ crlf
  unfolding build
  answer-answer_line c = elim (Bool-cases (bytes_eq (codes "ping") (to_lower c.name))) [
    | inl same ↦
        rw same ((answer_of_command c).0 (sym (bytes_eq→eq (codes "ping") (to_lower c.name) same)))
    | inr other ↦ rw other (
        (answer_of_command c).1 (λ e. let self = bytes_eq_self (codes "ping") in cc)
        ∙ sym (append_assoc (codes "-unknown command: ") c.name crlf))
  ]

  -- If no byte of their names is a CR, the answers to RESP commands are as many lines, one for
  -- each in order: PONG if the name is "ping" in any case of its letters, and otherwise an error
  -- with the name as the client sent it.
  pub answers-IsLines :
      (cs : List RespCommand)
      → All (λ c. IsPlain c.name) cs
      → IsLines (map answer_line cs) (answers to_mcp_reply resp_response_builder (map create cs))
  answers-IsLines [] tt = refl
  answers-IsLines (c ∷ cs) (plain, more) =
      let later = answers to_mcp_reply resp_response_builder (map create cs) in
      (
        later,
        ap (λ t. first_line (t ++ later)) (answer-answer_line c)
            ∙ ap first_line (append_assoc (answer_line c) crlf later)
            ∙ first_line-crlf (answer_line c) later (IsPlain-answer_line c plain),
        answers-IsLines cs more,
      )

  -- The answer to an unknown command whose name holds a CR LF with no CR before it ends its line
  -- there; the rest of the name begins a line of its own.
  pub unknown_adds_line :
      (c : RespCommand) (a b : Bytes)
      → IsPlain a
      → to_lower c.name ≢ codes "ping"
      → c.name ≡ a ++ (crlf ++ b)
      → first_line (answers to_mcp_reply resp_response_builder (create c ∷ []))
        ≡ some (codes "-unknown command: " ++ a, b ++ crlf)
  unfolding build
  unknown_adds_line c a b plain unknown named =
      ap first_line (
        append-nil _
        ∙ (answer_of_command c).1 unknown
        ∙ ap (λ t. codes "-unknown command: " ++ (t ++ crlf)) named
        ∙ ap (λ t. codes "-unknown command: " ++ t) (append_assoc a (crlf ++ b) crlf)
        ∙ sym (append_assoc (codes "-unknown command: ") a (crlf ++ (b ++ crlf))))
      ∙ first_line-crlf (codes "-unknown command: " ++ a) (b ++ crlf) (
          All-append (λ x. x ≢ cr) (codes "-unknown command: ") a
            (is_plain-IsPlain (codes "-unknown command: ") refl) plain)
