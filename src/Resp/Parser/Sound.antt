-- ===== src/Resp/Parser/Sound.antt =====
-- `RespCommandParser` of resp.cpp on texts that it accepts.
use vector_engine.Common.{
  ℕ, zero, suc, ◌+◌, ◌-◌, ◌%◌, ◌^◌, ◌≤◌, ◌<◌, ◌≡◌, ◌≢◌, refl, ap, sym, subst, subst₂, ◌∙◌, inl, inr,
  List, [], ◌∷◌, ◌++◌, append-nil, append_assoc, none, some, arith, Bytes, length, ◌==◌, ltb,
  Bool-cases, Option,
}
use vector_engine.Errors.{ok, or_break, >>=-eq-ok, >>?-eq-some}
use vector_engine.Resp.Command.{RespCommand, star}
use vector_engine.Resp.Format.{IsHeader, IsBulk, IsBulks, IsRequest}
use vector_engine.Resp.Parser.{
  parse_num, parse_argv, Args, push_arg, parse_args, finish_command, read_args, read_command,
  parse_command,
}
use vector_engine.Resp.Parser.Argument.{parse_num_sound, parse_argv_sound}

-- What the loop over the arguments took from the text between two of its states.
pub record Took (n : ℕ) (a b : Args) : Type 0 where
  pub news : List Bytes
  pub text : Bytes
  pub bulks : IsBulks news text
  pub appended : b.args ≡ a.args ++ news
  pub cut : a.buffer ≡ text ++ b.buffer
  pub small : a.idx < 2 ^ 32 → b.idx < 2 ^ 32
  pub counted : n < 2 ^ 32 → a.idx ≤ n → (b.idx ≡ a.idx + length news) × (b.idx ≤ n)

Took-none : (n : ℕ) (a : Args) → Took n a a
Took-none n a = record {
  news = [];
  text = [];
  bulks = refl;
  appended = sym (append-nil a.args);
  cut = refl;
  small = λ h. h;
  counted = λ h k. (omega arith, k);
}

Took-more :
    (n : ℕ) (a b : Args) (s rest p : Bytes)
    → a.idx ≢ n
    → IsBulk s p
    → a.buffer ≡ p ++ rest
    → Took n (record { idx = (a.idx + 1) % 2 ^ 32; args = a.args ++ s ∷ []; buffer = rest }) b
    → Took n a b
Took-more n a b s rest p ne bulk cut t = record {
  news = s ∷ t.news;
  text = p ++ t.text;
  bulks = (p, t.text, bulk, t.bulks, refl);
  appended = t.appended ∙ append_assoc a.args (s ∷ []) t.news;
  cut = cut ∙ ap (◌++◌ p) t.cut ∙ sym (append_assoc p t.text b.buffer);
  small = λ h. t.small (omega arith);
  counted = λ h k. omega (arith, t.counted h (omega arith));
}

parse_args-Took_next :
    (fuel n : ℕ) (a : Args) {b : Args} (o : Option (Bytes × Bytes))
    → ((c : Args) → parse_args fuel n c ≡ ok b → Took n c b)
    → a.idx ≢ n
    → parse_argv a.buffer ≡ ok o
    → or_break (ok a) (λ p. parse_args fuel n (push_arg a p)) o ≡ ok b
    → Took n a b
unfolding push_arg
parse_args-Took_next fuel n a none ih ne e h = subst (Took n a) (cc) (Took-none n a)
parse_args-Took_next fuel n a {b} (some (s, rest)) ih ne e h =
    let (p, bulk, cut) = parse_argv_sound a.buffer e in
    Took-more n a b s rest p ne bulk cut (ih _ h)

pub parse_args-Took : (fuel n : ℕ) (a : Args) {b : Args} → parse_args fuel n a ≡ ok b → Took n a b
unfolding parse_args
parse_args-Took zero n a h = cc
parse_args-Took (suc fuel) n a {b} h = elim (Bool-cases (a.idx == n)) [
  | inl done ↦ subst (Took n a) (ground arith) (Took-none n a)
  | inr more ↦
      let (o, e, k) = >>=-eq-ok (parse_argv a.buffer) _ (rw more at h) in
      parse_args-Took_next fuel n a o (λ c. parse_args-Took fuel n c) (ground arith) e k
]

finish_command-eq-some :
    (n : ℕ) (name : Bytes) (a : Args) {c : RespCommand} {rest : Bytes}
    → finish_command n name a ≡ some (c, rest)
    → (c ≡ record { name = name; args = a.args }) × (rest ≡ a.buffer) × (n ≤ a.idx)
unfolding finish_command
finish_command-eq-some n name a h = (ground arith, ground arith, ground arith)

-- What `parse` accepted of the arguments behind the name.
record Rest (reserve_limit n : ℕ) (name buffer : Bytes) (c : RespCommand) (rest : Bytes)
    : Type 0 where
  text : Bytes
  bulks : IsBulks c.args text
  same_name : c.name ≡ name
  cut : buffer ≡ text ++ rest
  count : length c.args ≡ n
  few : n < 2 ^ 32
  granted : n ≤ reserve_limit

Took-Rest :
    (reserve_limit n : ℕ) (name buffer : Bytes) (a : Args)
    → n ≤ reserve_limit
    → n ≤ a.idx
    → Took n (record { idx = 0; args = []; buffer = buffer }) a
    → Rest reserve_limit n name buffer (record { name = name; args = a.args }) a.buffer
Took-Rest reserve_limit n name buffer a within reached t = record {
  text = t.text;
  bulks = rw t.appended t.bulks;
  same_name = refl;
  cut = t.cut;
  count = rw t.appended (
      omega (
        arith,
        t.small (omega arith),
        t.counted (omega (arith, t.small (omega arith))) (omega arith),
      ));
  few = omega (arith, t.small (omega arith));
  granted = within;
}

read_args-Rest :
    (reserve_limit n : ℕ) (name buffer : Bytes) {c : RespCommand} {rest : Bytes}
    → read_args reserve_limit n (name, buffer) ≡ ok (some (c, rest))
    → Rest reserve_limit n name buffer c rest
unfolding read_args
read_args-Rest reserve_limit n name buffer {c} {rest} h = elim (Bool-cases (ltb reserve_limit n)) [
  | inl over ↦ absurd (ground arith)
  | inr within ↦
      let start : Args = record { idx = 0; args = []; buffer = buffer } in
      let (a, e, k) = >>=-eq-ok (parse_args (suc (length buffer)) n start) _ (rw within at h) in
      let (same, left, reached) =
        finish_command-eq-some n name a {c = c} {rest = rest} (ground arith) in
      subst₂ (λ d s. Rest reserve_limit n name buffer d s) (sym same) (sym left)
        (Took-Rest reserve_limit n name buffer a (ground arith) reached
          (parse_args-Took (suc (length buffer)) n start e))
]

read_command-eq-some :
    (reserve_limit argc : ℕ) (t : Bytes) {c : RespCommand} {rest : Bytes}
    → read_command reserve_limit (argc, t) ≡ ok (some (c, rest))
    → (argc ≢ 0)
      × ((p : Bytes × Bytes) × (parse_argv t ≡ ok (some p))
          × (read_args reserve_limit (argc - 1) p ≡ ok (some (c, rest))))
unfolding read_command
read_command-eq-some reserve_limit argc t h = elim (Bool-cases (argc == 0)) [
  | inl no_args ↦ absurd (ground arith)
  | inr args ↦
      (ground arith, >>?-eq-some (parse_argv t) (read_args reserve_limit (argc - 1)) (rw args at h))
]

IsRequest_of_parts :
    (reserve_limit argc : ℕ) (name buffer t u p q : Bytes) (c : RespCommand) (rest : Bytes)
    → argc ≢ 0
    → IsHeader star argc p
    → buffer ≡ p ++ t
    → IsBulk name q
    → t ≡ q ++ u
    → (r : Rest reserve_limit (argc - 1) name u c rest)
    → IsRequest c (p ++ (q ++ r.text)) × (buffer ≡ (p ++ (q ++ r.text)) ++ rest)
IsRequest_of_parts reserve_limit argc name buffer t u p q c rest nonzero head cut bulk cut' r = (
  record {
    header = p;
    body = q ++ r.text;
    counted = subst (λ n. IsHeader star n p) (omega (arith, r.count)) head;
    bulks = (q, r.text, subst (λ s. IsBulk s q) (sym r.same_name) bulk, r.bulks, refl);
    whole = refl;
  },
  cut ∙ ap (◌++◌ p) (cut' ∙ ap (◌++◌ q) r.cut) ∙ simp append_assoc,
)

-- A command that one round of `parse` reads stands in the request format at the front of the
-- text, and has passed the two limits on its arguments.
pub parse_command_sound :
    (reserve_limit : ℕ) (buffer : Bytes) {c : RespCommand} {rest : Bytes}
    → parse_command reserve_limit buffer ≡ ok (some (c, rest))
    → (p : Bytes) × IsRequest c p
      × (buffer ≡ p ++ rest)
      × (length c.args < 2 ^ 32)
      × (length c.args ≤ reserve_limit)
unfolding parse_command
parse_command_sound reserve_limit buffer {c} {rest} h =
    let ((argc, t), e, k) = >>?-eq-some (parse_num star buffer) (read_command reserve_limit) h in
    let (p, head, cut) = parse_num_sound star buffer e in
    let (nonzero, ((name, u), e', k')) = read_command-eq-some reserve_limit argc t k in
    let (q, bulk, cut') = parse_argv_sound t e' in
    let r = read_args-Rest reserve_limit (argc - 1) name u k' in
    let (request, whole) =
      IsRequest_of_parts reserve_limit argc name buffer t u p q c rest nonzero head cut bulk cut'
        r in
    (p ++ (q ++ r.text), request, whole, rw (← r.count) at r.few, rw (← r.count) at r.granted)
