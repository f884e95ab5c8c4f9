-- ===== src/Resp/Parser/Stream.antt =====
-- `RespCommandParser::parse` (resp.cpp) on a whole text, and on a text that arrives in parts.
use mathlib.Core.List.{cons-ne-nil}
use vector_engine.Common.{
  ℕ, zero, suc, ◌+◌, ◌-◌, ◌≤◌, ◌<◌, ◌≡◌, ◌≢◌, refl, ap, sym, subst₂, ◌∙◌, List, [], ◌∷◌, ◌++◌,
  append_assoc, Option, none, some, arith, Bytes, All, length, length-append, drop,
  drop-length-append,
}
use vector_engine.Errors.{
  Outcome, ok, throws, undefined, diverges, ◌>>=◌, Exception, ok_pair-injective, >>=-eq-ok,
}
use vector_engine.Resp.Command.{RespCommand}
use vector_engine.Resp.Format.{IsRequest, IsRequests}
use vector_engine.Resp.Parser.{parse_num, parse_command, parse_loop, parse}
use vector_engine.Resp.Parser.Sound.{parse_command_sound}
use vector_engine.Resp.Parser.Complete.{parse_command-append}
use vector_engine.Resp.Parser.Total.{parse_command_shrinks, parse_command-ne-diverges}
use vector_engine.Resp.Parser.Loop.{
  behind-behind, parse_step, behind-nil, behind, IsGranted, parse_stop,
}

module _ (reserve_limit : ℕ) where
  -- Requests in the request format, within the limits on their arguments, in front of any text
  -- are parsed first, each whole and in order, and then the text is parsed as it would be alone.
  pub parse-append :
      (cs : List RespCommand) (p rest : Bytes)
      → IsRequests cs p
      → All (IsGranted reserve_limit) cs
      → parse reserve_limit (p ++ rest) ≡ (parse reserve_limit rest >>= behind cs (length p))
  parse-append [] p rest e _ = rw e (sym (behind-nil reserve_limit (parse reserve_limit rest)))
  parse-append (c ∷ cs) p rest (h, t, r, rs, e) ((few, fits), all) =
      rw
        (
          e,
          append_assoc h t rest,
          parse_step reserve_limit (h ++ (t ++ rest))
              (parse_command-append reserve_limit c h (t ++ rest) r few fits),
          parse-append cs t rest rs all,
        )
        (sym (
          behind-behind reserve_limit (parse reserve_limit rest) (c ∷ []) cs (length (h ++ t))
            (length (h ++ (t ++ rest)) - length (t ++ rest)) (length t)
            (omega (arith, length-append h t, length-append h (t ++ rest)))))

  -- What `parse` returns: requests in the format, in order, up to the bytes that begin no
  -- complete request.
  pub record Parsed (buffer : Bytes) (cs : List RespCommand) (n : ℕ) : Type 0 where
    pub text : Bytes
    pub rest : Bytes
    pub requests : IsRequests cs text
    pub granted : All (IsGranted reserve_limit) cs
    pub whole : buffer ≡ text ++ rest
    pub taken : length text ≡ n
    pub left : parse_command reserve_limit rest ≡ ok none
    pub no_more :
        (c : RespCommand) (p behind_it : Bytes)
        → IsRequest c p
        → IsGranted reserve_limit c
        → rest ≢ p ++ behind_it

  Parsed-cons :
      (buffer : Bytes) (c : RespCommand) (r : Bytes) (ds : List RespCommand) (m : ℕ)
      → parse_command reserve_limit buffer ≡ ok (some (c, r))
      → Parsed r ds m
      → Parsed buffer (c ∷ ds) (length buffer - length r + m)
  Parsed-cons buffer c r ds m e t =
      let (p, request, cut, few, fits) = parse_command_sound reserve_limit buffer e in
      record {
        text = p ++ t.text;
        rest = t.rest;
        requests = (p, t.text, request, t.requests, refl);
        granted = ((few, fits), t.granted);
        whole = cut ∙ ap (◌++◌ p) t.whole ∙ sym (append_assoc p t.text t.rest);
        taken = omega (arith, length-append p t.text, t.taken, ap length cut, length-append p r);
        left = t.left;
        no_more = t.no_more;
      }

  Parsed-nil : (buffer : Bytes) → parse_command reserve_limit buffer ≡ ok none → Parsed buffer [] 0
  Parsed-nil buffer e = record {
    text = [];
    rest = buffer;
    requests = refl;
    granted = tt;
    whole = refl;
    taken = refl;
    left = e;
    no_more = λ c p behind_it request granted same.
        let (few, fits) = granted in
        let found =
          ap (parse_command reserve_limit) same
          ∙ parse_command-append reserve_limit c p behind_it request few fits in
        absurd (cc (sym e ∙ found));
  }

  -- A round that throws makes `parse` throw.
  pub parse_throws :
      (buffer : Bytes) (x : Exception)
      → parse_command reserve_limit buffer ≡ throws x
      → parse reserve_limit buffer ≡ throws x
  unfolding parse
  parse_throws buffer x e = rw (e, parse_loop)

  pub parse_undefined :
      (buffer : Bytes)
      → parse_command reserve_limit buffer ≡ undefined
      → parse reserve_limit buffer ≡ undefined
  unfolding parse
  parse_undefined buffer e = rw (e, parse_loop)

  parse_command-Parsed :
      (buffer : Bytes) {cs : List RespCommand} {n : ℕ} (o : Outcome (Option (RespCommand × Bytes)))
      → ((r : Bytes) (ds : List RespCommand) (m : ℕ)
          → length r < length buffer
          → parse reserve_limit r ≡ ok (ds, m)
          → Parsed r ds m)
      → parse_command reserve_limit buffer ≡ o
      → parse reserve_limit buffer ≡ ok (cs, n)
      → Parsed buffer cs n
  parse_command-Parsed buffer (ok none) ih e h =
      let (ecs, en) = ok_pair-injective (sym (parse_stop reserve_limit buffer e) ∙ h) in
      subst₂ (Parsed buffer) ecs en (Parsed-nil buffer e)
  parse_command-Parsed buffer (ok (some (c, r))) ih e h =
      let ((ds, m), e', k) =
        >>=-eq-ok (parse reserve_limit r) _ (sym (parse_step reserve_limit buffer e) ∙ h) in
      let (ecs, en) = ok_pair-injective k in
      subst₂ (Parsed buffer) ecs en (
        Parsed-cons buffer c r ds m e (ih r ds m (parse_command_shrinks reserve_limit buffer e) e'))
  parse_command-Parsed buffer (throws x) ih e h = cc (parse_throws buffer x e)
  parse_command-Parsed buffer undefined ih e h = cc (parse_undefined buffer e)
  parse_command-Parsed buffer diverges ih e h =
      absurd (parse_command-ne-diverges reserve_limit buffer e)

  Parsed-below :
      (k : ℕ) (buffer : Bytes) (cs : List RespCommand) (n : ℕ)
      → length buffer < k
      → parse reserve_limit buffer ≡ ok (cs, n)
      → Parsed buffer cs n
  Parsed-below zero buffer cs n lt h = absurd (omega arith)
  Parsed-below (suc k) buffer cs n lt h =
      parse_command-Parsed buffer (parse_command reserve_limit buffer)
        (λ r ds m less. Parsed-below k r ds m (omega arith)) refl h

  -- What `parse` returns are the commands of requests in the request format, in order, that stand
  -- at the front of the text and have exactly the length returned; each has passed the limits on
  -- its arguments, and the text behind them begins with no request in the request format that is
  -- within the limits on its arguments; one more round of `parse` finds nothing whole in it.
  pub parse_sound :
      (buffer : Bytes) {cs : List RespCommand} {n : ℕ}
      → parse reserve_limit buffer ≡ ok (cs, n)
      → Parsed buffer cs n
  parse_sound buffer {cs} {n} h = Parsed-below (suc (length buffer)) buffer cs n (omega arith) h

  pub parse_nil : parse reserve_limit [] ≡ ok ([], 0)
  unfolding parse parse_loop parse_command parse_num
  parse_nil = refl

  -- No byte is taken without a command, and some bytes are taken with one.
  pub parse_taken :
      (buffer : Bytes) (cs : List RespCommand) (n : ℕ)
      → Parsed buffer cs n
      → (cs ≡ [] → n ≡ 0) × (cs ≢ [] → 0 < n) × (n ≤ length buffer)
  parse_taken buffer [] n t = (
    λ _. sym t.taken ∙ ap length t.requests,
    λ ne. absurd (ne refl),
    omega (arith, t.taken, ap length t.whole, length-append t.text t.rest),
  )
  parse_taken buffer (c ∷ cs) n t =
      let (h, u, r, _, e) = t.requests in
      (
        λ nil. absurd (cons-ne-nil c cs nil),
        λ _. omega (
          arith,
          t.taken,
          ap length e,
          length-append h u,
          ap length r.whole,
          length-append r.header r.body,
          ap length r.counted.whole,
        ),
        omega (arith, t.taken, ap length t.whole, length-append t.text t.rest),
      )

  -- What is left behind the requests yields nothing by itself.
  pub Parsed-drained :
      (buffer : Bytes) {cs : List RespCommand} {n : ℕ}
      → Parsed buffer cs n
      → parse reserve_limit (drop n buffer) ≡ ok ([], 0)
  Parsed-drained buffer t =
      rw (t.whole, ← t.taken, drop-length-append t.text t.rest)
        (parse_stop reserve_limit t.rest t.left)

  -- If a text parses, then parsing it with more text behind gives its commands, followed by what
  -- a parse of its unread bytes and the further text gives.
  pub parse_chunks :
      (a b : Bytes) {cs : List RespCommand} {n : ℕ}
      → parse reserve_limit a ≡ ok (cs, n)
      → parse reserve_limit (a ++ b) ≡ (parse reserve_limit (drop n a ++ b) >>= behind cs n)
  parse_chunks a b {cs} {n} h =
      let t = parse_sound a h in
      rw (t.whole, ← t.taken, drop-length-append t.text t.rest, append_assoc t.text t.rest b)
        (parse-append cs t.text (t.rest ++ b) t.requests t.granted)
