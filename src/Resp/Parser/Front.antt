-- ===== src/Resp/Parser/Front.antt =====
-- `RespCommandParser::parse` (resp.cpp) on any front of a stream of requests.
use vector_engine.Common.{
  ℕ, ◌≤◌, ◌<◌, ◌≡◌, refl, ap, sym, ◌∙◌, inl, inr, List, [], ◌∷◌, ◌++◌, append-nil, append_assoc,
  append_nothing, arith, Bytes, All, length, length-append, length_pos, split-append,
}
use vector_engine.Errors.{ok, ◌>>=◌}
use vector_engine.Decimal.{size_mod}
use vector_engine.Resp.Command.{RespCommand}
use vector_engine.Resp.Format.{IsRequest, IsRequests}
use vector_engine.Resp.Parser.{parse}
use vector_engine.Resp.Parser.Loop.{IsGranted, behind, parse_stop}
use vector_engine.Resp.Parser.Stream.{parse-append, parse_nil}
use vector_engine.Resp.Parser.Prefix.{parse_command_cut}

module _ (reserve_limit most : ℕ) where
  -- Requests one behind another, each within the limits on its arguments and of at most `most`
  -- bytes.
  abbrev pub IsStream : List RespCommand → Bytes → Type 0
  IsStream [] p = p ≡ []
  IsStream (c ∷ cs) p =
      (h : Bytes) × (t : Bytes) × IsRequest c h
      × IsGranted reserve_limit c
      × (length h ≤ most)
      × IsStream cs t
      × (p ≡ h ++ t)

  pub IsStream-IsRequests :
      (cs : List RespCommand) (p : Bytes)
      → IsStream cs p
      → IsRequests cs p × All (IsGranted reserve_limit) cs
  IsStream-IsRequests [] p e = (e, tt)
  IsStream-IsRequests (c ∷ cs) p (h, t, r, g, _, rest, e) =
      let (rs, gs) = IsStream-IsRequests cs t rest in ((h, t, r, rs, e), (g, gs))

  -- A front `q` of a stream, behind which `zs` is to come: whole requests, and the front of the
  -- next one, which yields nothing.
  pub record Front (cs : List RespCommand) (q zs : Bytes) : Type 0 where
    pub arrived : List RespCommand
    pub later : List RespCommand
    pub text : Bytes
    pub rest : Bytes
    pub split : cs ≡ arrived ++ later
    pub taken : IsStream arrived text
    pub remain : IsStream later (rest ++ zs)
    pub whole : q ≡ text ++ rest
    pub waits : parse reserve_limit rest ≡ ok ([], 0)
    pub short : length rest ≤ most
    pub complete : zs ≡ [] → later ≡ []

  pub Front-lem :
      (cs : List RespCommand) (p q zs : Bytes)
      → most < size_mod
      → IsStream cs p
      → q ++ zs ≡ p
      → Front cs q zs
  Front-lem [] p q zs small e k =
      let (none_read, none_left) = append_nothing q zs (k ∙ e) in
      record {
        arrived = [];
        later = [];
        text = [];
        rest = [];
        split = refl;
        taken = refl;
        remain = none_left;
        whole = none_read;
        waits = parse_nil reserve_limit;
        short = omega arith;
        complete = λ _. refl;
      }
  Front-lem (c ∷ cs) p q zs small (h, t, r, g, fits, stream, e) k =
      elim (split-append q zs h t (k ∙ e)) [
        | inl (ws, ne, cut) ↦ record {
          arrived = [];
          later = c ∷ cs;
          text = [];
          rest = q;
          split = refl;
          taken = refl;
          remain = (h, t, r, g, fits, stream, k ∙ e);
          whole = refl;
          waits = parse_stop reserve_limit q (
              parse_command_cut reserve_limit c q h r g.0 g.1 (omega (arith, fits, small))
                (ws, ne, cut));
          short = omega (arith, ap length cut, length-append q ws, fits);
          complete = λ nothing. absurd (
              omega (
                arith,
                ap length (k ∙ e),
                length-append q zs,
                length-append h t,
                ap length cut,
                length-append q ws,
                ap length nothing,
                length_pos ws ne,
              ));
        }
        | inr (ys, k', k'') ↦
            let f = Front-lem cs t ys zs small stream k'' in
            record {
              arrived = c ∷ f.arrived;
              later = f.later;
              text = h ++ f.text;
              rest = f.rest;
              split = ap (◌∷◌ c) f.split;
              taken = (h, f.text, r, g, fits, f.taken, refl);
              remain = f.remain;
              whole = k' ∙ ap (◌++◌ h) f.whole ∙ sym (append_assoc h f.text f.rest);
              waits = f.waits;
              short = f.short;
              complete = f.complete;
            }
      ]

  -- A front of a stream parses: into the requests that have arrived whole.
  pub Front-parse :
      (cs : List RespCommand) (q zs : Bytes) (f : Front cs q zs)
      → parse reserve_limit q ≡ ok (f.arrived, length f.text)
  Front-parse cs q zs f =
      let (rs, gs) = IsStream-IsRequests f.arrived f.text f.taken in
      ap (parse reserve_limit) f.whole
      ∙ parse-append reserve_limit f.arrived f.text f.rest rs gs
      ∙ ap (λ m. m >>= behind f.arrived (length f.text)) f.waits
      ∙ ground (arith, append-nil f.arrived)
