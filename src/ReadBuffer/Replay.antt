-- ===== src/ReadBuffer/Replay.antt =====
-- Sequences of reads and cuts on a queue of bytes (read_buffer.h), against the same on a text.
use vector_engine.Common.{
  ℕ, ◌+◌, ◌≤◌, ◌<◌, ◌^◌, ◌≡◌, refl, sym, subst, ap, ◌∙◌, List, [], ◌∷◌, ◌++◌, Bytes, length, drop,
  arith, leb, leb-true, if◌then◌else◌,
}
use vector_engine.Errors.{Outcome, ok, undefined, ◌>>=◌}
use vector_engine.ReadBuffer.{ReadBuffer, Region, contents}
use vector_engine.ReadBuffer.Queue.{ByteQueue, read_buffer}

-- A read of bytes for which libuv suggested a size, or a cut at the front.
pub data Move : Type 0 where
  read : ℕ → Bytes → Move
  take_off : ℕ → Move

-- What a move makes of the text.
unfoldable pub apply : Bytes → Move → Bytes
apply s (read n bytes) = s ++ bytes
apply s (take_off n) = drop n s

unfoldable pub replay : Bytes → List Move → Bytes
unfolding apply
replay s [] = s
replay s (m ∷ ms) = replay (apply s m) ms

-- A read brings no more than was suggested and than the limit leaves room for; a cut takes some of
-- the bytes that are there.
abbrev pub IsLegalMove : ℕ → Bytes → Move → Type 0
IsLegalMove most s (read n bytes) = (length bytes ≤ n) × (length s + length bytes ≤ most)
IsLegalMove most s (take_off n) = (0 < n) × (n ≤ length s)

abbrev pub IsLegal : ℕ → Bytes → List Move → Type 0
IsLegal most s [] = Unit
IsLegal most s (m ∷ ms) = IsLegalMove most s m × IsLegal most (apply s m) ms

module _ (b : ByteQueue) where
  unfoldable pub put : Bytes → b.Queue × Region → Outcome b.Queue
  put bytes (q, r) =
      if leb (length bytes) r.len then b.keep (b.fill_room q bytes) (length bytes) else undefined

  unfoldable pub step : b.Queue → Move → Outcome b.Queue
  unfolding put
  step q (read n bytes) = b.room q n >>= put bytes
  step q (take_off n) = b.cut q n

  unfoldable pub run_moves : b.Queue → List Move → Outcome b.Queue
  unfolding step
  run_moves q [] = ok q
  run_moves q (m ∷ ms) = step q m >>= λ q'. run_moves q' ms

  step-apply :
      (q : b.Queue) (m : Move)
      → b.IsGood q
      → IsLegalMove (b.limit q) (b.text q) m
      → (q' : b.Queue) × (step q m ≡ ok q')
        × b.IsGood q'
        × (b.text q' ≡ apply (b.text q) m)
        × (b.limit q' ≡ b.limit q)
  unfolding step apply put
  step-apply q (read n bytes) good (suggested, within) =
      let (q', r, e, good', same, limit, enough, keep) = b.room_law q n good in
      let fits : length bytes ≤ r.len = ground (arith, enough, suggested, within) in
      let (q'', e', good'', t, limit') = keep bytes fits in
      (q'', rw (e, leb-true (length bytes) r.len fits) e', good'', t, limit')
  step-apply q (take_off n) good (some_bytes, held) = b.cut_law q n good some_bytes held

  pub run_moves-replay :
      (q : b.Queue) (ms : List Move)
      → b.IsGood q
      → IsLegal (b.limit q) (b.text q) ms
      → (q' : b.Queue) × (run_moves q ms ≡ ok q') × b.IsGood q' × (b.text q' ≡ replay (b.text q) ms)
  unfolding run_moves replay
  run_moves-replay q [] good legal = (q, refl, good, refl)
  run_moves-replay q (m ∷ ms) good (legal, more) =
      let (q', e, good', t, limit) = step-apply q m good legal in
      let more' =
        subst (λ s. IsLegal (b.limit q') s ms) (sym t)
          (subst (λ k. IsLegal k (apply (b.text q) m) ms) (sym limit) more) in
      let (q'', e', good'', t') = run_moves-replay q' ms good' more' in
      (q'', rw e e', good'', t' ∙ ap (λ s. replay s ms) t)

-- A buffer made with limits in order, the lower above 0 and the upper at most 2^63, does what a
-- text does under any sequence of reads, each of no more bytes than were suggested and than the
-- upper limit leaves room for, and of cuts of some of its bytes: every call returns, the reads
-- are appended and the cuts take bytes off the front, however the buffer grows, shrinks and
-- moves.
pub read_buffer-replay :
    (least most : ℕ) (ms : List Move)
    → 0 < least
    → least ≤ most
    → most ≤ 2 ^ 63
    → IsLegal most [] ms
    → (q q' : ReadBuffer) × (read_buffer.new least most ≡ ok q)
      × (run_moves read_buffer q ms ≡ ok q')
      × (contents q' ≡ replay [] ms)
read_buffer-replay least most ms some_size le bounded legal =
    let (q, e, good, empty, limit) = read_buffer.new_law least most some_size le bounded in
    let legal' =
      subst (λ s. IsLegal (read_buffer.limit q) s ms) (sym empty)
        (subst (λ k. IsLegal k [] ms) (sym limit) legal) in
    let (q', e', _, t) = run_moves-replay read_buffer q ms good legal' in
    (q, q', e, e', t ∙ ap (λ s. replay s ms) empty)
