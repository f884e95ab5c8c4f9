-- ===== src/ReadBuffer/Queue.antt =====
-- The class of read_buffer.h as its clients see it: a queue of bytes within a limit, filled by
-- libuv behind and emptied in front; and read_buffer.cpp as one.
use vector_engine.Common.{
  ℕ, ◌+◌, ◌%◌, ◌≤◌, ◌<◌, ◌^◌, ◌≡◌, ◌⊎◌, sym, ap, ◌∙◌, inl, inr, [], ◌++◌, Bytes, length,
  length-take, drop, arith, Bool-cases, ltb, leb, ◌&&◌,
}
use vector_engine.Errors.{Outcome, ok, ok-injective}
use vector_engine.Decimal.{size_mod}
use vector_engine.ReadBuffer.{ReadBuffer, Region, make, contents, alloc, occupy, dealloc}
use vector_engine.ReadBuffer.Growth.{IsValid, Allocated, alloc-Allocated}
use vector_engine.ReadBuffer.Fifo.{make-IsValid, fill, occupy-fill, dealloc-drop}

pub record ByteQueue : Type 1 where
  pub Queue : Type 0
  pub IsGood : Queue → Type 0
  pub text : Queue → Bytes
  pub limit : Queue → ℕ
  pub new : ℕ → ℕ → Outcome Queue
  pub room : Queue → ℕ → Outcome (Queue × Region)
  pub fill_room : Queue → Bytes → Queue
  pub keep : Queue → ℕ → Outcome Queue
  pub cut : Queue → ℕ → Outcome Queue
  pub new_law :
      (least most : ℕ)
      → 0 < least
      → least ≤ most
      → most ≤ 2 ^ 63
      → (q : Queue) × (new least most ≡ ok q) × IsGood q × (text q ≡ []) × (limit q ≡ most)
  pub room_law :
      (q : Queue) (n : ℕ)
      → IsGood q
      → (q' : Queue) × (r : Region) × (room q n ≡ ok (q', r))
        × IsGood q'
        × (text q' ≡ text q)
        × (limit q' ≡ limit q)
        × ((n ≤ r.len) ⊎ (r.len + length (text q) ≡ limit q))
        × ((bytes : Bytes)
            → length bytes ≤ r.len
            → (q'' : Queue) × (keep (fill_room q' bytes) (length bytes) ≡ ok q'')
              × IsGood q''
              × (text q'' ≡ text q ++ bytes)
              × (limit q'' ≡ limit q))
  pub cut_law :
      (q : Queue) (n : ℕ)
      → IsGood q
      → 0 < n
      → n ≤ length (text q)
      → (q' : Queue) × (cut q n ≡ ok q')
        × IsGood q'
        × (text q' ≡ drop n (text q))
        × (limit q' ≡ limit q)

pub make_limit : (least most : ℕ) {b : ReadBuffer} → make least most ≡ ok b → b.max_size ≡ most
unfolding make
make_limit least most {b} h = elim (Bool-cases (ltb 0 least && leb least most)) [
  | inl fine ↦ ap (λ (c : ReadBuffer). c.max_size) (sym (ok-injective (rw fine at h)))
  | inr bad ↦ cc (rw bad at h)
]

occupy_limit :
    (b : ReadBuffer) (n : ℕ) {b' : ReadBuffer} → occupy b n ≡ ok b' → b'.max_size ≡ b.max_size
unfolding occupy
occupy_limit b n {b'} h = elim (Bool-cases (leb ((n + b.size) % size_mod) (length b.buf))) [
  | inl fine ↦ ap (λ (c : ReadBuffer). c.max_size) (sym (ok-injective (rw fine at h)))
  | inr bad ↦ cc (rw bad at h)
]

pub dealloc_limit :
    (b : ReadBuffer) (n : ℕ) {b' : ReadBuffer} → dealloc b n ≡ ok b' → b'.max_size ≡ b.max_size
unfolding dealloc
dealloc_limit b n {b'} h = elim (Bool-cases (ltb 0 n && leb n b.size)) [
  | inl fine ↦ ap (λ (c : ReadBuffer). c.max_size) (sym (ok-injective (rw fine at h)))
  | inr bad ↦ cc (rw bad at h)
]

pub length-text : (b : ReadBuffer) → IsValid b → length (contents b) ≡ b.size
length-text b v = length-take b.size b.buf v.occupied

pub room_enough :
    (b b' : ReadBuffer) (n : ℕ) (r : Region)
    → IsValid b
    → Allocated b n b' r
    → (n ≤ r.len) ⊎ (r.len + length (contents b) ≡ b.max_size)
room_enough b b' n r v a =
    ground (arith, a.enough, a.free, a.same_size, a.same_limits.1, length-text b v)

pub room_keep :
    (b b' : ReadBuffer) (n : ℕ) (r : Region) (bytes : Bytes)
    → Allocated b n b' r
    → length bytes ≤ r.len
    → (b'' : ReadBuffer) × (occupy (fill b' bytes) (length bytes) ≡ ok b'')
      × IsValid b''
      × (contents b'' ≡ contents b ++ bytes)
      × (b''.max_size ≡ b.max_size)
unfolding fill
room_keep b b' n r bytes a fits =
    let (b'', e, v, t) = occupy-fill b' bytes a.valid (omega (arith, fits, a.free)) in
    (
      b'',
      e,
      v,
      t ∙ ap (λ (s : Bytes). s ++ bytes) a.same_contents,
      occupy_limit (fill b' bytes) (length bytes) e ∙ a.same_limits.1,
    )

-- `ReadBuffer` of read_buffer.cpp, with libuv's writes into the memory that `alloc` hands out.
abbrev pub read_buffer : ByteQueue
read_buffer = record {
  Queue = ReadBuffer;
  IsGood = IsValid;
  text = contents;
  limit = λ b. b.max_size;
  new = make;
  room = alloc;
  fill_room = fill;
  keep = occupy;
  cut = dealloc;
  new_law = λ least most some_size le bounded.
      let (b, e, v, t) = make-IsValid least most some_size le bounded in
      (b, e, v, t, make_limit least most e);
  room_law = λ b n v.
      let (b', r, e, a) = alloc-Allocated b n v in
      (
        b',
        r,
        e,
        a.valid,
        a.same_contents,
        a.same_limits.1,
        room_enough b b' n r v a,
        λ bytes fits. room_keep b b' n r bytes a fits,
      );
  cut_law = λ b n v some_bytes held.
      let (b', e, v', t) = dealloc-drop b n v some_bytes (omega (arith, held, length-text b v)) in
      (b', e, v', t, dealloc_limit b n e);
}
