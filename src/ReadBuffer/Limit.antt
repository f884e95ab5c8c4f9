-- ===== src/ReadBuffer/Limit.antt =====
-- The operations of read_buffer.cpp leave `_max_size` alone, also on a buffer that is not valid.
use vector_engine.Common.{
  ℕ, suc, ◌≡◌, refl, ◌-◌, length, leb, ltb, ◌+◌, ◌%◌, ◌&&◌, Bool-cases, inl, inr,
}
use vector_engine.Decimal.{size_mod}
use vector_engine.Errors.{ok, ◌>>=◌, Ensures, Ensures-bind, Ensures-then}
use vector_engine.ReadBuffer.{
  ReadBuffer, Region, alloc, occupy, dealloc, realloc_if_needed, reserve, grow,
}

abbrev pub HasLimit : ReadBuffer → ReadBuffer → Type 0
HasLimit b b' = b'.max_size ≡ b.max_size

reserve_kept : (b : ReadBuffer) (r : ℕ × ℕ) → HasLimit b (reserve b r).0
unfolding reserve
reserve_kept b (capacity, remain) = elim (Bool-cases (ltb (length b.buf) capacity)) [
  | inl larger ↦ rw larger refl
  | inr fits ↦ rw fits refl
]

pub alloc_kept :
    (b : ReadBuffer) (n : ℕ) → Ensures (λ (q : ReadBuffer × Region). HasLimit b q.0) (alloc b n)
unfolding alloc realloc_if_needed
alloc_kept b n = elim (Bool-cases (leb b.size (length b.buf))) [
  | inl fits ↦ rw fits (
      Ensures-bind (λ (q : ReadBuffer × ℕ). HasLimit b q.0)
        (λ (q : ReadBuffer × Region). HasLimit b q.0)
        (grow (suc b.max_size) b n (length b.buf) (length b.buf - b.size) >>= λ r. ok (reserve b r))
        _
        (Ensures-then (λ (q : ReadBuffer × ℕ). HasLimit b q.0)
          (grow (suc b.max_size) b n (length b.buf) (length b.buf - b.size)) _ (reserve_kept b))
        (λ q h. h))
  | inr over ↦ rw over tt
]

pub occupy_kept : (b : ReadBuffer) (n : ℕ) → Ensures (HasLimit b) (occupy b n)
unfolding occupy
occupy_kept b n = elim (Bool-cases (leb ((n + b.size) % size_mod) (length b.buf))) [
  | inl fits ↦ rw fits refl
  | inr over ↦ rw over tt
]

pub dealloc_kept : (b : ReadBuffer) (n : ℕ) → Ensures (HasLimit b) (dealloc b n)
unfolding dealloc
dealloc_kept b n = elim (Bool-cases (ltb 0 n && leb n b.size)) [
  | inl fine ↦ rw fine refl
  | inr bad ↦ rw bad tt
]
