-- ===== src/ReadBuffer/Growth.antt =====
-- `alloc` of read_buffer.cpp and the loop in which it grows the buffer.
use vector_engine.Common.{
  ℕ, zero, suc, ◌+◌, ◌-◌, ◌*◌, ◌%◌, ◌^◌, ◌≤◌, ◌<◌, ◌≡◌, refl, ◌⊎◌, inl, inr, true, false, ◌++◌,
  arith, Bytes, length, replicate, length-replicate, take_all, take_within-append, length-append,
  Bool-cases, ltb, leb, leb-true,
}
use vector_engine.Errors.{Outcome, ok}
use vector_engine.Decimal.{size_mod}
use vector_engine.ReadBuffer.{
  ReadBuffer, resize, contents, clamp, grow, reserve, realloc_if_needed, Region, alloc,
}

-- The sizes that the constructor fixes and the operations keep. From `_max_size` above 2^63 on,
-- doubling the capacity could wrap.
pub record IsValid (b : ReadBuffer) : Type 0 where
  pub positive : 0 < b.min_size
  pub bounded : b.max_size ≤ 2 ^ 63
  pub least : b.min_size ≤ length b.buf
  pub most : length b.buf ≤ b.max_size
  pub occupied : b.size ≤ length b.buf

-- What the loop makes of the capacity `old`.
pub record Grown (b : ReadBuffer) (suggested_size old capacity remain : ℕ) : Type 0 where
  pub kept : old ≤ capacity
  pub limited : capacity ≤ b.max_size
  pub free : remain + b.size ≡ capacity
  pub enough : (suggested_size ≤ remain) ⊎ (capacity ≡ b.max_size)
  pub sparing : (capacity ≡ old) ⊎ (capacity < 2 * (b.size + suggested_size))

next_capacity :
    (limit capacity : ℕ)
    → limit ≤ 2 ^ 63
    → 0 < capacity
    → capacity < limit
    → (capacity < clamp limit (capacity * 2 % size_mod))
      × (clamp limit (capacity * 2 % size_mod) ≤ limit)
      × (clamp limit (capacity * 2 % size_mod) ≤ 2 * capacity)
unfolding clamp
next_capacity limit capacity bounded pos lt = (ground arith, ground arith, ground arith)

Grown-trans :
    (b : ReadBuffer) (suggested_size old next c r : ℕ)
    → old < next
    → next ≤ 2 * old
    → old < b.size + suggested_size
    → Grown b suggested_size next c r
    → Grown b suggested_size old c r
Grown-trans b suggested_size old next c r more less short g = record {
  kept = omega (arith, g.kept);
  limited = g.limited;
  free = g.free;
  enough = g.enough;
  sparing = inr (ground (arith, g.sparing));
}

grow_step :
    (fuel : ℕ) (b : ReadBuffer) (suggested_size capacity remain : ℕ) (o : Outcome (ℕ × ℕ))
    → ltb remain suggested_size ≡ true
    → leb b.max_size capacity ≡ false
    → b.max_size ≤ 2 ^ 63
    → 0 < capacity
    → b.size ≤ capacity
    → grow fuel b suggested_size
        (clamp b.max_size (capacity * 2 % size_mod))
        (clamp b.max_size (capacity * 2 % size_mod) - b.size)
      ≡ o
    → grow (suc fuel) b suggested_size capacity remain ≡ o
unfolding grow
grow_step fuel b suggested_size capacity remain o short room bounded pos occ e =
    let (more, within, less) = next_capacity b.max_size capacity bounded pos (ground arith) in
    let next = clamp b.max_size (capacity * 2 % size_mod) in
    let left : (next + size_mod - b.size) % size_mod ≡ next - b.size = omega arith in
    rw (short, room, left) e

-- The loop ends, since the capacity grows in each round and stays within the limit.
grow-Grown :
    (fuel : ℕ) (b : ReadBuffer) (suggested_size capacity remain : ℕ)
    → b.max_size ≤ 2 ^ 63
    → 0 < capacity
    → b.size ≤ capacity
    → capacity ≤ b.max_size
    → remain + b.size ≡ capacity
    → b.max_size - capacity < fuel
    → (c : ℕ) × (r : ℕ) × (grow fuel b suggested_size capacity remain ≡ ok (c, r))
      × Grown b suggested_size capacity c r
unfolding grow
grow-Grown zero b suggested_size capacity remain bounded pos occ lim free fuel_left =
    absurd (omega arith)
grow-Grown (suc fuel) b suggested_size capacity remain bounded pos occ lim free fuel_left =
    elim (Bool-cases (ltb remain suggested_size)) [
      | inr done ↦ (capacity, remain, rw (done), stays (inl (ground arith)))
      | inl short ↦ elim (Bool-cases (leb b.max_size capacity)) [
        | inl full ↦ (capacity, remain, rw (short, full), stays (inr (ground arith)))
        | inr room ↦
            let next = clamp b.max_size (capacity * 2 % size_mod) in
            let (more, within, less) =
              next_capacity b.max_size capacity bounded pos (ground arith) in
            let (c, r, e, g) =
              grow-Grown fuel b suggested_size next (next - b.size) bounded (omega arith)
                (omega arith) within (omega arith) (omega arith) in
            (
              c,
              r,
              grow_step fuel b suggested_size capacity remain (ok (c, r)) short room bounded pos occ
                  e,
              Grown-trans b suggested_size capacity next c r more less (ground arith) g,
            )
      ]
    ]
  where
    stays :
        (suggested_size ≤ remain) ⊎ (capacity ≡ b.max_size)
        → Grown b suggested_size capacity capacity remain
    stays enough = record {
      kept = omega arith;
      limited = lim;
      free = free;
      enough = enough;
      sparing = inl refl;
    }

resize_lem : (n : ℕ) (s : Bytes) → length s ≤ n → resize n s ≡ s ++ replicate (n - length s) 0
unfolding resize
resize_lem n s h = rw (take_all n s h)

pub length-resize : (n : ℕ) (s : Bytes) → length s ≤ n → length (resize n s) ≡ n
length-resize n s h = rw (resize_lem n s h) (
    omega (
      arith,
      length-append s (replicate (n - length s) 0),
      length-replicate {A = ℕ} (n - length s) 0,
    ))

-- `alloc` of a valid buffer succeeds. It keeps the buffer valid and its contents, and hands out
-- the free end of the buffer: as much as was suggested, unless the buffer is at its limit. It at
-- most doubles what is needed.
pub record Allocated (b : ReadBuffer) (suggested_size : ℕ) (b' : ReadBuffer) (r : Region)
    : Type 0 where
  pub valid : IsValid b'
  pub same_contents : contents b' ≡ contents b
  pub same_size : b'.size ≡ b.size
  pub same_limits : (b'.min_size ≡ b.min_size) × (b'.max_size ≡ b.max_size)
  pub base : r.base ≡ b'.size
  pub free : r.len + b'.size ≡ length b'.buf
  pub enough : (suggested_size ≤ r.len) ⊎ (length b'.buf ≡ b'.max_size)
  pub sparing : (b'.buf ≡ b.buf) ⊎ (length b'.buf < 2 * (b.size + suggested_size))

reserve-Allocated :
    (b : ReadBuffer) (suggested_size c r : ℕ)
    → IsValid b
    → Grown b suggested_size (length b.buf) c r
    → Allocated b suggested_size
        (reserve b (c, r)).0
        (record { base = (reserve b (c, r)).0.size; len = (reserve b (c, r)).1 })
unfolding reserve
reserve-Allocated b suggested_size c r v g = elim (Bool-cases (ltb (length b.buf) c)) [
  | inl larger ↦
      let len = length-resize c b.buf g.kept in
      rw larger (record {
        valid = record {
          positive = v.positive;
          bounded = v.bounded;
          least = omega (arith, len, v.least, g.kept);
          most = omega (arith, len, g.limited);
          occupied = omega (arith, len, v.occupied, g.kept);
        };
        same_contents =
            rw (resize_lem c b.buf g.kept) (take_within-append b.size b.buf _ v.occupied);
        same_size = refl;
        same_limits = (refl, refl);
        base = refl;
        free = omega (arith, len, g.free);
        enough = ground (arith, len, g.enough);
        sparing = inr (ground (arith, len, g.sparing));
      })
  | inr same ↦ rw same (record {
    valid = v;
    same_contents = refl;
    same_size = refl;
    same_limits = (refl, refl);
    base = refl;
    free = ground (arith, g.free, g.kept);
    enough = ground (arith, g.enough, g.kept);
    sparing = inl refl;
  })
]

realloc_step :
    (b : ReadBuffer) (suggested_size : ℕ) (o : ℕ × ℕ)
    → IsValid b
    → grow (suc b.max_size) b suggested_size (length b.buf) (length b.buf - b.size) ≡ ok o
    → alloc b suggested_size
      ≡ ok ((reserve b o).0, record { base = (reserve b o).0.size; len = (reserve b o).1 })
unfolding alloc realloc_if_needed reserve
realloc_step b suggested_size o v e =
    rw (realloc_if_needed, leb-true b.size (length b.buf) v.occupied, e)

-- `alloc` of a valid buffer returns, and its loop ends: it keeps the contents and the limits,
-- hands out all of the free end, which has the suggested size unless the buffer is at its
-- greatest size, and it grows the buffer to less than twice what is needed, if at all.
pub alloc-Allocated :
    (b : ReadBuffer) (suggested_size : ℕ)
    → IsValid b
    → (b' : ReadBuffer) × (r : Region) × (alloc b suggested_size ≡ ok (b', r))
      × Allocated b suggested_size b' r
alloc-Allocated b suggested_size v =
    let (c, r, e, g) =
      grow-Grown (suc b.max_size) b suggested_size (length b.buf) (length b.buf - b.size) v.bounded
        (omega (arith, v.positive, v.least)) v.occupied v.most (omega (arith, v.occupied))
        (omega arith) in
    (
      (reserve b (c, r)).0,
      record { base = (reserve b (c, r)).0.size; len = (reserve b (c, r)).1 },
      realloc_step b suggested_size (c, r) v e,
      reserve-Allocated b suggested_size c r v g,
    )
