-- ===== src/ReadBuffer/Fifo.antt =====
-- The buffer of read_buffer.cpp as a queue of bytes.
use vector_engine.Common.{
  ℕ, ◌+◌, ◌-◌, ◌/◌, ◌%◌, ◌^◌, ◌≤◌, ◌<◌, ◌≡◌, refl, subst, sym, ◌∙◌, [], ◌++◌, append_assoc, arith,
  Bytes, length, take, drop, replicate, length-append, length-take, take-append-drop, length-drop,
  drop-take, length-replicate, take-length-append, ltb, lt→ltb, leb-true, if◌then◌else◌,
}
use vector_engine.Errors.{ok}
use vector_engine.Decimal.{size_mod}
use vector_engine.ReadBuffer.{ReadBuffer, make, resize, contents, occupy, copy_to, dealloc}
use vector_engine.ReadBuffer.Growth.{IsValid, length-resize}

-- A buffer made with limits in order, the lower above 0 and the upper at most 2^63, is valid and
-- empty.
pub make-IsValid :
    (min_size max_size : ℕ)
    → 0 < min_size
    → min_size ≤ max_size
    → max_size ≤ 2 ^ 63
    → (b : ReadBuffer) × (make min_size max_size ≡ ok b) × IsValid b × (contents b ≡ [])
unfolding make
make-IsValid min_size max_size pos le bounded = (
  record { min_size = min_size; max_size = max_size; size = 0; buf = resize min_size [] },
  rw (lt→ltb 0 min_size pos, leb-true min_size max_size le),
  record {
    positive = pos;
    bounded = bounded;
    least = omega (arith, length-resize min_size []);
    most = omega (arith, length-resize min_size []);
    occupied = omega arith;
  },
  refl,
)

-- What read(2) does to the memory of a region: its first bytes are overwritten.
unfoldable pub write_at : ℕ → Bytes → Bytes → Bytes
write_at base bytes buf = take base buf ++ (bytes ++ drop (base + length bytes) buf)

length-write_at :
    (base : ℕ) (bytes buf : Bytes)
    → base + length bytes ≤ length buf
    → length (write_at base bytes buf) ≡ length buf
unfolding write_at
length-write_at base bytes buf h = omega (
  arith,
  length-append (take base buf) (bytes ++ drop (base + length bytes) buf),
  length-append bytes (drop (base + length bytes) buf),
  length-take base buf (omega arith),
  length-drop (base + length bytes) buf,
)

-- libuv fills the region that `alloc` handed out, and `on_read` occupies what was read.
unfoldable pub fill : ReadBuffer → Bytes → ReadBuffer
fill b bytes = record b { buf = write_at b.size bytes b.buf }

-- A read of no bytes changes nothing.
pub fill-nil : (b : ReadBuffer) → fill b [] ≡ b
unfolding fill write_at
fill-nil b =
    let e : b.size + 0 ≡ b.size = omega arith in
    let same : take b.size b.buf ++ drop (b.size + 0) b.buf ≡ b.buf =
      rw e (take-append-drop b.size b.buf) in
    λ i. record b { buf = same i }

take-write_at :
    (base : ℕ) (bytes buf : Bytes)
    → base ≤ length buf
    → take (base + length bytes) (write_at base bytes buf) ≡ take base buf ++ bytes
unfolding write_at
take-write_at base bytes buf h =
    let e : length (take base buf ++ bytes) ≡ base + length bytes =
      omega (arith, length-append (take base buf) bytes, length-take base buf h) in
    subst (λ k. take k (write_at base bytes buf) ≡ take base buf ++ bytes) e
      (rw (← append_assoc (take base buf) bytes (drop (base + length bytes) buf))
        (take-length-append (take base buf ++ bytes) _))

-- `occupy` of bytes that were read into the free end of a valid buffer puts them behind the
-- contents, and leaves it valid.
pub occupy-fill :
    (b : ReadBuffer) (bytes : Bytes)
    → IsValid b
    → b.size + length bytes ≤ length b.buf
    → (b' : ReadBuffer) × (occupy (fill b bytes) (length bytes) ≡ ok b')
      × IsValid b'
      × (contents b' ≡ contents b ++ bytes)
unfolding occupy fill
occupy-fill b bytes v fits =
    let len = length-write_at b.size bytes b.buf fits in
    let small : (length bytes + b.size) % size_mod ≡ length bytes + b.size =
      omega (arith, v.most, v.bounded) in
    let small' : (b.size + length bytes) % size_mod ≡ b.size + length bytes =
      omega (arith, v.most, v.bounded) in
    (
      record b { size = b.size + length bytes; buf = write_at b.size bytes b.buf },
      rw (small, small', len, leb-true (length bytes + b.size) (length b.buf) (omega arith)),
      record {
        positive = v.positive;
        bounded = v.bounded;
        least = omega (arith, len, v.least);
        most = omega (arith, len, v.most);
        occupied = omega (arith, len);
      },
      take-write_at b.size bytes b.buf v.occupied,
    )

length-copy_to : (src dst : Bytes) → length src ≤ length dst → length (copy_to src dst) ≡ length dst
unfolding copy_to
length-copy_to src dst h =
    omega (arith, length-append src (drop (length src) dst), length-drop (length src) dst)

take-copy_to : (n : ℕ) (src dst : Bytes) → length src ≡ n → take n (copy_to src dst) ≡ src
unfolding copy_to
take-copy_to n src dst e =
    subst (λ k. take k (copy_to src dst) ≡ src) e (take-length-append src (drop (length src) dst))

abbrev target : ReadBuffer → ℕ → Bytes
target b n = if ltb (b.size - n) (b.min_size / 2) then replicate b.min_size 0 else b.buf

target_fits :
    (b : ReadBuffer) (n : ℕ)
    → IsValid b
    → (b.size - n ≤ length (target b n))
      × (b.min_size ≤ length (target b n))
      × (length (target b n) ≤ b.max_size)
target_fits b n v =
    let len = length-replicate {A = ℕ} b.min_size 0 in
    (ground (arith, len), ground (arith, len), ground (arith, len))

-- `dealloc` of some of the bytes that a valid buffer holds takes them off the front, whether it
-- shrinks the buffer or moves within it, and leaves it valid.
pub dealloc-drop :
    (b : ReadBuffer) (n : ℕ)
    → IsValid b
    → 0 < n
    → n ≤ b.size
    → (b' : ReadBuffer) × (dealloc b n ≡ ok b') × IsValid b' × (contents b' ≡ drop n (contents b))
unfolding dealloc
dealloc-drop b n v pos le =
    let left = take (b.size - n) (drop n b.buf) in
    let len : length left ≡ b.size - n =
      length-take (b.size - n) (drop n b.buf) (omega (arith, length-drop n b.buf, v.occupied)) in
    let (room, least, most) = target_fits b n v in
    let same = length-copy_to left (target b n) (omega (arith, len, room)) in
    (
      record b { size = b.size - n; buf = copy_to left (target b n) },
      rw (lt→ltb 0 n pos, leb-true n b.size le),
      record {
        positive = v.positive;
        bounded = v.bounded;
        least = omega (arith, same, least);
        most = omega (arith, same, most);
        occupied = omega (arith, same, room);
      },
      take-copy_to (b.size - n) left (target b n) len ∙ sym (drop-take n b.size b.buf le),
    )
