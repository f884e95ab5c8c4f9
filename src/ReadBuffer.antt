-- ===== src/ReadBuffer.antt =====
-- read_buffer.h and read_buffer.cpp. `_buf` is the list of its bytes, `_size` how many of them
-- are occupied. A pointer into `_buf` is an offset. A failed `assert` is `undefined`.
pub mod Growth
pub mod Fifo
pub mod Limit
pub mod Queue
pub mod Replay
use vector_engine.Common.{
  ℕ, zero, suc, ◌+◌, ◌-◌, ◌*◌, ◌/◌, ◌%◌, ◌^◌, ◌&&◌, [], ◌++◌, Bytes, length, take, drop, replicate,
  ltb, leb, if◌then◌else◌,
}
use vector_engine.Errors.{Outcome, ok, undefined, diverges, ◌>>=◌}
use vector_engine.Decimal.{size_mod}

pub record ReadBuffer : Type 0 where
  pub min_size : ℕ
  pub max_size : ℕ
  pub size : ℕ
  pub buf : Bytes

-- `std::string::resize` to a size that is not smaller fills up with null bytes.
pub resize : ℕ → Bytes → Bytes
resize n s = take n s ++ replicate (n - length s) 0

-- The constructor.
unfoldable pub make : ℕ → ℕ → Outcome ReadBuffer
unfolding resize
make min_size max_size =
    if ltb 0 min_size && leb min_size max_size
    then ok
        (record { min_size = min_size; max_size = max_size; size = 0; buf = resize min_size [] })
    else undefined

-- `data()`: the occupied bytes.
abbrev pub contents : ReadBuffer → Bytes
contents b = take b.size b.buf

unfoldable pub clamp : ℕ → ℕ → ℕ
clamp limit capacity = if ltb limit capacity then limit else capacity

-- The loop of `_realloc_if_needed` with its two variables; `capacity *= 2` is taken modulo 2^64,
-- and so is `capacity - _size`.
unfoldable pub grow : ℕ → ReadBuffer → ℕ → ℕ → ℕ → Outcome (ℕ × ℕ)
grow zero b suggested_size capacity remain = diverges
grow (suc fuel) b suggested_size capacity remain =
    let doubled = capacity * 2 % size_mod in
    let next = clamp b.max_size doubled in
    let rest = grow fuel b suggested_size next ((next + size_mod - b.size) % size_mod) in
    if ltb remain suggested_size
    then if leb b.max_size capacity then ok (capacity, remain) else rest
    else ok (capacity, remain)

pub reserve : ReadBuffer → ℕ × ℕ → ReadBuffer × ℕ
unfolding resize
reserve b (capacity, remain) =
    if ltb (length b.buf) capacity
    then (record b { buf = resize capacity b.buf }, remain)
    else (b, remain)

-- `_realloc_if_needed`: the buffer after it and the bytes that remain. The fuel is more than the
-- loop can use, since `capacity` grows in each round and stays within `_max_size`.
unfoldable pub realloc_if_needed : ReadBuffer → ℕ → Outcome (ReadBuffer × ℕ)
unfolding grow reserve
realloc_if_needed b suggested_size =
    let capacity = length b.buf in
    if leb b.size capacity
    then (grow (suc b.max_size) b suggested_size capacity (capacity - b.size) >>= λ r.
        ok (reserve b r))
    else undefined

-- The memory that `alloc` hands out.
pub record Region : Type 0 where
  pub base : ℕ
  pub len : ℕ

unfoldable pub alloc : ReadBuffer → ℕ → Outcome (ReadBuffer × Region)
alloc b suggested_size = do
  (b', remain) ← realloc_if_needed b suggested_size
  ok (b', record { base = b'.size; len = remain })

unfoldable pub occupy : ReadBuffer → ℕ → Outcome ReadBuffer
occupy b size =
    if leb ((size + b.size) % size_mod) (length b.buf)
    then ok (record b { size = (b.size + size) % size_mod })
    else undefined

-- `std::copy` to the front of a string.
pub copy_to : Bytes → Bytes → Bytes
copy_to src dst = src ++ drop (length src) dst

unfoldable pub dealloc : ReadBuffer → ℕ → Outcome ReadBuffer
unfolding copy_to
dealloc b size =
    let left = take (b.size - size) (drop size b.buf) in
    let target = if ltb (b.size - size) (b.min_size / 2) then replicate b.min_size 0 else b.buf in
    if ltb 0 size && leb size b.size
    then ok (record b { size = b.size - size; buf = copy_to left target })
    else undefined
