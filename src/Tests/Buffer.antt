-- ===== src/Tests/Buffer.antt =====
-- The read buffer, at small sizes.
use vector_engine.Common.{◌≡◌, List, [], ◌∷◌, codes, arith}
use vector_engine.Errors.{ok}
use vector_engine.ReadBuffer.{ReadBuffer, Region, contents, alloc}
use vector_engine.ReadBuffer.Growth.{IsValid, Allocated, alloc-Allocated}
use vector_engine.ReadBuffer.Queue.{read_buffer}
use vector_engine.ReadBuffer.Replay.{Move, read, take_off, replay, run_moves, read_buffer-replay}

-- Three bytes in a buffer of four to sixteen.
abbrev three : ReadBuffer
three = record { min_size = 4; max_size = 16; size = 3; buf = codes "abcd" }

abbrev three-IsValid : IsValid three
three-IsValid = record {
  positive = omega arith;
  bounded = omega arith;
  least = omega arith;
  most = omega arith;
  occupied = omega arith;
}

alloc-Allocated_example :
    (b : ReadBuffer) × (r : Region) × (alloc three 6 ≡ ok (b, r)) × Allocated three 6 b r
alloc-Allocated_example = alloc-Allocated three 6 three-IsValid

abbrev moves : List Move
moves = read 6 (codes "abcdef") ∷ take_off 2 ∷ read 9 (codes "gh") ∷ take_off 6 ∷ []

read_buffer-replay_example :
    (q q' : ReadBuffer) × (read_buffer.new 4 16 ≡ ok q)
    × (run_moves read_buffer q moves ≡ ok q')
    × (contents q' ≡ replay [] moves)
unfolding replay
read_buffer-replay_example =
    read_buffer-replay 4 16 moves (omega arith) (omega arith) (omega arith) (
      (omega arith, omega arith),
      ((omega arith, omega arith), ((omega arith, omega arith), ((omega arith, omega arith), tt))),
    )
