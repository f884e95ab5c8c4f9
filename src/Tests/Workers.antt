-- ===== src/Tests/Workers.antt =====
-- The workers, the reactor and the start of the program.
use vector_engine.Common.{◌≡◌, refl, map, false, ◌||◌, List, [], ◌∷◌, ◌++◌, some, Bytes, codes}
use vector_engine.Errors.{ok}
use vector_engine.Str.{to_lower, bytes_eq}
use vector_engine.Worker.Lines.{
  IsLines, first_line, is_plain-IsPlain, answers-IsLines, unknown_adds_line,
}
use vector_engine.Tests.{ping}
use vector_engine.Resp.Command.{RespCommand}
use vector_engine.Task.{TaskOutput, ping_task, unknown_task, create}
use vector_engine.Protocol.{resp_response_builder}
use vector_engine.Worker.{
  BatchTask, batch, stop_marker, Reply, Worker, WorkerPool, run_round, delete_worker,
}
use vector_engine.Worker.Answers.{
  answers, batch_replies, has_stop_marker, sent, run_round-replies, delete_worker-replies,
}

abbrev hello : RespCommand
hello = record { name = codes "hello"; args = [] }

-- A stand-in for the function that the sources do not implement.
abbrev no_reply : TaskOutput → Bytes
no_reply output = []

abbrev batches : List BatchTask
batches =
    batch 0 (ping_task ∷ []) resp_response_builder
    ∷ stop_marker
    ∷ batch 10 (unknown_task hello ∷ []) resp_response_builder
    ∷ []

run_round-replies_example :
    (sent no_reply (run_round no_reply batches [] false).0 ≡ batch_replies no_reply batches)
    × ((run_round no_reply batches [] false).1 ≡ (false || has_stop_marker no_reply batches))
run_round-replies_example = run_round-replies no_reply batches false

abbrev idle : Worker
idle = record { tasks = [] }

abbrev pool : WorkerPool
pool = record { size = 3; workers = λ i. some idle }

abbrev at_hand : List BatchTask
at_hand = batch 3 (ping_task ∷ []) resp_response_builder ∷ []

-- A worker that is stopped behind one batch at hand and a queue.
delete_worker-replies_example :
    (sends : List (List Reply)) × (delete_worker no_reply at_hand (record { tasks = batches })
      ≡ ok sends)
    × (sent no_reply sends ≡ batch_replies no_reply at_hand ++ batch_replies no_reply batches)
delete_worker-replies_example = delete_worker-replies no_reply at_hand (record { tasks = batches })

-- An unknown command whose name a client has taken from a line of its own.
abbrev split_name : RespCommand
split_name = record { name = codes "a\r\n+PONG"; args = [] }

answers-IsLines_example :
    IsLines
      (codes "+PONG" ∷ codes "-unknown command: hello" ∷ [])
      (answers no_reply resp_response_builder (map create (ping ∷ hello ∷ [])))
unfolding bytes_eq to_lower
answers-IsLines_example =
    answers-IsLines no_reply (ping ∷ hello ∷ [])
      (is_plain-IsPlain (codes "Ping") refl, (is_plain-IsPlain (codes "hello") refl, tt))

unknown_adds_line_example :
    first_line (answers no_reply resp_response_builder (create split_name ∷ []))
    ≡ some (codes "-unknown command: a", codes "+PONG\r\n")
unfolding to_lower
unknown_adds_line_example =
    unknown_adds_line no_reply split_name (codes "a") (codes "+PONG")
      (is_plain-IsPlain (codes "a") refl) (λ e. cc) refl
