-- ===== src/Task.antt =====
-- task.h, ping_task, unknown_task, and `RespTaskCreator` of resp.h and resp.cpp. The classes below
-- `Task` and `TaskOutput` are the constructors of two types, and a virtual call is a split on
-- them; a unique pointer to a task is the task. Each task is run once: `UnknownTask::run` moves
-- its command out.
pub mod Reply
pub mod Creator
pub mod Class
use vector_engine.Common.{
  Bool, List, [], ◌∷◌, ◌++◌, Option, none, some, Bytes, codes, if◌then◌else◌,
}
use vector_engine.Str.{to_lower, bytes_eq}
use vector_engine.Resp.Command.{RespCommand}
use vector_engine.Resp.Reply.{append_simple_string, append_error}

-- `PingTask` and its output hold nothing.
pub record PingTask : Type 0 where

pub record PingTaskOutput : Type 0 where

pub record UnknownTask : Type 0 where
  pub cmd : RespCommand

pub record UnknownOutput : Type 0 where
  pub cmd : RespCommand

pub data Task : Type 0 where
  ping : PingTask → Task
  unknown : UnknownTask → Task

pub data TaskOutput : Type 0 where
  ping_output : PingTaskOutput → TaskOutput
  unknown_output : UnknownOutput → TaskOutput

-- `PingTask::run`.
unfoldable pub run_ping : PingTask → PingTaskOutput
run_ping task = record {}

-- `UnknownTask::run`.
unfoldable pub run_unknown : UnknownTask → UnknownOutput
run_unknown task = record { cmd = task.cmd }

unfoldable pub run : Task → TaskOutput
unfolding run_ping run_unknown
run (ping task) = ping_output (run_ping task)
run (unknown task) = unknown_output (run_unknown task)

-- `PingTask::from_resp_command` ignores the command.
unfoldable pub ping_from_resp_command : PingTask → RespCommand → PingTask
ping_from_resp_command task cmd = task

unfoldable pub unknown_from_resp_command : UnknownTask → RespCommand → UnknownTask
unknown_from_resp_command task cmd = record task { cmd = cmd }

unfoldable pub from_resp_command : Task → RespCommand → Task
unfolding ping_from_resp_command unknown_from_resp_command
from_resp_command (ping task) cmd = ping (ping_from_resp_command task cmd)
from_resp_command (unknown task) cmd = unknown (unknown_from_resp_command task cmd)

pub unknown_command : Bytes
unknown_command = codes "unknown command: "

-- `PingTaskOutput::to_resp_reply`.
unfoldable pub ping_to_resp_reply : PingTaskOutput → Bytes
unfolding append_simple_string
ping_to_resp_reply output = append_simple_string (codes "PONG") []

-- `UnknownOutput::to_resp_reply`.
unfoldable pub unknown_to_resp_reply : UnknownOutput → Bytes
unfolding append_error unknown_command
unknown_to_resp_reply output = append_error (unknown_command ++ output.cmd.name) []

unfoldable pub to_resp_reply : TaskOutput → Bytes
unfolding ping_to_resp_reply unknown_to_resp_reply
to_resp_reply (ping_output output) = ping_to_resp_reply output
to_resp_reply (unknown_output output) = unknown_to_resp_reply output

-- A task as its constructor leaves it.
abbrev pub ping_task : Task
ping_task = ping (record {})

abbrev pub empty_unknown_task : UnknownTask
empty_unknown_task = record { cmd = record { name = []; args = [] } }

abbrev pub unknown_task : RespCommand → Task
unknown_task cmd = unknown (record { cmd = cmd })

-- `create_resp_task<T>`, for the task that `T`'s constructor makes.
unfoldable pub create_resp_task : Task → RespCommand → Task
create_resp_task task cmd = from_resp_command task cmd

unfoldable pub make_unknown_task : RespCommand → Task
unfolding unknown_from_resp_command
make_unknown_task cmd = unknown (unknown_from_resp_command empty_unknown_task cmd)

-- The class holds one static map.
pub record RespTaskCreator : Type 0 where
  pub creators : List (Bytes × (RespCommand → Task))

-- `RespTaskCreator::_creators`.
unfoldable pub resp_creators : RespTaskCreator
unfolding create_resp_task from_resp_command
resp_creators = record { creators = (codes "ping", create_resp_task ping_task) ∷ [] }

-- `unordered_map::find` of a name.
unfoldable pub find {ℓ} : {A : Type ℓ} → Bytes → List (Bytes × A) → Option A
find name [] = none
find name ((key, creator) ∷ rest) = if bytes_eq key name then some creator else find name rest

unfoldable pub create : RespCommand → Task
unfolding find resp_creators make_unknown_task
create cmd = elim (find (to_lower cmd.name) resp_creators.creators) [
  | none ↦ make_unknown_task cmd
  | some creator ↦ creator cmd
]
