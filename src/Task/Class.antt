-- ===== src/Task/Class.antt =====
-- The abstract classes `Task` and `TaskOutput` of task.h, and the two pairs of classes below them:
-- ping_task.cpp and unknown_task.cpp. What a task answers depends on the command that it was made
-- of, and on nothing that it held before.
use vector_engine.Common.{◌≡◌, refl, Bytes}
use vector_engine.Resp.Command.{RespCommand}
use vector_engine.Task.{
  PingTask, PingTaskOutput, UnknownTask, UnknownOutput, run_ping, run_unknown,
  ping_from_resp_command, unknown_from_resp_command, ping_to_resp_reply, unknown_to_resp_reply,
}

pub record TaskClass (T O : Type 0) : Type 0 where
  pub from_command : T → RespCommand → T
  pub run_task : T → O
  pub reply : O → Bytes
  pub fresh_law :
      (t u : T) (cmd : RespCommand)
      → reply (run_task (from_command t cmd)) ≡ reply (run_task (from_command u cmd))

pub ping_fresh :
    (t u : PingTask) (cmd : RespCommand)
    → ping_to_resp_reply (run_ping (ping_from_resp_command t cmd))
      ≡ ping_to_resp_reply (run_ping (ping_from_resp_command u cmd))
unfolding run_ping
ping_fresh t u cmd = refl

pub unknown_fresh :
    (t u : UnknownTask) (cmd : RespCommand)
    → unknown_to_resp_reply (run_unknown (unknown_from_resp_command t cmd))
      ≡ unknown_to_resp_reply (run_unknown (unknown_from_resp_command u cmd))
unfolding unknown_from_resp_command
unknown_fresh t u cmd = refl

abbrev pub ping_class : TaskClass PingTask PingTaskOutput
ping_class = record {
  from_command = ping_from_resp_command;
  run_task = run_ping;
  reply = ping_to_resp_reply;
  fresh_law = ping_fresh;
}

abbrev pub unknown_class : TaskClass UnknownTask UnknownOutput
unknown_class = record {
  from_command = unknown_from_resp_command;
  run_task = run_unknown;
  reply = unknown_to_resp_reply;
  fresh_law = unknown_fresh;
}
