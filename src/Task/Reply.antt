-- ===== src/Task/Reply.antt =====
-- The answer to a command: ping_task.cpp and unknown_task.cpp.
use vector_engine.Common.{◌≡◌, ◌≢◌, sym, inl, inr, ◌++◌, codes, Bool-cases}
use vector_engine.Str.{to_lower, bytes_eq}
use vector_engine.Str.Affix.{bytes_eq→eq, bytes_eq_self}
use vector_engine.Resp.Command.{RespCommand, crlf}
use vector_engine.Task.{ping_task, unknown_task, run, to_resp_reply, create}

-- A command whose name is "ping" in any case makes a ping task.
pub create_ping : (c : RespCommand) → to_lower c.name ≡ codes "ping" → create c ≡ ping_task
unfolding create
create_ping c e = rw (e, create, bytes_eq_self (codes "ping"))

-- Any other command makes an unknown task that holds it.
pub create_unknown : (c : RespCommand) → to_lower c.name ≢ codes "ping" → create c ≡ unknown_task c
unfolding create
create_unknown c ne = elim (Bool-cases (bytes_eq (codes "ping") (to_lower c.name))) [
  | inl same ↦ absurd (ne (sym (bytes_eq→eq _ _ same)))
  | inr other ↦ rw (other, create)
]

-- The answer to a command is PONG if its name is "ping" in any case of its letters, and otherwise
-- an error with the name as the client sent it.
pub answer_of_command :
    (c : RespCommand)
    → (to_lower c.name ≡ codes "ping" → to_resp_reply (run (create c)) ≡ codes "+PONG\r\n")
      × (to_lower c.name ≢ codes "ping"
          → to_resp_reply (run (create c)) ≡ codes "-unknown command: " ++ (c.name ++ crlf))
unfolding run to_resp_reply
answer_of_command c = (λ e. rw (create_ping c e), λ ne. rw (create_unknown c ne))
