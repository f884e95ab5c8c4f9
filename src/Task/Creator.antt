-- ===== src/Task/Creator.antt =====
-- task.cpp: `TaskCreator::create`. No header declares the class, the type of its input or its map
-- of creators: all three are parameters.
use vector_engine.Common.{List, ◌++◌, none, some, Bytes, codes}
use vector_engine.Errors.{Outcome, ok, throws, engine}
use vector_engine.Task.{Task, find}

module _ {ℓ} {TaskInput : Type ℓ} where
  unfoldable pub create_by_type :
      List (Bytes × (TaskInput → Task)) → Bytes → TaskInput → Outcome Task
  create_by_type creators type input = elim (find type creators) [
    | none ↦ throws (engine (record { msg = codes "unknown task type: " ++ type }))
    | some creator ↦ ok (creator input)
  ]
