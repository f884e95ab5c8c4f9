-- ===== src/System/Unmarked.antt =====
-- That no worker of worker.cpp finds a stop marker while the reactor of reactor.cpp lives.
use vector_engine.Common.{ℕ, List, [], ◌∷◌, All}
use vector_engine.Connection.{Effect, dispatch, close}
use vector_engine.Worker.{BatchTask, batch, stop_marker, WorkerUPtr}
use vector_engine.System.{batches_of}
use vector_engine.System.Held.{IsHeld}

abbrev pub IsBatch : BatchTask → Type 0
IsBatch (batch id ts builder) = Unit
IsBatch stop_marker = ⊥

-- No worker holds a stop marker.
abbrev pub IsUnmarked : (ℕ → List BatchTask) → (ℕ → WorkerUPtr) → Type 0
IsUnmarked hands workers = IsHeld IsBatch hands workers

-- A connection submits no marker.
pub batches_of-IsBatch : (es : List Effect) → All IsBatch (batches_of es)
batches_of-IsBatch [] = tt
batches_of-IsBatch (close ∷ es) = batches_of-IsBatch es
batches_of-IsBatch (dispatch id ts builder ∷ es) = (tt, batches_of-IsBatch es)
