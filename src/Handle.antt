-- ===== src/Handle.antt =====
-- uv_utils.h and uv_utils.cpp: the handles of libuv, what their `data` points to, and the deleter
-- of the loop. `none` is a null pointer.
use vector_engine.Common.{
  ℕ, zero, ℤ, pos, Bool, true, false, List, [], ◌∷◌, ◌++◌, Option, none, some,
}
use vector_engine.Errors.{Outcome, ok, undefined}

-- The C types that the functions are used at.
pub data HandleKind : Type 0 where
  handle_kind stream_kind tcp_kind async_kind write_kind : HandleKind

pub data AddressFamily : Type 0 where
  unspecified inet inet6 : AddressFamily

-- What a `data` points to: the reactor, the connection of an id, the context of a write.
pub data Owner : Type 0 where
  of_reactor : Owner
  of_connection of_context : ℕ → Owner

-- A handle or request; `family` is that of a TCP handle.
pub record Handle : Type 0 where
  pub kind : HandleKind
  pub family : AddressFamily
  pub user_data : Option Owner

-- A unique pointer owns a handle, or nothing.
abbrev pub UPtr {ℓ} : Type ℓ → Type ℓ
UPtr A = Option A

-- The static assertions of the two casts.
pub is_handle : HandleKind → Bool
is_handle write_kind = false
is_handle _ = true

pub is_stream : HandleKind → Bool
is_stream stream_kind = true
is_stream tcp_kind = true
is_stream _ = false

-- A cast gives the same object under another type; `none` where it does not compile.
unfoldable pub to_handle : Handle → Option Handle
unfolding is_handle
to_handle h = elim (is_handle h.kind) [
  | true ↦ some (record h { kind = handle_kind })
  | false ↦ none
]

unfoldable pub to_stream : Handle → Option Handle
unfolding is_stream
to_stream h = elim (is_stream h.kind) [
  | true ↦ some (record h { kind = stream_kind })
  | false ↦ none
]

unfoldable pub set_data : UPtr Handle → Option Owner → Outcome Handle
set_data none data_ptr = undefined
set_data (some h) data_ptr = ok (record h { user_data = data_ptr })

unfoldable pub get_data : UPtr Handle → Outcome (Option Owner)
get_data none = undefined
get_data (some h) = ok h.user_data

-- The call of `uv_close`, with or without a callback.
unfoldable pub handle_close : Handle → Bool → Option (Handle × Bool)
unfolding to_handle
handle_close h callback = elim (to_handle h) [ none ↦ none | some h' ↦ some (h', callback) ]

-- `make_write`: a request that holds the context.
unfoldable pub make_write : Option Owner → Outcome Handle
unfolding set_data
make_write data_ptr =
    set_data (some (record { kind = write_kind; family = unspecified; user_data = none })) data_ptr

-- The calls of the deleter on libuv, and the release of the loop's memory.
pub data LoopCall : Type 0 where
  loop_close loop_run loop_delete : LoopCall
  close_walked : Handle → LoopCall

-- The callback of `uv_walk`, over the handles that the loop holds.
unfoldable pub walk_loop : List (UPtr Handle) → List LoopCall
walk_loop [] = []
walk_loop (none ∷ hs) = walk_loop hs
walk_loop (some h ∷ hs) = close_walked h ∷ walk_loop hs

-- What the result of the first `uv_loop_close` decides.
unfoldable pub close_loop : ℤ → List (UPtr Handle) → List LoopCall
unfolding walk_loop
close_loop (pos zero) handles = loop_close ∷ loop_delete ∷ []
close_loop _ handles =
    loop_close ∷ (walk_loop handles ++ (loop_run ∷ loop_close ∷ loop_delete ∷ []))

abbrev pub LoopDeleter : Type 0
LoopDeleter = UPtr (List (UPtr Handle)) → List LoopCall

-- `LoopDeleter::operator()`.
unfoldable pub delete_loop : ℤ → LoopDeleter
unfolding close_loop
delete_loop close_err none = []
delete_loop close_err (some handles) = close_loop close_err handles
