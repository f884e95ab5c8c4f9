-- ===== src/Main/Survive.antt =====
-- The program of main.cpp, whatever its clients send.
use vector_engine.Common.{
  ℕ, ◌≡◌, ◌≢◌, ◌≤◌, ==_self, refl, sym, subst, ◌∙◌, ◌⊎◌, inl, inr, [], ◌∷◌, ◌++◌, some, Bytes,
  length,
}
use vector_engine.Common.Maps.{find}
use vector_engine.Errors.{ok, ok-injective}
use vector_engine.Task.{TaskOutput}
use vector_engine.ReadBuffer.{Region, contents}
use vector_engine.Resp.Parser.Tame.{HasTrap}
use vector_engine.Connection.{Connection, on_alloc}
use vector_engine.Connection.Survive.{receive-Survives}
use vector_engine.Worker.{WorkerPool}
use vector_engine.Uv.{Libuv}
use vector_engine.Reactor.{Reactor}
use vector_engine.Logger.{Spdlog, Logger, default_logger_options}
use vector_engine.System.{System, Step, Steps, receives, IsReading}
use vector_engine.System.Held.{carry_out_ok}
use vector_engine.System.Connect.{started}
use vector_engine.System.Usable.{AreUsable, Steps-AreUsable}
use vector_engine.Main.{options, start}
use vector_engine.Main.Start.{Willing, start_lem}
use vector_engine.Main.Serve.{start-IsSound, reached-IsSound}

-- Once the program has started, no connection is in the map.
start-AreUsable :
    (uv : Libuv) (s : Spdlog) (l : s.SpdLogger) {logger : Logger s} {pool : WorkerPool}
    {r : Reactor}
    → s.rotating_logger default_logger_options.path default_logger_options.max_size
        default_logger_options.max_files
      ≡ ok l
    → Willing uv
    → start uv s ≡ ok (logger, pool, r)
    → AreUsable r
unfolding find
start-AreUsable uv s l opened w e =
    let (_, _, e', _) = start_lem uv s l opened w in
    subst (λ (q : Logger s × WorkerPool × Reactor). AreUsable q.2) (ok-injective (sym e' ∙ e))
      (λ k conn found. absurd (cc found))

-- Once the program of main.cpp has started, if the logger opened and libuv made its loop, its two
-- signals and a socket that listens, in every state that the loop and the workers reach, the loop
-- can take any read of any connection in the map that libuv reads from, whatever the bytes it
-- brings into the region that `on_alloc` gave: the read returns and its calls on the reactor
-- return, unless the buffer then holds a header that declares an argument of 2^64 - 2 bytes or
-- more, or more arguments than `reserve` grants. (A step of the loop is one that does not close
-- some connection `k` that is watched; the read is of another one.)
pub read_taken :
    (to_mcp_reply : TaskOutput → Bytes) (uv : Libuv) (s : Spdlog) (l : s.SpdLogger)
    (reserve_limit j k id suggested_size : ℕ) (bytes : Bytes) (s₁ : System) {logger : Logger s}
    {pool : WorkerPool} {r : Reactor} {conn c : Connection} {region : Region}
    → s.rotating_logger default_logger_options.path default_logger_options.max_size
        default_logger_options.max_files
      ≡ ok l
    → Willing uv
    → start uv s ≡ ok (logger, pool, r)
    → Steps to_mcp_reply reserve_limit j (started pool r) s₁
    → find id s₁.reactor.connections ≡ some conn
    → on_alloc conn suggested_size ≡ ok (c, region)
    → length bytes ≤ region.len
    → IsReading id s₁.calls
    → id ≢ k
    → ((s₂ : System) × Step to_mcp_reply reserve_limit k s₁ s₂
        × (s₂.reads id ≡ s₁.reads id ++ (suggested_size, bytes) ∷ []))
      ⊎ HasTrap reserve_limit (contents conn.read_buf ++ bytes)
read_taken to_mcp_reply uv s l reserve_limit j k id n bytes s₁ {r = r} {conn = conn} {c = c}
      {region = region} opened w e before found allocated fits heard other =
    let sound = reached-IsSound to_mcp_reply uv s l reserve_limit j s₁ opened w e before in
    let (valid, is_resp) =
      Steps-AreUsable options to_mcp_reply reserve_limit j refl before
        (start-IsSound uv s l opened w e) (start-AreUsable uv s l opened w e) id conn found in
    elim (receive-Survives reserve_limit conn c region n bytes valid is_resp allocated fits) [
      | inl t ↦
          let (p, submitted) = carry_out_ok t.es s₁.pool sound.staff in
          inl (
            _,
            receives s₁ id n bytes conn t.conn' t.es p found t.returns (λ same. absurd (other same))
                submitted heard,
            rw (==_self id),
          )
      | inr trap ↦ inr trap
    ]
