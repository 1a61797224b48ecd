-- ===== src/Ingest/Supervisor/Backoff.antt =====
-- `run_session_loop` of crates/cluster-ingest/src/binance_supervisor.rs: how long it waits before it
-- connects again. Times are milliseconds.
use Prim.Native.Nat.{min}
use trading_terminal_cluster.Common.{
  ℕ, zero, suc, ◌*◌, ◌^◌, ◌≤◌, List, [], ◌∷◌, ◌++◌, Bool, true, false, Option, none, some, ◌≡◌, ap,
  inl, inr, ◌∙◌, arith,
}
use native.Mathlib.Nat.{pow-suc}
use native.Mathlib.Numerals.{unary_clauses}
use trading_terminal_cluster.Common.Lists.{All, replicate}
use trading_terminal_cluster.Common.Tests.{if◌then◌else◌, leb, Bool-cases}

-- What a turn of the loop meets: the shutdown, no routes yet, new routes, the session's end or its
-- error. During a wait the shutdown may come.
pub data Turn : Type 0 where
  shutdown no_routes routes_changed : Turn
  ended failed : Bool → Turn

-- What it does then: leave the loop, or go on after a wait with this backoff.
pub data Next : Type 0 where
  leave : Option ℕ → Next
  again : Option ℕ → ℕ → Next

module _ (backoff_min backoff_max : ℕ) where
  unfoldable pub session_turn : Turn → ℕ → Next
  session_turn shutdown backoff = leave none
  session_turn no_routes backoff = again none backoff
  session_turn routes_changed backoff = again none backoff
  session_turn (ended stop) backoff =
      if stop then leave (some backoff_min) else again (some backoff_min) backoff_min
  session_turn (failed stop) backoff =
      if stop then leave (some backoff) else again (some backoff) (min (backoff * 2) backoff_max)

  -- The waits of a loop, and its backoff if it goes on.
  unfoldable pub wait_then : Option ℕ → List ℕ → List ℕ
  wait_then none ws = ws
  wait_then (some w) ws = w ∷ ws

  unfoldable pub run_session_loop : List Turn → ℕ → List ℕ × Option ℕ
  unfolding session_turn wait_then
  run_session_loop [] backoff = ([], some backoff)
  run_session_loop (t ∷ ts) backoff = elim (session_turn t backoff) [
    | leave w ↦ (wait_then w [], none)
    | again w b ↦ let (ws, end) = run_session_loop ts b in (wait_then w ws, end)
  ]

  Between : ℕ → Type 0
  Between w = (backoff_min ≤ w) × (w ≤ backoff_max)

  -- Where the least backoff is at most the greatest, every wait of the loop lies between the two.
  run_session_loop-waits :
      (turns : List Turn) (backoff : ℕ)
      → backoff_min ≤ backoff_max
      → backoff_min ≤ backoff
      → backoff ≤ backoff_max
      → All (λ w. (backoff_min ≤ w) × (w ≤ backoff_max)) (run_session_loop turns backoff).0
  unfolding run_session_loop
  run_session_loop-waits [] backoff order low high = _
  run_session_loop-waits (shutdown ∷ ts) backoff order low high = _
  run_session_loop-waits (no_routes ∷ ts) backoff order low high =
      run_session_loop-waits ts backoff order low high
  run_session_loop-waits (routes_changed ∷ ts) backoff order low high =
      run_session_loop-waits ts backoff order low high
  run_session_loop-waits (ended true ∷ ts) backoff order low high = ((omega arith, order), _)
  run_session_loop-waits (ended false ∷ ts) backoff order low high =
      ((omega arith, order), run_session_loop-waits ts backoff_min order (omega arith) order)
  run_session_loop-waits (failed true ∷ ts) backoff order low high = ((low, high), _)
  run_session_loop-waits (failed false ∷ ts) backoff order low high = (
    (low, high),
    run_session_loop-waits ts (min (backoff * 2) backoff_max) order (omega arith) (omega arith),
  )

  doubled :
      (b p : ℕ)
      → 1 ≤ p
      → min (min (b * 2) backoff_max * p) backoff_max ≡ min (b * (p * 2)) backoff_max
  doubled b zero h = absurd (omega arith)
  doubled b (suc q) h = elim (Bool-cases (leb (b * 2) backoff_max)) [
    | inl low ↦ let m : min (b * 2) backoff_max ≡ b * 2 = ground arith in rw m (omega arith)
    | inr high ↦
        let m : min (b * 2) backoff_max ≡ backoff_max = ground arith in
        let over : backoff_max ≤ b * 2 = ground arith in rw m (omega arith)
  ]

  two_pow_pos : (k : ℕ) → 1 ≤ 2 ^ k
  two_pow_pos zero = omega arith
  two_pow_pos (suc k) = omega (arith, pow-suc 2 k, two_pow_pos k)

  failures :
      (k backoff : ℕ)
      → backoff ≤ backoff_max
      → (run_session_loop (replicate k (failed false)) backoff).1
        ≡ some (min (backoff * 2 ^ k) backoff_max)
  unfolding run_session_loop
  failures zero backoff high = ap some (omega arith)
  failures (suc k) backoff high =
      failures k (min (backoff * 2) backoff_max) (omega arith)
      ∙ ap some (doubled backoff (2 ^ k) (two_pow_pos k) ∙ simp unary_clauses)

  -- However the loop went before, once a session ends without an error the backoff is the least one
  -- again, and `k` errors in a row from there double it `k` times, up to the greatest.
  run_session_loop-failures :
      (turns : List Turn) (k backoff b : ℕ)
      → backoff_min ≤ backoff_max
      → (run_session_loop turns backoff).1 ≡ some b
      → (run_session_loop (turns ++ (ended false ∷ replicate k (failed false))) backoff).1
        ≡ some (min (backoff_min * 2 ^ k) backoff_max)
  unfolding run_session_loop
  run_session_loop-failures [] k backoff b order e = failures k backoff_min order
  run_session_loop-failures (shutdown ∷ ts) k backoff b order e = absurd (ground arith)
  run_session_loop-failures (no_routes ∷ ts) k backoff b order e =
      run_session_loop-failures ts k backoff b order e
  run_session_loop-failures (routes_changed ∷ ts) k backoff b order e =
      run_session_loop-failures ts k backoff b order e
  run_session_loop-failures (ended true ∷ ts) k backoff b order e = absurd (ground arith)
  run_session_loop-failures (ended false ∷ ts) k backoff b order e =
      run_session_loop-failures ts k backoff_min b order e
  run_session_loop-failures (failed true ∷ ts) k backoff b order e = absurd (ground arith)
  run_session_loop-failures (failed false ∷ ts) k backoff b order e =
      run_session_loop-failures ts k (min (backoff * 2) backoff_max) b order e
