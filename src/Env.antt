-- ===== src/Env.antt =====
-- What the processing hosts and the edge receivers take from the operating system and from the
-- coding libraries. The n-th reading of the clock and the outcome of the n-th `sendto` are fixed in
-- advance by two functions, and each program counts its readings and its sends.
use openmc.Common.{ℕ, suc, Bool, List, [], ◌∷◌, if◌then◌else◌}

pub record Env : Type 0 where
  -- `now_ns()`, CLOCK_MONOTONIC in nanoseconds
  pub clock : ℕ → ℕ
  -- whether `sendto` returned no error
  pub send_ok : ℕ → Bool

-- What a log, newest first, holds after these items were sent in turn, the first as the n-th send.
abbrev pub emit {ℓ} : {A : Type ℓ} → Env → ℕ → List A → List A → List A
emit env n [] log = log
emit env n (d ∷ ds) log = emit env (suc n) ds (if env.send_ok n then d ∷ log else log)
