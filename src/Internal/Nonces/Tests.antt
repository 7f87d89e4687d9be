-- ===== src/Internal/Nonces/Tests.antt =====
-- A run of the nonce cache, and the theorem at an input.
use claw_crony.Base.{ℕ, ◌≡◌, refl, true, false, List, [], ◌∷◌, arith}
use claw_crony.Base.Dict.{lookup, insert, erase, retain}
use claw_crony.Internal.Nonces.{add, add_unseen, has, cleanup, Call, adds, cleans, run}
use claw_crony.Internal.Nonces.Log.{log_run, run-log_run}

-- A replay at 15 is refused, and the nonce is free again at 20.
abbrev history : List (ℕ × Call)
history = (10, adds "n" 10) ∷ (15, adds "n" 10) ∷ (20, cleans) ∷ (20, adds "n" 5) ∷ []

replay_refused : run history [] ≡ true ∷ false ∷ true ∷ []
unfolding run add add_unseen cleanup lookup insert erase retain
replay_refused = refl

seen : has "n" (add "n" 10 10 []).0 ≡ true
unfolding has add add_unseen lookup insert
seen = refl

run-log_run_example : run history [] ≡ log_run history []
run-log_run_example = run-log_run history (omega arith)
