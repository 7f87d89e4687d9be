-- ===== src/Internal/Idempotency/Tests.antt =====
-- Runs of the idempotency store, and its theorems at inputs where they apply.
use claw_crony.Base.{◌≡◌, refl, none, [], ◌∷◌, arith, if◌then◌else◌, str_eq}
use claw_crony.Base.Dict.{lookup, insert}
use claw_crony.Internal.Idempotency.{
  Store, new, duplicate, conflict, init, check, check_found, store, checks, cleans, run,
  start_cleanup, stop_cleanup,
}
use claw_crony.Internal.Idempotency.Replay.{check-store}

abbrev empty : Store
empty = init 2

abbrev one : Store
one = store "k" "f" "r" none 100 empty

expired : (check "k" "f" 2100 one).1 ≡ new
unfolding check check_found store init lookup insert
expired = refl

check-store_example :
    (check "k" "g" 2000 (run ((500, cleans) ∷ (600, checks "j" "x") ∷ []) one)).1
    ≡ (if str_eq "f" "g" then duplicate "r" else conflict)
unfolding init
check-store_example =
    check-store "k" "f" "r" "g" none 100 2000 ((500, cleans) ∷ (600, checks "j" "x") ∷ []) empty tt
      (omega arith) (omega arith)

timer_once : start_cleanup (start_cleanup empty) ≡ start_cleanup empty
unfolding start_cleanup init
timer_once = refl

timer_off : stop_cleanup (start_cleanup empty) ≡ empty
unfolding start_cleanup stop_cleanup init
timer_off = refl
