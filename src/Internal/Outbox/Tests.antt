-- ===== src/Internal/Outbox/Tests.antt =====
-- Runs of the outbox, and its theorems at inputs where they apply.
use claw_crony.Base.{ℕ, ◌≡◌, refl, String, none, List, [], ◌∷◌, map}
use claw_crony.Base.Dict.{lookup, insert, values}
use claw_crony.Base.Sort.{sort_by}
use claw_crony.Internal.Outbox.{
  Status, sending, sent, dead, Entry, OutboxConfig, Outbox, init, enqueue, get_pending, fail_entry,
  mark_failed, mark_sent, mark_sending, get_dead_letters, get_stats, send_next, start_relay, tick,
  accepted, refused, threw, settle, answer, Call, enqueues, starts, ticks, answers, step, run,
}
use claw_crony.Internal.Outbox.Delivery.{IsValid, run-init-IsValid}

abbrev config : OutboxConfig
config = record { max_retries = 2; base_delay_ms = 10; max_delay_ms = 1000 }

-- Two messages: `a` fails twice and is dead, `b` is sent.
abbrev history : List (ℕ × Call)
history =
    (0, starts)
    ∷ (1, enqueues "a" "x")
    ∷ (2, enqueues "b" "y")
    ∷ (5, ticks)
    ∷ (6, answers refused 3)
    ∷ (7, answers accepted 0)
    ∷ (60, ticks)
    ∷ (61, answers (threw "down") 0)
    ∷ []

statuses : List Entry → List (String × Status × ℕ)
statuses = map (λ e. (e.id, e.status, e.retry_count))

after_history :
    statuses (values (run history (init config)).store) ≡ ("a", dead, 2) ∷ ("b", sent, 0) ∷ []
unfolding statuses run step init start_relay enqueue tick send_next get_pending mark_sending answer
    settle mark_sent mark_failed fail_entry lookup insert values sort_by
after_history = refl

stats_after :
    get_stats (run history (init config))
    ≡ record { pending = 0; sending = 0; sent = 1; failed = 0; dead = 1 }
unfolding get_stats run step init start_relay enqueue tick send_next get_pending mark_sending answer
    settle mark_sent mark_failed fail_entry lookup insert values sort_by
stats_after = refl

dead_letter : statuses (get_dead_letters (run history (init config))) ≡ ("a", dead, 2) ∷ []
unfolding get_dead_letters statuses run step init start_relay enqueue tick send_next get_pending
    mark_sending answer settle mark_sent mark_failed fail_entry lookup insert values sort_by
dead_letter = refl

run-init-IsValid_example : IsValid (run history (init config))
run-init-IsValid_example = run-init-IsValid config history

-- The relay waits for the answer about `a`.
abbrev flushing : Outbox
flushing = run ((0, starts) ∷ (1, enqueues "a" "x") ∷ (5, ticks) ∷ []) (init config)

abbrev in_flight : Entry
in_flight = record {
  id = "a";
  status = sending;
  retry_count = 0;
  next_retry_at = 1;
  created_at = 1;
  last_error = none;
  payload = "x";
}
