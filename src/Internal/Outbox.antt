-- ===== src/Internal/Outbox.antt =====
-- src/internal/outbox.ts: the outbox with its relay loop. Ids, times and jitter are arguments: ids
-- come from `randomUUID`, `Math.random() * baseDelayMs` is taken in whole milliseconds. The relay is a
-- state machine: `tick` is one firing of the timer up to the first `await sendFn(entry)`, `answer` is
-- the end of that promise and the loop up to the next one.
pub mod Batch
pub mod Delivery
pub mod Backoff
pub mod Causes
pub mod Loss
pub mod Tests
use claw_crony.Base.{
  ℕ, suc, ◌+◌, ◌-◌, ◌*◌, ◌^◌, min, String, Bool, true, false, not, ◌&&◌, ◌||◌, Option, none, some,
  List, [], ◌∷◌, leb, ltb, if◌then◌else◌, filter, count,
}
use claw_crony.Base.Dict.{Dict, lookup, insert, erase, retain, values}
use claw_crony.Base.Sort.{sort_by}

-- `OutboxStatus`
pub data Status : Type 0 where
  pending sending sent failed dead : Status

-- `OutboxEntry`; `payload` stands for the caller's own fields.
pub record Entry : Type 0 where
  pub id : String
  pub status : Status
  pub retry_count : ℕ
  pub next_retry_at : ℕ
  pub created_at : ℕ
  pub last_error : Option String
  pub payload : String

pub record OutboxConfig : Type 0 where
  pub max_retries : ℕ
  pub base_delay_ms : ℕ
  pub max_delay_ms : ℕ

-- Where the relay stands: it is not flushing, or it waits for `sendFn` with entries left.
pub data Relay : Type 0 where
  idle : Relay
  waiting : Entry → List Entry → Relay

pub record Outbox : Type 0 where
  pub config : OutboxConfig
  pub store : Dict Entry
  pub timer : Bool
  pub relay : Relay

pub init : OutboxConfig → Outbox
init config = record { config = config; store = []; timer = false; relay = idle }

pub enqueue : String → String → ℕ → Outbox → Outbox
enqueue id payload now o = record o {
  store =
      insert id
        (record {
          id = id;
          status = pending;
          retry_count = 0;
          next_retry_at = now;
          created_at = now;
          last_error = none;
          payload = payload;
        })
        o.store;
}

abbrev pub is_pending : Status → Bool
is_pending pending = true
is_pending _ = false

abbrev pub is_sent : Status → Bool
is_sent sent = true
is_sent _ = false

abbrev pub is_dead : Status → Bool
is_dead dead = true
is_dead _ = false

abbrev pub is_due : ℕ → Entry → Bool
is_due now e = is_pending e.status && leb e.next_retry_at now

pub get_pending : ℕ → Outbox → List Entry
get_pending now o = sort_by (λ e. e.created_at) (filter (is_due now) (values o.store))

-- A change of the entry with an id, where there is one.
pub modify : (Entry → Entry) → String → Dict Entry → Dict Entry
modify f id d = elim (lookup id d) [ none ↦ d | some e ↦ insert id (f e) d ]

pub mark_sending : String → Outbox → Outbox
unfolding modify
mark_sending id o = record o { store = modify (λ e. record e { status = sending }) id o.store }

pub mark_sent : String → Outbox → Outbox
unfolding modify
mark_sent id o = record o { store = modify (λ e. record e { status = sent }) id o.store }

abbrev pub delay_after : OutboxConfig → ℕ → ℕ → ℕ
delay_after config retries jitter =
    min (config.base_delay_ms * 2 ^ retries + jitter) config.max_delay_ms

-- The entry after a failed attempt.
pub fail_entry : OutboxConfig → String → ℕ → ℕ → Entry → Entry
fail_entry config error now jitter e =
    let retries = e.retry_count + 1 in
    if leb config.max_retries retries
    then record e { retry_count = retries; last_error = some error; status = dead }
    else record e {
      retry_count = retries;
      last_error = some error;
      status = pending;
      next_retry_at = now + delay_after config retries jitter;
    }

pub mark_failed : String → String → ℕ → ℕ → Outbox → Outbox
unfolding modify
mark_failed id error now jitter o = record o {
  store = modify (fail_entry o.config error now jitter) id o.store;
}

pub get_dead_letters : Outbox → List Entry
get_dead_letters o = filter (λ e. is_dead e.status) (values o.store)

-- `getStats`: how many entries have each status.
pub record Stats : Type 0 where
  pub pending : ℕ
  pub sending : ℕ
  pub sent : ℕ
  pub failed : ℕ
  pub dead : ℕ

abbrev pub tally : Status → Stats → Stats
tally pending t = record t { pending = t.pending + 1 }
tally sending t = record t { sending = t.sending + 1 }
tally sent t = record t { sent = t.sent + 1 }
tally failed t = record t { failed = t.failed + 1 }
tally dead t = record t { dead = t.dead + 1 }

pub count_stats : List Entry → Stats → Stats
count_stats [] t = t
count_stats (e ∷ es) t = count_stats es (tally e.status t)

pub get_stats : Outbox → Stats
unfolding count_stats
get_stats o =
    count_stats (values o.store)
      (record { pending = 0; sending = 0; sent = 0; failed = 0; dead = 0 })

pub remove : String → Outbox → Outbox
remove id o = record o { store = erase id o.store }

-- Keeps what was not sent, and what was created at `now - maxAgeMs` or later.
pub cleanup : ℕ → ℕ → Outbox → Outbox
cleanup max_age now o = record o {
  store = retain (λ e. not (is_sent e.status && ltb (e.created_at + max_age) now)) o.store;
}

-- The loop of the relay, from the next entry on.
pub send_next : List Entry → Outbox → Outbox
send_next [] o = record o { relay = idle }
send_next (e ∷ es) o = record (mark_sending e.id o) { relay = waiting e es }

pub start_relay : Outbox → Outbox
start_relay o = if o.timer then o else record o { timer = true }

pub stop_relay : Outbox → Outbox
stop_relay o = if o.timer then record o { timer = false } else o

abbrev pub is_idle : Relay → Bool
is_idle idle = true
is_idle (waiting e es) = false

pub tick : ℕ → Outbox → Outbox
tick now o = if o.timer && is_idle o.relay then send_next (get_pending now o) o else o

-- How `sendFn` ends.
pub data Answer : Type 0 where
  accepted refused : Answer
  threw : String → Answer

pub settle : String → Answer → ℕ → ℕ → Outbox → Outbox
settle id accepted now jitter o = mark_sent id o
settle id refused now jitter o = mark_failed id "sendFn returned false" now jitter o
settle id (threw error) now jitter o = mark_failed id error now jitter o

answer_in : Relay → Answer → ℕ → ℕ → Outbox → Outbox
answer_in idle a now jitter o = o
answer_in (waiting e es) a now jitter o = send_next es (settle e.id a now jitter o)

pub answer : Answer → ℕ → ℕ → Outbox → Outbox
unfolding answer_in
answer a now jitter o = answer_in o.relay a now jitter o

-- What a user of the class does, and what the timer and `sendFn` do.
pub data Call : Type 0 where
  enqueues : String → String → Call
  removes : String → Call
  cleans : ℕ → Call
  starts stops ticks : Call
  answers : Answer → ℕ → Call

pub step : ℕ → Call → Outbox → Outbox
step now (enqueues id payload) o = enqueue id payload now o
step now (removes id) o = remove id o
step now (cleans max_age) o = cleanup max_age now o
step now starts o = start_relay o
step now stops o = stop_relay o
step now ticks o = tick now o
step now (answers a jitter) o = answer a now jitter o

pub run : List (ℕ × Call) → Outbox → Outbox
run [] o = o
run ((now, c) ∷ cs) o = run cs (step now c o)
