-- ===== src/Queueing/Bounds.antt =====
-- The limits of the queueing executor, and that it never idles while a task waits.
use claw_crony.Base.{
  ℕ, zero, suc, ◌+◌, ◌≤◌, ◌<◌, ◌≡◌, refl, sym, String, some, List, [], ◌∷◌, inl, inr, arith, length,
  length-append, find?, Option-cases, List-cases, ap, subst,
}
use claw_crony.Queueing.{
  Request, Entry, Executor, Running, Event, Outcome, Call, executes, cancels, observes, settles,
  init, admit, queue_delete, run_entry, reject_overload, enqueue, execute, cancel_queued, cancel,
  is_run, update_run, remove_run, observed, observe, drain, close_run, settle, step, run,
}

pub record IsBusy (s : Executor) : Type 0 where
  pub positive : 1 ≤ s.max_concurrent
  pub counted : s.active ≡ length s.running
  pub capacity : s.active ≤ s.max_concurrent
  pub bounded : length s.queue ≤ s.max_queued
  pub working : 0 < length s.queue → s.active ≡ s.max_concurrent

-- Before `drainQueue` a place may be free while tasks wait.
pub record IsCounted (s : Executor) : Type 0 where
  pub positive : 1 ≤ s.max_concurrent
  pub counted : s.active ≡ length s.running
  pub capacity : s.active ≤ s.max_concurrent
  pub bounded : length s.queue ≤ s.max_queued

pub length-queue_delete_le : (id : String) (q : List Entry) → length (queue_delete id q) ≤ length q
unfolding queue_delete
length-queue_delete_le id [] = omega arith
length-queue_delete_le id (e ∷ es) = ground (arith, length-queue_delete_le id es)

length-update_run :
    (f : Running → Running) (k : ℕ) (rs : List Running) → length (update_run f k rs) ≡ length rs
unfolding update_run
length-update_run f k [] = refl
length-update_run f k (r ∷ rs) = ground (arith, length-update_run f k rs)

length-remove_run :
    (k : ℕ) (rs : List Running) (r : Running)
    → find? (is_run k) rs ≡ some r
    → length (remove_run k rs) + 1 ≡ length rs
unfolding remove_run
length-remove_run k [] r h = cc
length-remove_run k (x ∷ rs) r h = ground (arith, length-remove_run k rs r)

pub run_serial :
    (k : ℕ) (rs : List Running) (r : Running) → find? (is_run k) rs ≡ some r → r.entry.serial ≡ k
run_serial k [] r h = cc
run_serial k (x ∷ rs) r h = ground (arith, run_serial k rs r)

run_entry-IsCounted :
    (e : Entry) (now : ℕ) (s : Executor)
    → IsCounted s
    → s.active < s.max_concurrent
    → IsCounted (run_entry e now s)
unfolding run_entry
run_entry-IsCounted e now s v h = record {
  positive = v.positive;
  counted = omega (arith, v.counted, length-append {0} s.running);
  capacity = omega arith;
  bounded = omega (arith, v.bounded, length-queue_delete_le e.request.task_id s.queue);
}

pub length-run_entry :
    (e : Entry) (now : ℕ) (s : Executor) → length (run_entry e now s).queue ≤ length s.queue
unfolding run_entry
length-run_entry e now s = length-queue_delete_le e.request.task_id s.queue

-- With as much fuel as the queue is long, `drainQueue` ends with the queue empty or all places taken.
pub drain-IsBusy :
    (fuel now : ℕ) (s : Executor) → IsCounted s → length s.queue ≤ fuel → IsBusy (drain fuel now s)
unfolding drain
drain-IsBusy zero now s v h = ground arith
drain-IsBusy (suc fuel) now s v h = elim (List-cases s.queue) [
  | inl empty ↦ rw (empty, drain) (ground arith)
  | inr (e, es, waiting) ↦
      let s' : Executor = record s { queue = es } in
      rw (waiting, drain)
        (ground (
          arith,
          ap (length {A = Entry}) waiting,
          drain-IsBusy fuel now (run_entry e now s'),
          run_entry-IsCounted e now s',
          length-run_entry e now s',
        ))
]

pub close_run-IsCounted :
    (r : Running) (out : Outcome) (now : ℕ) (s : Executor)
    → IsCounted s
    → find? (is_run r.entry.serial) s.running ≡ some r
    → IsCounted (close_run r out now s)
unfolding close_run
close_run-IsCounted r out now s v h =
    omega (arith, v, length-remove_run r.entry.serial s.running r h)

length-close_run :
    (r : Running) (out : Outcome) (now : ℕ) (s : Executor)
    → length (close_run r out now s).queue ≤ length s.queue
unfolding close_run
length-close_run r out now s = omega arith

IsBusy-IsCounted : {s : Executor} → IsBusy s → IsCounted s
IsBusy-IsCounted v = omega arith

init-IsBusy : (c q : ℕ) → IsBusy (init c q)
unfolding init
init-IsBusy c q = omega arith

-- With a free place the queue is empty.
run_entry-IsBusy :
    (e : Entry) (now : ℕ) (s : Executor)
    → IsBusy s
    → s.active < s.max_concurrent
    → IsBusy (run_entry e now s)
unfolding run_entry
run_entry-IsBusy e now s v h =
    let c = run_entry-IsCounted e now s (IsBusy-IsCounted v) h in
    record {
      positive = c.positive;
      counted = c.counted;
      capacity = c.capacity;
      bounded = c.bounded;
      working = λ w. absurd (omega (arith, v, length-queue_delete_le e.request.task_id s.queue));
    }

enqueue-IsBusy :
    (e : Entry) (s : Executor)
    → IsBusy s
    → s.max_concurrent ≤ s.active
    → length s.queue < s.max_queued
    → IsBusy (enqueue e s)
unfolding enqueue
enqueue-IsBusy e s v h k = omega (arith, v, length-append s.queue (e ∷ []))

execute-IsBusy : (r : Request) (now : ℕ) (s : Executor) → IsBusy s → IsBusy (execute r now s)
unfolding execute reject_overload
execute-IsBusy r now s v =
    let e : Entry = record { request = r; serial = s.next_serial } in
    let admitted : IsBusy (admit r s) = omega arith in
    ground
      (arith, run_entry-IsBusy e now (admit r s) admitted, enqueue-IsBusy e (admit r s) admitted)

cancel-IsBusy : (id : String) (s : Executor) → IsBusy s → IsBusy (cancel id s)
unfolding cancel cancel_queued
cancel-IsBusy id s v = ground (arith, length-queue_delete_le id s.queue)

observe-IsBusy : (k : ℕ) (event : Event) (s : Executor) → IsBusy s → IsBusy (observe k event s)
unfolding observe
observe-IsBusy k event s v = ground (arith, length-update_run (observed event) k s.running)

settle-IsBusy :
    (k : ℕ) (out : Outcome) (now : ℕ) (s : Executor) → IsBusy s → IsBusy (settle k out now s)
unfolding settle
settle-IsBusy k out now s v = elim (Option-cases (find? (is_run k) s.running)) [
  | inl missing ↦ rw (missing, settle) v
  | inr (r, found) ↦
      let same : r.entry.serial ≡ k = run_serial k s.running r found in
      rw (found, settle)
        (drain-IsBusy (length s.queue) now (close_run r out now s)
          (close_run-IsCounted r out now s (IsBusy-IsCounted v)
            (subst (λ j. find? (is_run j) s.running ≡ some r) (sym same) found))
          (length-close_run r out now s))
]

-- Every call keeps the limits.
pub step-IsBusy : (now : ℕ) (c : Call) (s : Executor) → IsBusy s → IsBusy (step now c s)
unfolding step
step-IsBusy now (executes r) s v = execute-IsBusy r now s v
step-IsBusy now (cancels id) s v = cancel-IsBusy id s v
step-IsBusy now (observes k event) s v = observe-IsBusy k event s v
step-IsBusy now (settles k out) s v = settle-IsBusy k out now s v

run-IsBusy_from : (cs : List (ℕ × Call)) (s : Executor) → IsBusy s → IsBusy (run cs s)
unfolding run
run-IsBusy_from [] s v = v
run-IsBusy_from ((now, c) ∷ cs) s v = run-IsBusy_from cs (step now c s) (step-IsBusy now c s v)

-- After any history of calls, completions and events, the number of active tasks is the number of
-- entries that run, at most `max(1, maxConcurrentTasks)`; at most `maxQueuedTasks` entries wait; and
-- none waits while a place is free.
pub run-init-IsBusy :
    (max_concurrent max_queued : ℕ) (cs : List (ℕ × Call))
    → IsBusy (run cs (init max_concurrent max_queued))
run-init-IsBusy c q cs = run-IsBusy_from cs (init c q) (init-IsBusy c q)
