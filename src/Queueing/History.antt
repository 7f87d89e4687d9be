-- ===== src/Queueing/History.antt =====
-- Whole histories: no entry is lost or answered twice while waiting task ids differ, and what
-- happens when they do not.
use claw_crony.Base.{
  ℕ, ◌+◌, ◌≤◌, ◌<◌, sym, subst, ◌≡◌, ◌≢◌, refl, ◌∙◌, some, List, [], ◌∷◌, arith, find?, ap, count,
  count-append, bit, ltb,
}
use claw_crony.Queueing.{
  Entry, Executor, Running, Outcome, Call, init, is_run, has_id, queue_delete, started, run_entry,
  close_run, settle, step, run,
}
use claw_crony.Queueing.Bounds.{IsBusy}
use claw_crony.Queueing.Counts.{custody, DistinctIds, is_entry, count-queue_delete}
use claw_crony.Queueing.Custody.{AllFresh, makes, submissions, step-Moves, custody-close_run}
use claw_crony.Queueing.Fifo.{settle-eq-run_entry}

makes_le : (c : Call) → makes c ≤ 1
makes_le c = ground arith

custody-run_from :
    (n : ℕ) (cs : List (ℕ × Call)) (s : Executor)
    → AllFresh cs s
    → DistinctIds s.queue
    → custody n s ≡ bit (ltb n s.next_serial)
    → custody n (run cs s) ≡ bit (ltb n (s.next_serial + submissions cs))
unfolding run
custody-run_from n [] s _ d h = ground arith
custody-run_from n ((now, c) ∷ cs) s (fresh, later) d h =
    let m = step-Moves n now c s fresh d in
    let here : custody n (step now c s) ≡ bit (ltb n (step now c s).next_serial) =
      ground (arith, m.held, m.serials, makes_le c) in
    custody-run_from n cs (step now c s) later m.distinct here ∙ ground (arith, m.serials)

custody-run_none :
    (n : ℕ) (cs : List (ℕ × Call)) (s : Executor)
    → n < s.next_serial
    → custody n s ≡ 0
    → AllFresh cs s
    → DistinctIds s.queue
    → custody n (run cs s) ≡ 0
unfolding run
custody-run_none n [] s old h fresh d = h
custody-run_none n ((now, c) ∷ cs) s old h (fresh, later) d =
    let m = step-Moves n now c s fresh d in
    let older : n < (step now c s).next_serial = (let k = m.serials in omega arith) in
    let here : custody n (step now c s) ≡ 0 = ground (arith, m.held, makes_le c) in
    custody-run_none n cs (step now c s) older here later m.distinct

-- In a history in which no request has the task id of an entry that waits, each of the entries that
-- were made, numbered from 0, is at the end in exactly one place: it waits, or it runs, or its
-- promise was settled once.
pub custody-run :
    (max_concurrent max_queued n : ℕ) (cs : List (ℕ × Call))
    → AllFresh cs (init max_concurrent max_queued)
    → custody n (run cs (init max_concurrent max_queued)) ≡ bit (ltb n (submissions cs))
unfolding init
custody-run c q n cs fresh = custody-run_from n cs (init c q) fresh tt (ground arith) ∙ ground arith

queue-close_run :
    (r : Running) (out : Outcome) (now : ℕ) (s : Executor) → (close_run r out now s).queue ≡ s.queue
unfolding close_run
queue-close_run r out now s = refl

custody-run_entry_drop :
    (now : ℕ) (t : Executor) (a b : Entry) (es : List Entry)
    → t.queue ≡ a ∷ es
    → find? (has_id a.request.task_id) es ≡ some b
    → custody b.serial t ≡ 1
    → a.serial ≢ b.serial
    → ((run_entry a now (record t { queue = es })).queue ≡ queue_delete a.request.task_id es)
      × (custody b.serial (run_entry a now (record t { queue = es })) ≡ 0)
unfolding run_entry
custody-run_entry_drop now t a b es waiting twice once other = ground (
  arith,
  count-queue_delete (is_entry b.serial) a.request.task_id es b twice,
  ap (count (is_entry b.serial)) waiting,
  count-append (is_run b.serial) t.running (started a now ∷ []),
)

next_serial-settle :
    (k : ℕ) (out : Outcome) (now : ℕ) (s : Executor) (r : Running) (a : Entry) (es : List Entry)
    → IsBusy s
    → find? (is_run k) s.running ≡ some r
    → s.queue ≡ a ∷ es
    → (settle k out now s).next_serial ≡ s.next_serial
unfolding run_entry close_run
next_serial-settle k out now s r a es v found waiting =
    ap (λ (t : Executor). t.next_serial) (settle-eq-run_entry k out now s r a es v found waiting)

settle-drop :
    (k : ℕ) (out : Outcome) (now : ℕ) (s : Executor) (r : Running) (a b : Entry) (es : List Entry)
    → IsBusy s
    → find? (is_run k) s.running ≡ some r
    → s.queue ≡ a ∷ es
    → find? (has_id a.request.task_id) es ≡ some b
    → custody b.serial s ≡ 1
    → a.serial ≢ b.serial
    → ((settle k out now s).queue ≡ queue_delete a.request.task_id es)
      × (custody b.serial (settle k out now s) ≡ 0)
settle-drop k out now s r a b es v found waiting twice once other =
    let t = close_run r out now s in
    rw (settle-eq-run_entry k out now s r a es v found waiting) (
      custody-run_entry_drop now t a b es (queue-close_run r out now s ∙ waiting) twice
        (custody-close_run b.serial k r out now s found ∙ once) other)

-- When a running task ends and the first waiting entry shares its task id with a later one, the
-- first such later entry is dropped: after every later history it neither waits nor runs, and its promise has not been settled. From
-- then on the waiting task ids differ and no request has the task id of an entry that waits.
pub settle-drops_duplicate :
    (k : ℕ) (out : Outcome) (now : ℕ) (s : Executor) (r : Running) (a b : Entry) (es : List Entry)
    (cs : List (ℕ × Call))
    → IsBusy s
    → find? (is_run k) s.running ≡ some r
    → s.queue ≡ a ∷ es
    → find? (has_id a.request.task_id) es ≡ some b
    → custody b.serial s ≡ 1
    → a.serial ≢ b.serial
    → b.serial < s.next_serial
    → DistinctIds (queue_delete a.request.task_id es)
    → AllFresh cs (settle k out now s)
    → ((settle k out now s).queue ≡ queue_delete a.request.task_id es)
      × (custody b.serial (run cs (settle k out now s)) ≡ 0)
settle-drops_duplicate k out now s r a b es cs v found waiting twice once other old distinct fresh =
    let (queue, gone) = settle-drop k out now s r a b es v found waiting twice once other in
    let n = next_serial-settle k out now s r a es v found waiting in
    (
      queue,
      custody-run_none b.serial cs (settle k out now s) (omega arith) gone fresh
          (subst DistinctIds (sym queue) distinct),
    )
