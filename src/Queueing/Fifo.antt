-- ===== src/Queueing/Fifo.antt =====
-- The order in which the executor starts what waits.
use claw_crony.Base.{
  ℕ, zero, suc, ◌+◌, ◌≤◌, ◌≡◌, refl, sym, String, ◌∙◌, inl, inr, List-cases, none, some, List, [],
  ◌∷◌, ◌++◌, arith, length, find?, ap,
}
use claw_crony.Queueing.{
  Entry, Executor, Running, Outcome, has_id, queue_delete, started, run_entry, is_run, remove_run,
  drain, close_run, settle,
}
use claw_crony.Queueing.Bounds.{IsBusy, run_serial, length-run_entry}

pub drain_full : (fuel now : ℕ) (s : Executor) → s.max_concurrent ≤ s.active → drain fuel now s ≡ s
unfolding drain
drain_full zero now s h = refl
drain_full (suc fuel) now s h = ground arith

pub queue_delete-none :
    (id : String) (q : List Entry) → find? (has_id id) q ≡ none → queue_delete id q ≡ q
unfolding queue_delete
queue_delete-none id [] h = refl
queue_delete-none id (e ∷ es) h = ground (arith, queue_delete-none id es)

drain_empty : (fuel now : ℕ) (s : Executor) → s.queue ≡ [] → drain fuel now s ≡ s
unfolding drain
drain_empty zero now s h = refl
drain_empty (suc fuel) now s h = ground arith

nil_of_length : (q : List Entry) → length q ≤ 0 → q ≡ []
nil_of_length [] h = refl
nil_of_length (e ∷ es) h = absurd (omega arith)

-- Fuel for the whole queue is enough for `drainQueue`: any two such amounts give the same result.
pub drain_fuel :
    (f g now : ℕ) (s : Executor)
    → length s.queue ≤ f
    → length s.queue ≤ g
    → drain f now s ≡ drain g now s
unfolding drain
drain_fuel zero g now s h k = sym (drain_empty g now s (nil_of_length s.queue h))
drain_fuel (suc f) zero now s h k = drain_empty (suc f) now s (nil_of_length s.queue k)
drain_fuel (suc f) (suc g) now s h k = elim (List-cases s.queue) [
  | inl empty ↦ drain_empty (suc f) now s empty ∙ sym (drain_empty (suc g) now s empty)
  | inr (e, es, waiting) ↦
      let s' : Executor = record s { queue = es } in
      rw (waiting, drain)
        (ground (
          arith,
          ap (length {A = Entry}) waiting,
          drain_fuel f g now (run_entry e now s'),
          length-run_entry e now s',
        ))
]

run_entry-full :
    (e : Entry) (now : ℕ) (s : Executor)
    → s.active + 1 ≡ s.max_concurrent
    → (run_entry e now s).max_concurrent ≤ (run_entry e now s).active
unfolding run_entry
run_entry-full e now s h = omega arith

drain_one :
    (fuel now : ℕ) (s : Executor) (e : Entry) (es : List Entry)
    → s.queue ≡ e ∷ es
    → s.active + 1 ≡ s.max_concurrent
    → drain (suc fuel) now s ≡ run_entry e now (record s { queue = es })
unfolding drain
drain_one fuel now s e es waiting free =
    let s' : Executor = record s { queue = es } in
    let full = run_entry-full e now s' free in
    rw (waiting, drain) (ground (arith, drain_full fuel now (run_entry e now s') full))

pub settle-eq-run_entry :
    (k : ℕ) (out : Outcome) (now : ℕ) (s : Executor) (r : Running) (e : Entry) (es : List Entry)
    → IsBusy s
    → find? (is_run k) s.running ≡ some r
    → s.queue ≡ e ∷ es
    → settle k out now s ≡ run_entry e now (record (close_run r out now s) { queue = es })
unfolding settle close_run
settle-eq-run_entry k out now s r e es v found waiting =
    let n = ap (length {A = Entry}) waiting in
    rw (found, settle)
      (drain_fuel (length s.queue) (suc (length es)) now (close_run r out now s) (omega arith)
          (omega arith)
        ∙ drain_one (length es) now (close_run r out now s) e es waiting (omega (arith, v)))

-- When a running task ends while entries wait, the first one starts in its place, at the end of the
-- list of those that run, and of the rest only one with its task id goes.
pub settle-head :
    (k : ℕ) (out : Outcome) (now : ℕ) (s : Executor) (r : Running) (e : Entry) (es : List Entry)
    → IsBusy s
    → find? (is_run k) s.running ≡ some r
    → s.queue ≡ e ∷ es
    → ((settle k out now s).queue ≡ queue_delete e.request.task_id es)
      × ((settle k out now s).running ≡ remove_run k s.running ++ started e now ∷ [])
unfolding run_entry close_run
settle-head k out now s r e es v found waiting =
    let one = settle-eq-run_entry k out now s r e es v found waiting in
    (
      ap (λ (t : Executor). t.queue) one,
      ap (λ (t : Executor). t.running) one
          ∙ ap (λ j. remove_run j s.running ++ started e now ∷ []) (run_serial k s.running r found),
    )
