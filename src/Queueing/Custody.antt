-- ===== src/Queueing/Custody.antt =====
-- What becomes of each entry: it waits, runs, or its promise has been settled, exactly once. The
-- exception is a task id that is queued twice.
use claw_crony.Base.{
  ℕ, zero, suc, ◌+◌, ◌≡◌, refl, sym, String, inl, inr, List-cases, none, some, List, [], ◌∷◌, arith,
  length, find?, ap, subst, count, count-append, bit, ◌==◌, Option-cases, if◌then◌else◌,
}
use claw_crony.Queueing.{
  Request, Entry, Executor, Running, Event, Outcome, Call, executes, cancels, observes, settles,
  admit, has_id, started, run_entry, reject_overload, enqueue, execute, cancel_queued, cancel,
  is_run, observe, drain, close_run, settle, step,
}
use claw_crony.Queueing.Bounds.{run_serial}
use claw_crony.Queueing.Counts.{
  is_entry, custody, DistinctIds, DistinctIds-append, queue_delete-DistinctIds, count-queue_delete,
  count-remove_run, count-update_run,
}
use claw_crony.Queueing.Fifo.{queue_delete-none}

-- A new request has a task id that no waiting entry has.
abbrev pub IsFresh : Call → Executor → Type 0
IsFresh (executes r) s = find? (has_id r.task_id) s.queue ≡ none
IsFresh _ s = Unit

abbrev pub AllFresh : List (ℕ × Call) → Executor → Type 0
AllFresh [] s = Unit
AllFresh ((now, c) ∷ cs) s = IsFresh c s × AllFresh cs (step now c s)

-- The number of entries that a call makes.
abbrev pub makes : Call → ℕ
makes (executes r) = 1
makes _ = 0

abbrev pub submissions : List (ℕ × Call) → ℕ
submissions [] = 0
submissions ((now, c) ∷ cs) = makes c + submissions cs

module _ (n : ℕ) where
  custody-run_entry :
      (e : Entry) (now : ℕ) (s : Executor)
      → find? (has_id e.request.task_id) s.queue ≡ none
      → custody n (run_entry e now s) ≡ custody n s + bit (is_entry n e)
  unfolding run_entry
  custody-run_entry e now s h =
      rw (queue_delete-none e.request.task_id s.queue h)
        (omega (arith, count-append (is_run n) s.running (started e now ∷ [])))

  queue-run_entry :
      (e : Entry) (now : ℕ) (s : Executor)
      → find? (has_id e.request.task_id) s.queue ≡ none
      → (run_entry e now s).queue ≡ s.queue
  unfolding run_entry
  queue-run_entry e now s h = queue_delete-none e.request.task_id s.queue h

  custody-drain :
      (fuel now : ℕ) (s : Executor)
      → DistinctIds s.queue
      → (custody n (drain fuel now s) ≡ custody n s) × DistinctIds (drain fuel now s).queue
  unfolding drain
  custody-drain zero now s d = (refl, d)
  custody-drain (suc fuel) now s d = elim (List-cases s.queue) [
    | inl empty ↦ rw (empty, drain) (ground (arith))
    | inr (e, es, waiting) ↦
        let s' : Executor = record s { queue = es } in
        let (fresh, d') = subst DistinctIds waiting d in
        rw (waiting, drain)
          (ground (
            arith,
            custody-drain fuel now (run_entry e now s'),
            custody-run_entry e now s' fresh,
            queue-run_entry e now s' fresh,
            ap (count (is_entry n)) waiting,
          ))
  ]

  pub custody-close_run :
      (k : ℕ) (r : Running) (out : Outcome) (now : ℕ) (s : Executor)
      → find? (is_run k) s.running ≡ some r
      → custody n (close_run r out now s) ≡ custody n s
  unfolding close_run
  custody-close_run k r out now s found =
      let same = run_serial k s.running r found in
      ground (
        arith,
        same,
        count-remove_run (is_run n) r.entry.serial s.running r
            (subst (λ j. find? (is_run j) s.running ≡ some r) (sym same) found),
      )

  custody-cancel_queued :
      (e : Entry) (id : String) (s : Executor)
      → find? (has_id id) s.queue ≡ some e
      → custody n (cancel_queued e id s) ≡ custody n s
  unfolding cancel_queued
  custody-cancel_queued e id s found =
      omega (arith, count-queue_delete (is_entry n) id s.queue e found)

  custody-execute :
      (r : Request) (now : ℕ) (s : Executor)
      → find? (has_id r.task_id) s.queue ≡ none
      → custody n (execute r now s) ≡ custody n s + bit (s.next_serial == n)
  unfolding execute reject_overload enqueue
  custody-execute r now s fresh =
      let e : Entry = record { request = r; serial = s.next_serial } in
      ground (
        arith,
        custody-run_entry e now (admit r s) fresh,
        count-append (is_entry n) s.queue (e ∷ []),
      )

  -- What one call does to the number of places where the entry is held.
  pub record Moves (c : Call) (s t : Executor) : Type 0 where
    pub held : custody n t ≡ custody n s + (if n == s.next_serial then makes c else 0)
    pub distinct : DistinctIds t.queue
    pub serials : t.next_serial ≡ s.next_serial + makes c

next_serial-drain : (fuel now : ℕ) (s : Executor) → (drain fuel now s).next_serial ≡ s.next_serial
unfolding drain run_entry
next_serial-drain zero now s = refl
next_serial-drain (suc fuel) now s = elim (List-cases s.queue) [
  | inl empty ↦ rw (empty, drain) refl
  | inr (e, es, waiting) ↦
      rw (waiting, drain)
        (ground (arith, next_serial-drain fuel now (run_entry e now (record s { queue = es }))))
]

execute-DistinctIds :
    (r : Request) (now : ℕ) (s : Executor)
    → find? (has_id r.task_id) s.queue ≡ none
    → DistinctIds s.queue
    → DistinctIds (execute r now s).queue
unfolding execute run_entry reject_overload enqueue
execute-DistinctIds r now s fresh d =
    let e : Entry = record { request = r; serial = s.next_serial } in
    ground
      (arith, queue_delete-DistinctIds r.task_id s.queue d, DistinctIds-append s.queue e d fresh)

module _ (n now : ℕ) where
  settle-Moves :
      (k : ℕ) (out : Outcome) (s : Executor)
      → DistinctIds s.queue
      → Moves n (settles k out) s (settle k out now s)
  unfolding settle
  settle-Moves k out s d = elim (Option-cases (find? (is_run k) s.running)) [
    | inl missing ↦
        rw (missing, settle) (record { held = ground arith; distinct = d; serials = omega arith })
    | inr (r, found) ↦
        let t = close_run r out now s in
        let (same, d') = custody-drain n (length s.queue) now t (distinct-close r out s d) in
        rw (found, settle)
          (record {
            held = ground (arith, same, custody-close_run n k r out now s found);
            distinct = d';
            serials =
                ground (arith, next_serial-drain (length s.queue) now t, serial-close r out s);
          })
  ]
    where
      distinct-close :
          (r : Running) (out : Outcome) (s : Executor)
          → DistinctIds s.queue
          → DistinctIds (close_run r out now s).queue
      distinct-close r out s d = unfold close_run in d

      serial-close :
          (r : Running) (out : Outcome) (s : Executor)
          → (close_run r out now s).next_serial ≡ s.next_serial
      serial-close r out s = unfold close_run in refl

  cancel-Moves :
      (id : String) (s : Executor) → DistinctIds s.queue → Moves n (cancels id) s (cancel id s)
  unfolding cancel
  cancel-Moves id s d = elim (Option-cases (find? (has_id id) s.queue)) [
    | inl missing ↦
        rw (missing, cancel) (record { held = ground arith; distinct = d; serials = omega arith })
    | inr (e, found) ↦
        rw (found, cancel)
          (record {
            held = ground (arith, custody-cancel_queued n e id s found);
            distinct = unfold cancel_queued in queue_delete-DistinctIds id s.queue d;
            serials = unfold cancel_queued in omega arith;
          })
  ]

  observe-Moves :
      (k : ℕ) (event : Event) (s : Executor)
      → DistinctIds s.queue
      → Moves n (observes k event) s (observe k event s)
  unfolding observe
  observe-Moves k event s d = record {
    held = ground (arith, count-update_run n event k s.running);
    distinct = ground arith;
    serials = ground arith;
  }

  pub step-Moves :
      (c : Call) (s : Executor) → IsFresh c s → DistinctIds s.queue → Moves n c s (step now c s)
  unfolding step
  step-Moves (executes r) s fresh d = record {
    held = ground (arith, custody-execute n r now s fresh);
    distinct = execute-DistinctIds r now s fresh d;
    serials = unfold execute run_entry reject_overload enqueue in ground arith;
  }
  step-Moves (cancels id) s _ d = cancel-Moves id s d
  step-Moves (observes k event) s _ d = observe-Moves k event s d
  step-Moves (settles k out) s _ d = settle-Moves k out s d
