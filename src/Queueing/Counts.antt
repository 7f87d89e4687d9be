-- ===== src/Queueing/Counts.antt =====
-- Counting the places where an entry is held: the queue, the running entries, and the answers that
-- the trace records.
use claw_crony.Base.{
  ℕ, ◌+◌, ◌≡◌, ◌≢◌, refl, String, Bool, false, none, some, List, [], ◌∷◌, ◌++◌, arith, find?, count,
  bit, ◌==◌, eq_iff,
}
use claw_crony.Queueing.{
  Entry, Executor, Running, Event, Effect, resolved, thrown, has_id, queue_delete, is_run,
  update_run, remove_run, observed,
}

abbrev pub answers_to : ℕ → Effect → Bool
answers_to n (resolved m) = m == n
answers_to n (thrown m text) = m == n
answers_to n _ = false

abbrev pub is_entry : ℕ → Entry → Bool
is_entry n e = e.serial == n

-- How often the entry waits, runs, or has been answered.
abbrev pub custody : ℕ → Executor → ℕ
custody n s = count (is_entry n) s.queue + count (is_run n) s.running + count (answers_to n) s.trace

abbrev pub DistinctIds : List Entry → Type 0
DistinctIds [] = Unit
DistinctIds (e ∷ es) = (find? (has_id e.request.task_id) es ≡ none) × DistinctIds es

pub find-append-none :
    (id : String) (q : List Entry) (e : Entry)
    → find? (has_id id) q ≡ none
    → e.request.task_id ≢ id
    → find? (has_id id) (q ++ e ∷ []) ≡ none
find-append-none id [] e h k = ground (arith, eq_iff e.request.task_id id)
find-append-none id (x ∷ q) e h k = ground (arith, find-append-none id q e)

pub DistinctIds-append :
    (q : List Entry) (e : Entry)
    → DistinctIds q
    → find? (has_id e.request.task_id) q ≡ none
    → DistinctIds (q ++ e ∷ [])
DistinctIds-append [] e d h = (refl, tt)
DistinctIds-append (x ∷ q) e (fresh, d) h = ground (
  arith,
  eq_iff x.request.task_id e.request.task_id,
  find-append-none x.request.task_id q e fresh,
  DistinctIds-append q e d,
)

find-queue_delete :
    (id j : String) (q : List Entry)
    → find? (has_id j) q ≡ none
    → find? (has_id j) (queue_delete id q) ≡ none
unfolding queue_delete
find-queue_delete id j [] h = refl
find-queue_delete id j (x ∷ q) h = ground (arith, find-queue_delete id j q)

pub queue_delete-DistinctIds :
    (id : String) (q : List Entry) → DistinctIds q → DistinctIds (queue_delete id q)
unfolding queue_delete
queue_delete-DistinctIds id [] d = tt
queue_delete-DistinctIds id (x ∷ q) (fresh, d) =
    ground (arith, queue_delete-DistinctIds id q d, find-queue_delete id x.request.task_id q fresh)

pub count-queue_delete :
    (p : Entry → Bool) (id : String) (q : List Entry) (e : Entry)
    → find? (has_id id) q ≡ some e
    → count p (queue_delete id q) + bit (p e) ≡ count p q
unfolding queue_delete
count-queue_delete p id [] e h = cc
count-queue_delete p id (x ∷ q) e h = ground (arith, count-queue_delete p id q e)

pub count-remove_run :
    (p : Running → Bool) (k : ℕ) (rs : List Running) (r : Running)
    → find? (is_run k) rs ≡ some r
    → count p (remove_run k rs) + bit (p r) ≡ count p rs
unfolding remove_run
count-remove_run p k [] r h = cc
count-remove_run p k (x ∷ rs) r h = ground (arith, count-remove_run p k rs r)

serial-observed : (event : Event) (r : Running) → (observed event r).entry ≡ r.entry
unfolding observed
serial-observed event r = ground arith

pub count-update_run :
    (n : ℕ) (event : Event) (k : ℕ) (rs : List Running)
    → count (is_run n) (update_run (observed event) k rs) ≡ count (is_run n) rs
unfolding update_run
count-update_run n event k [] = refl
count-update_run n event k (x ∷ rs) =
    ground (arith, count-update_run n event k rs, serial-observed event x)
