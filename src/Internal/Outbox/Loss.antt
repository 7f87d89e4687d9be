-- ===== src/Internal/Outbox/Loss.antt =====
-- What takes an entry away.
use claw_crony.Base.{
  ℕ, ◌≡◌, ◌≢◌, inl, inr, String, ◌&&◌, none, some, List, [], ◌∷◌, arith, eq_iff, Bool-cases,
  Option-cases,
}
use claw_crony.Base.Dict.{
  Dict, lookup, insert, NodupKeys, lookup-insert, lookup-erase, lookup-retain,
}
use claw_crony.Internal.Outbox.{
  sent, Entry, Relay, idle, waiting, Outbox, enqueue, is_idle, get_pending, modify, mark_sending,
  mark_sent, mark_failed, remove, cleanup, send_next, start_relay, stop_relay, tick, Answer,
  accepted, refused, threw, settle, answer_in, answer, Call, enqueues, removes, cleans, starts,
  stops, ticks, answers, step,
}
use claw_crony.Internal.Outbox.Batch.{lookup-modify, modify-none}

-- There is an entry under the id.
abbrev pub Holds : String → Dict Entry → Type 0
Holds k d = lookup k d ≢ none

modify-Holds :
    (f : Entry → Entry) (k j : String) (d : Dict Entry) → Holds j d → Holds j (modify f k d)
modify-Holds f k j d h = elim (Option-cases (lookup k d)) [
  | inl missing ↦ rw (modify-none f k d missing) h
  | inr (x, there) ↦ rw (lookup-modify f k j d x there) (ground arith)
]

send_next-Holds :
    (es : List Entry) (k : String) (o : Outbox) → Holds k o.store → Holds k (send_next es o).store
unfolding send_next mark_sending
send_next-Holds [] k o h = h
send_next-Holds (x ∷ xs) k o h = modify-Holds _ x.id k o.store h

settle-Holds :
    (id k : String) (a : Answer) (now jitter : ℕ) (o : Outbox)
    → Holds k o.store
    → Holds k (settle id a now jitter o).store
unfolding settle mark_sent mark_failed
settle-Holds id k accepted now jitter o h = modify-Holds _ id k o.store h
settle-Holds id k refused now jitter o h = modify-Holds _ id k o.store h
settle-Holds id k (threw error) now jitter o h = modify-Holds _ id k o.store h

answer_in-Holds :
    (r : Relay) (k : String) (a : Answer) (now jitter : ℕ) (o : Outbox)
    → Holds k o.store
    → Holds k (answer_in r a now jitter o).store
unfolding answer_in
answer_in-Holds idle k a now jitter o h = h
answer_in-Holds (waiting x xs) k a now jitter o h =
    send_next-Holds xs k _ (settle-Holds x.id k a now jitter o h)

insert-Holds : (k j : String) (x : Entry) (d : Dict Entry) → Holds j d → Holds j (insert k x d)
insert-Holds k j x d h = rw (lookup-insert k j x d) (ground arith)

-- An entry that is not yet sent leaves the store only by `remove`: every other call, cleanups and
-- failed sends included, keeps it.
pub step-Holds :
    (now : ℕ) (c : Call) (k : String) (o : Outbox) (e : Entry)
    → NodupKeys o.store
    → lookup k o.store ≡ some e
    → e.status ≢ sent
    → c ≢ removes k
    → Holds k (step now c o).store
unfolding step enqueue remove cleanup start_relay stop_relay tick answer
step-Holds now (enqueues id payload) k o e u found unsent other =
    insert-Holds id k _ o.store (ground arith)
step-Holds now (removes id) k o e u found unsent other =
    rw (lookup-erase id k o.store) (ground (arith, eq_iff id k))
step-Holds now (cleans age) k o e u found unsent other =
    rw (lookup-retain _ k o.store u, found) (ground arith)
step-Holds now starts k o e u found unsent other = ground arith
step-Holds now stops k o e u found unsent other = ground arith
step-Holds now ticks k o e u found unsent other = elim (Bool-cases (o.timer && is_idle o.relay)) [
  | inl fires ↦ rw fires (send_next-Holds (get_pending now o) k o (ground arith))
  | inr rests ↦ rw rests (ground arith)
]
step-Holds now (answers a jitter) k o e u found unsent other =
    answer_in-Holds o.relay k a now jitter o (ground arith)
