-- ===== src/Internal/Outbox/Delivery.antt =====
-- The relay's invariant: how often an entry is tried, and that no flush touches a dead entry.
use claw_crony.Base.{
  ℕ, ◌≤◌, ◌<◌, ◌≡◌, refl, inl, inr, String, false, ◌&&◌, some, List, [], ◌∷◌, arith, eq_iff,
  Bool-cases, Option-cases, subst,
}
use claw_crony.Base.Dict.{
  lookup, NodupKeys, lookup-nil, lookup-insert, lookup-erase, lookup-retain, insert-NodupKeys,
  erase-NodupKeys, retain-NodupKeys,
}
use claw_crony.Internal.Outbox.{
  sending, sent, Entry, OutboxConfig, Relay, idle, waiting, Outbox, init, enqueue, is_dead,
  get_pending, modify, mark_sending, mark_sent, mark_failed, fail_entry, remove, cleanup, send_next,
  is_idle, start_relay, stop_relay, tick, Answer, accepted, refused, threw, settle, answer_in,
  answer, Call, enqueues, removes, cleans, starts, stops, ticks, answers, step, run,
}
use claw_crony.Internal.Outbox.Batch.{
  times, EntryFits, IsLive, StoreFits, lookup-modify, modify-none, modify-NodupKeys,
  times-get_pending,
}

abbrev pub batch : Relay → List Entry
batch idle = []
batch (waiting e es) = e ∷ es

-- The entries of a batch have different ids, and those that are in the store are not dead.
pub record Ready (o : Outbox) (es : List Entry) : Type 0 where
  pub keys : NodupKeys o.store
  pub fits : StoreFits o.config o.store
  pub distinct : (k : String) → times k es ≤ 1
  pub live : (k : String) → 0 < times k es → IsLive (lookup k o.store)

abbrev pub IsValid : Outbox → Type 0
IsValid o = Ready o (batch o.relay)

-- A change of one entry keeps the rest of a batch ready.
modify-Ready :
    (f : Entry → Entry) (k : String) (o : Outbox) (es : List Entry)
    → NodupKeys o.store
    → StoreFits o.config o.store
    → ((j : String) → times j es ≤ 1)
    → ((j : String) → 0 < times j es → IsLive (lookup j o.store))
    → ((e : Entry)
        → lookup k o.store ≡ some e
        → EntryFits o.config k (some (f e)) × ((0 < times k es) → IsLive (some (f e))))
    → Ready (record o { store = modify f k o.store }) es
modify-Ready f k o es u fits distinct live h = elim (Option-cases (lookup k o.store)) [
  | inl missing ↦
      rw (modify-none f k o.store missing)
        (record { keys = u; fits = fits; distinct = distinct; live = live })
  | inr (e, found) ↦ record {
    keys = modify-NodupKeys f k o.store u;
    fits = λ j. ground (arith, fits j, eq_iff k j, lookup-modify f k j o.store e found, h e found);
    distinct = distinct;
    live = λ j. ground (arith, live j, eq_iff k j, lookup-modify f k j o.store e found, h e found);
  }
]

-- The first entry of a ready batch is marked as being sent.
send_next-IsValid : (es : List Entry) (o : Outbox) → Ready o es → IsValid (send_next es o)
unfolding send_next mark_sending
send_next-IsValid [] o r = record {
  keys = r.keys;
  fits = r.fits;
  distinct = r.distinct;
  live = r.live;
}
send_next-IsValid (e ∷ es) o r =
    let m =
      modify-Ready (λ x. record x { status = sending }) e.id o (e ∷ es) r.keys r.fits r.distinct
        r.live
        (λ x found.
          sendable x found (r.live e.id (ground (arith, eq_iff e.id e.id))) (r.fits e.id)) in
    record { keys = m.keys; fits = m.fits; distinct = m.distinct; live = m.live }
  where
    sendable :
        (x : Entry)
        → lookup e.id o.store ≡ some x
        → IsLive (lookup e.id o.store)
        → EntryFits o.config e.id (lookup e.id o.store)
        → EntryFits o.config e.id (some (record x { status = sending }))
          × (0 < times e.id (e ∷ es) → IsLive (some (record x { status = sending })))
    sendable x found l f = ground arith

fail_entry-fits :
    (config : OutboxConfig) (error k : String) (now jitter : ℕ) (e : Entry)
    → EntryFits config k (some e)
    → is_dead e.status ≡ false
    → EntryFits config k (some (fail_entry config error now jitter e))
unfolding fail_entry
fail_entry-fits config error k now jitter e f l = ground arith

mark-Ready :
    (f : Entry → Entry) (e : Entry) (es : List Entry) (o : Outbox)
    → ((x : Entry)
        → EntryFits o.config e.id (some x)
        → is_dead x.status ≡ false
        → EntryFits o.config e.id (some (f x)))
    → Ready o (e ∷ es)
    → Ready (record o { store = modify f e.id o.store }) es
mark-Ready f e es o keep r =
    modify-Ready f e.id o es r.keys r.fits (λ j. ground (arith, r.distinct j))
      (λ j. ground (arith, r.live j))
      (λ x found. (
        keep x (subst (EntryFits o.config e.id) found (r.fits e.id))
            (subst IsLive found (r.live e.id (ground (arith, eq_iff e.id e.id)))),
        λ again. absurd (ground (arith, r.distinct e.id, eq_iff e.id e.id)),
      ))

sent-fits :
    (config : OutboxConfig) (k : String) (x : Entry)
    → EntryFits config k (some x)
    → is_dead x.status ≡ false
    → EntryFits config k (some (record x { status = sent }))
sent-fits config k x f l = ground arith

-- The answer of `sendFn` settles its entry, which is not in the rest of the batch.
settle-Ready :
    (e : Entry) (es : List Entry) (a : Answer) (now jitter : ℕ) (o : Outbox)
    → Ready o (e ∷ es)
    → Ready (settle e.id a now jitter o) es
unfolding settle mark_sent mark_failed
settle-Ready e es accepted now jitter o r =
    mark-Ready (λ x. record x { status = sent }) e es o (sent-fits o.config e.id) r
settle-Ready e es refused now jitter o r =
    mark-Ready (fail_entry o.config "sendFn returned false" now jitter) e es o
      (fail_entry-fits o.config "sendFn returned false" e.id now jitter) r
settle-Ready e es (threw error) now jitter o r =
    mark-Ready (fail_entry o.config error now jitter) e es o
      (fail_entry-fits o.config error e.id now jitter) r

answer_in-IsValid :
    (r : Relay) (a : Answer) (now jitter : ℕ) (o : Outbox)
    → o.relay ≡ r
    → IsValid o
    → IsValid (answer_in r a now jitter o)
unfolding answer_in
answer_in-IsValid idle a now jitter o e v = v
answer_in-IsValid (waiting x xs) a now jitter o e v =
    send_next-IsValid xs (settle x.id a now jitter o)
      (settle-Ready x xs a now jitter o (subst (λ r. Ready o (batch r)) e v))

answer-IsValid :
    (a : Answer) (now jitter : ℕ) (o : Outbox) → IsValid o → IsValid (answer a now jitter o)
unfolding answer
answer-IsValid a now jitter o v = answer_in-IsValid o.relay a now jitter o refl v

get_pending-Ready : (now : ℕ) (o : Outbox) → IsValid o → Ready o (get_pending now o)
get_pending-Ready now o v = record {
  keys = v.keys;
  fits = v.fits;
  distinct = λ k. ground (arith, times-get_pending now k o v.keys v.fits);
  live = λ k. ground (arith, times-get_pending now k o v.keys v.fits);
}

enqueue-IsValid :
    (id payload : String) (now : ℕ) (o : Outbox) → IsValid o → IsValid (enqueue id payload now o)
unfolding enqueue
enqueue-IsValid id payload now o v = record {
  keys = insert-NodupKeys id _ o.store v.keys;
  fits = λ k. rw (lookup-insert id k _ o.store) (ground (arith, eq_iff id k, v.fits k));
  distinct = v.distinct;
  live = λ k. rw (lookup-insert id k _ o.store) (ground (arith, eq_iff id k, v.live k));
}

remove-IsValid : (id : String) (o : Outbox) → IsValid o → IsValid (remove id o)
unfolding remove
remove-IsValid id o v = record {
  keys = erase-NodupKeys id o.store v.keys;
  fits = λ k. rw (lookup-erase id k o.store) (ground (arith, v.fits k));
  distinct = v.distinct;
  live = λ k. rw (lookup-erase id k o.store) (ground (arith, v.live k));
}

cleanup-IsValid : (age now : ℕ) (o : Outbox) → IsValid o → IsValid (cleanup age now o)
unfolding cleanup
cleanup-IsValid age now o v = record {
  keys = retain-NodupKeys _ o.store v.keys;
  fits = λ k. rw (lookup-retain _ k o.store v.keys) (ground (arith, v.fits k));
  distinct = v.distinct;
  live = λ k. rw (lookup-retain _ k o.store v.keys) (ground (arith, v.live k));
}

tick-IsValid : (now : ℕ) (o : Outbox) → IsValid o → IsValid (tick now o)
unfolding tick
tick-IsValid now o v = elim (Bool-cases (o.timer && is_idle o.relay)) [
  | inl fires ↦ rw fires (send_next-IsValid (get_pending now o) o (get_pending-Ready now o v))
  | inr rests ↦ rw rests v
]

-- Every call of the outbox keeps the invariant.
pub step-IsValid : (now : ℕ) (c : Call) (o : Outbox) → IsValid o → IsValid (step now c o)
unfolding step start_relay stop_relay
step-IsValid now (enqueues id payload) o v = enqueue-IsValid id payload now o v
step-IsValid now (removes id) o v = remove-IsValid id o v
step-IsValid now (cleans age) o v = cleanup-IsValid age now o v
step-IsValid now starts o v = ground arith
step-IsValid now stops o v = ground arith
step-IsValid now ticks o v = tick-IsValid now o v
step-IsValid now (answers a jitter) o v = answer-IsValid a now jitter o v

run-IsValid_from : (cs : List (ℕ × Call)) (o : Outbox) → IsValid o → IsValid (run cs o)
unfolding run
run-IsValid_from [] o v = v
run-IsValid_from ((now, c) ∷ cs) o v = run-IsValid_from cs (step now c o) (step-IsValid now c o v)

-- After any history of the outbox and its relay: an entry stands under its id; it is dead exactly when
-- it has failed `max(1, maxRetries)` times, and has failed less often otherwise; the entries that a
-- flush has left have different ids, and none of them is dead.
pub run-init-IsValid :
    (config : OutboxConfig) (cs : List (ℕ × Call)) → IsValid (run cs (init config))
unfolding init
run-init-IsValid config cs = run-IsValid_from cs (init config) (record {
  keys = tt;
  fits = λ k. rw (lookup-nil k) tt;
  distinct = λ k. omega arith;
  live = λ k h. absurd (omega arith);
})
