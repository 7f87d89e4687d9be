-- ===== src/Internal/Outbox/Causes.antt =====
-- What makes an entry sent, and what takes an entry away.
use claw_crony.Base.{
  ℕ, ◌≡◌, ◌≢◌, ◌⊎◌, refl, sym, ◌∙◌, ap, inl, inr, String, Bool, false, ◌&&◌, some, List, [], ◌∷◌,
  arith, str_eq, eq_iff, Bool-cases, Option-cases,
}
use claw_crony.Base.Dict.{
  Dict, lookup, insert, retain, NodupKeys, lookup-insert, lookup-erase, lookup-retain,
}
use claw_crony.Internal.Outbox.{
  sent, Entry, OutboxConfig, Relay, idle, waiting, Outbox, enqueue, is_idle, get_pending, modify,
  mark_sending, mark_sent, mark_failed, fail_entry, remove, cleanup, send_next, start_relay,
  stop_relay, tick, Answer, accepted, refused, threw, settle, answer_in, answer, Call, enqueues,
  removes, cleans, starts, stops, ticks, answers, step,
}
use claw_crony.Internal.Outbox.Batch.{lookup-modify, modify-none}

-- The entry with an id is marked as sent.
abbrev pub IsSent : String → Outbox → Type 0
IsSent k o = (e : Entry) × (lookup k o.store ≡ some e) × (e.status ≡ sent)

modify-other :
    (f : Entry → Entry) (k j : String) (d : Dict Entry)
    → str_eq k j ≡ false
    → lookup j d ≡ lookup j (modify f k d)
modify-other f k j d other = elim (Option-cases (lookup k d)) [
  | inl missing ↦ sym (ap (lookup j) (modify-none f k d missing))
  | inr (x, there) ↦ ground (arith, lookup-modify f k j d x there)
]

insert-sent :
    (k j : String) (x e : Entry) (d : Dict Entry)
    → x.status ≢ sent
    → lookup j (insert k x d) ≡ some e
    → e.status ≡ sent
    → lookup j d ≡ some e
insert-sent k j x e d never found is = ground (arith, lookup-insert k j x d, eq_iff k j)

retain-found :
    (p : Entry → Bool) (k : String) (d : Dict Entry) (e : Entry)
    → NodupKeys d
    → lookup k (retain p d) ≡ some e
    → lookup k d ≡ some e
retain-found p k d e u found = ground (arith, lookup-retain p k d u)

modify-sent :
    (f : Entry → Entry) (k j : String) (d : Dict Entry) (e : Entry)
    → ((x : Entry) → (f x).status ≢ sent)
    → lookup j (modify f k d) ≡ some e
    → e.status ≡ sent
    → lookup j d ≡ some e
modify-sent f k j d e never found is = elim (Option-cases (lookup k d)) [
  | inl missing ↦ sym (ap (lookup j) (modify-none f k d missing)) ∙ found
  | inr (x, there) ↦ ground (arith, never x, lookup-modify f k j d x there, eq_iff k j)
]

fail_entry-unsent :
    (config : OutboxConfig) (error : String) (now jitter : ℕ) (x : Entry)
    → (fail_entry config error now jitter x).status ≢ sent
unfolding fail_entry
fail_entry-unsent config error now jitter x = ground arith

send_next-IsSent :
    (es : List Entry) (k : String) (o : Outbox) → IsSent k (send_next es o) → IsSent k o
unfolding send_next mark_sending
send_next-IsSent [] k o h = h
send_next-IsSent (x ∷ xs) k o (e, found, is) =
    (e, modify-sent _ x.id k o.store e (λ y. cc) found is, is)

settle-IsSent :
    (id k : String) (a : Answer) (now jitter : ℕ) (o : Outbox)
    → IsSent k (settle id a now jitter o)
    → IsSent k o ⊎ ((id ≡ k) × (a ≡ accepted))
unfolding settle mark_sent mark_failed
settle-IsSent id k accepted now jitter o (e, found, is) = elim (Bool-cases (str_eq id k)) [
  | inl same ↦ inr ((eq_iff id k).0 same, refl)
  | inr other ↦ inl (e, modify-other _ id k o.store other ∙ found, is)
]
settle-IsSent id k refused now jitter o (e, found, is) =
    inl (e, modify-sent _ id k o.store e (fail_entry-unsent o.config _ now jitter) found is, is)
settle-IsSent id k (threw error) now jitter o (e, found, is) =
    inl (e, modify-sent _ id k o.store e (fail_entry-unsent o.config _ now jitter) found is, is)

-- The relay waits for the answer about an entry with the id.
abbrev pub Awaits : String → Relay → Type 0
Awaits k idle = ⊥
Awaits k (waiting x xs) = x.id ≡ k

answer_in-IsSent :
    (r : Relay) (k : String) (a : Answer) (now jitter : ℕ) (o : Outbox)
    → IsSent k (answer_in r a now jitter o)
    → IsSent k o ⊎ (Awaits k r × (a ≡ accepted))
unfolding answer_in
answer_in-IsSent idle k a now jitter o h = inl h
answer_in-IsSent (waiting x xs) k a now jitter o h =
    settle-IsSent x.id k a now jitter o (send_next-IsSent xs k _ h)

-- An entry is marked as sent only when `sendFn` has accepted it: if it is after a call and was not
-- before, then the relay was waiting for it and the call is an acceptance.
pub step-IsSent :
    (now : ℕ) (c : Call) (k : String) (o : Outbox)
    → NodupKeys o.store
    → IsSent k (step now c o)
    → IsSent k o ⊎ ((jitter : ℕ) × (c ≡ answers accepted jitter) × Awaits k o.relay)
unfolding step enqueue remove cleanup start_relay stop_relay tick answer
step-IsSent now (enqueues id payload) k o u (e, found, is) =
    inl (e, insert-sent id k _ e o.store (λ q. cc) found is, is)
step-IsSent now (removes id) k o u (e, found, is) =
    inl (e, ground (arith, lookup-erase id k o.store), is)
step-IsSent now (cleans age) k o u (e, found, is) = inl (e, retain-found _ k o.store e u found, is)
step-IsSent now starts k o u (e, found, is) = inl (e, ground arith, is)
step-IsSent now stops k o u (e, found, is) = inl (e, ground arith, is)
step-IsSent now ticks k o u h = elim (Bool-cases (o.timer && is_idle o.relay)) [
  | inl fires ↦ inl (send_next-IsSent (get_pending now o) k o (rw fires at h))
  | inr rests ↦ inl (rw rests at h)
]
step-IsSent now (answers a jitter) k o u h = elim (answer_in-IsSent o.relay k a now jitter o h) [
  | inl before ↦ inl before
  | inr (awaits, yes') ↦ inr (jitter, ap (λ b. answers b jitter) yes', awaits)
]
