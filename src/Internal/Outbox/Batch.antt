-- ===== src/Internal/Outbox/Batch.antt =====
-- The entries of one flush: where their ids stand in the store.
use claw_crony.Base.{
  ℕ, ◌<◌, ◌≡◌, refl, ◌∙◌, inl, inr, String, Bool, false, Option, none, some, List, [], ◌∷◌, arith,
  max, if◌then◌else◌, str_eq, eq_iff, Option-cases, filter, count, bit,
}
use claw_crony.Base.Dict.{Dict, lookup, values, NodupKeys, lookup-insert, insert-NodupKeys}
use claw_crony.Base.Sort.{count-sort_by}
use claw_crony.Internal.Outbox.{
  Status, dead, Entry, OutboxConfig, Outbox, is_dead, is_due, get_pending, modify,
}

abbrev pub has_id : String → Entry → Bool
has_id k e = str_eq e.id k

-- How many entries of a list have the id.
abbrev pub times : String → List Entry → ℕ
times k = count (has_id k)

abbrev pub Attempts : OutboxConfig → ℕ → Status → Type 0
Attempts config retries dead = retries ≡ max 1 config.max_retries
Attempts config retries _ = retries < max 1 config.max_retries

-- An entry stands under its id. It is dead exactly at the last attempt.
abbrev pub EntryFits : OutboxConfig → String → Option Entry → Type 0
EntryFits config k none = Unit
EntryFits config k (some e) = (e.id ≡ k) × Attempts config e.retry_count e.status

abbrev pub IsLive : Option Entry → Type 0
IsLive none = Unit
IsLive (some e) = is_dead e.status ≡ false

abbrev pub StoreFits : OutboxConfig → Dict Entry → Type 0
StoreFits config d = (k : String) → EntryFits config k (lookup k d)

pub lookup-modify :
    (f : Entry → Entry) (k j : String) (d : Dict Entry) (e : Entry)
    → lookup k d ≡ some e
    → lookup j (modify f k d) ≡ (if str_eq k j then some (f e) else lookup j d)
unfolding modify
lookup-modify f k j d e found = rw (found, modify) (lookup-insert k j (f e) d)

pub modify-none :
    (f : Entry → Entry) (k : String) (d : Dict Entry) → lookup k d ≡ none → modify f k d ≡ d
unfolding modify
modify-none f k d missing = rw (missing, modify) refl

pub modify-NodupKeys :
    (f : Entry → Entry) (k : String) (d : Dict Entry) → NodupKeys d → NodupKeys (modify f k d)
unfolding modify
modify-NodupKeys f k d u = elim (Option-cases (lookup k d)) [
  | inl missing ↦ rw (missing, modify) u
  | inr (e, found) ↦ rw (found, modify) (insert-NodupKeys k (f e) d u)
]

tail-StoreFits :
    (config : OutboxConfig) (j : String) (w : Entry) (d : Dict Entry)
    → NodupKeys ((j, w) ∷ d)
    → StoreFits config ((j, w) ∷ d)
    → StoreFits config d
unfolding lookup
tail-StoreFits config j w d (fresh, u) fits k = ground (arith, eq_iff j k, fits k)

head-id :
    (config : OutboxConfig) (j : String) (w : Entry) (d : Dict Entry)
    → StoreFits config ((j, w) ∷ d)
    → w.id ≡ j
unfolding lookup
head-id config j w d fits = ground (arith, eq_iff j j, fits j)

abbrev pub passes : (Entry → Bool) → Option Entry → ℕ
passes p none = 0
passes p (some e) = bit (p e)

-- An id stands in the filtered values once, where its entry passes the filter.
times-filter :
    (config : OutboxConfig) (p : Entry → Bool) (k : String) (d : Dict Entry)
    → NodupKeys d
    → StoreFits config d
    → times k (filter p (values d)) ≡ passes p (lookup k d)
unfolding lookup values
times-filter config p k [] u fits = refl
times-filter config p k ((j, w) ∷ d) (fresh, u) fits = ground (
  arith,
  eq_iff j k,
  eq_iff w.id k,
  head-id config j w d fits,
  times-filter config p k d u (tail-StoreFits config j w d (fresh, u) fits),
)

pub times-get_pending :
    (now : ℕ) (k : String) (o : Outbox)
    → NodupKeys o.store
    → StoreFits o.config o.store
    → times k (get_pending now o) ≡ passes (is_due now) (lookup k o.store)
unfolding get_pending
times-get_pending now k o u fits =
    count-sort_by (λ e. e.created_at) (has_id k) (filter (is_due now) (values o.store))
    ∙ times-filter o.config (is_due now) k o.store u fits
