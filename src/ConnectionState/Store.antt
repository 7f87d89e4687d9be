-- ===== src/ConnectionState/Store.antt =====
-- src/connection-state.ts: every state that is loaded or recorded is valid, and a valid state survives
-- a save and a load.
use claw_crony.Base.{
  WhenSome, bind-WhenSome, ℕ, ◌≤◌, ◌≡◌, refl, String, Option, none, some, List, ◌∷◌, map, take,
  length, length-take, arith,
}
use claw_crony.ConnectionState.{
  RawId, whole, Stored, entry, CachedRequest, CachedOffer, CachedSession, State, Raw, max_records,
  default_state, unique_newest, without, upsert_newest, normalize_state, or_empty, save, update,
  request_id_of, offer_id_of, session_id_of, add_request, add_offer, add_session, record_request,
  record_offer, record_session,
}
use claw_crony.ConnectionState.Newest.{
  AreDistinct, unique_newest_self, unique_newest-AreDistinct, length-unique_newest, take-length,
}

-- At most 100 different positive ids.
abbrev pub IsIdList : List ℕ → Type 0
IsIdList ids = AreDistinct ids × (length ids ≤ max_records)

abbrev pub IsValid : State → Type 0
IsValid s =
    (IsIdList s.created_request_ids
      × (IsIdList s.created_offer_ids × IsIdList s.accepted_session_ids))
    × ((length s.requests ≤ max_records)
        × ((length s.offers ≤ max_records) × (length s.sessions ≤ max_records)))

unique_newest-IsIdList : (ids : List RawId) → IsIdList (unique_newest ids)
unique_newest-IsIdList ids = (unique_newest-AreDistinct ids, length-unique_newest ids)

length-take_max {ℓ} : {A : Type ℓ} (xs : List A) → length (take max_records xs) ≤ max_records
length-take_max xs = omega (arith, length-take max_records xs)

normalize_state-IsValid : (file : Option Raw) → IsValid (normalize_state file)
unfolding normalize_state default_state
normalize_state-IsValid none = (
  ((tt, omega arith), ((tt, omega arith), (tt, omega arith))),
  (omega arith, (omega arith, omega arith)),
)
normalize_state-IsValid (some raw) = (
  (
    unique_newest-IsIdList (or_empty raw.created_request_ids),
    (
      unique_newest-IsIdList (or_empty raw.created_offer_ids),
      unique_newest-IsIdList (or_empty raw.accepted_session_ids),
    ),
  ),
  (
    length-take_max (or_empty raw.requests),
    (length-take_max (or_empty raw.offers), length-take_max (or_empty raw.sessions)),
  ),
)

-- A valid state that is saved is loaded as it was.
pub normalize_state-save : (s : State) → IsValid s → normalize_state (save s) ≡ s
unfolding normalize_state save
normalize_state-save s (((d, l), ((d', l'), (d'', l''))), (m, (m', m''))) =
    rw
      (
        unique_newest_self s.created_request_ids d l,
        unique_newest_self s.created_offer_ids d' l',
        unique_newest_self s.accepted_session_ids d'' l'',
        take-length max_records s.requests m,
        take-length max_records s.offers m',
        take-length max_records s.sessions m'',
      )
      refl

-- A result, if there is one, has the property.
any-WhenSome {ℓ} : {A : Type ℓ} (o : Option A) → WhenSome (λ a. Unit) o
any-WhenSome none = tt
any-WhenSome (some a) = tt

length-upsert {ℓ} :
    {A : Type ℓ} (id : A → ℕ) (records : List (Stored A)) (r : A)
    → WhenSome (λ after. length after ≤ max_records) (upsert_newest id records r)
unfolding upsert_newest
length-upsert id records r =
    bind-WhenSome (λ x. Unit) _ (without id (id r) records) _ (any-WhenSome _)
      (λ rest h. length-take_max (entry r ∷ rest))

update-IsValid :
    (mutator : State → Option State) (now : String) (file : Option Raw)
    → ((s : State) → IsValid s → WhenSome IsValid (mutator s))
    → WhenSome IsValid (update mutator now file)
unfolding update
update-IsValid mutator now file h =
    bind-WhenSome IsValid IsValid (mutator (normalize_state file))
      (λ s. some (record s { updated_at = some now }))
      (h (normalize_state file) (normalize_state-IsValid file)) (λ s v. v)

add_request-IsValid :
    (r : CachedRequest) (s : State) → IsValid s → WhenSome IsValid (add_request r s)
unfolding add_request
add_request-IsValid r s old =
    bind-WhenSome (λ records. length records ≤ max_records) IsValid
      (upsert_newest request_id_of s.requests r)
      (λ records. some (record s {
        created_request_ids = unique_newest (whole r.id ∷ map whole s.created_request_ids);
        requests = records;
      }))
      (length-upsert request_id_of s.requests r)
      (λ records l. (
        (unique_newest-IsIdList (whole r.id ∷ map whole s.created_request_ids), old.0.1),
        (l, old.1.1),
      ))

add_offer-IsValid : (r : CachedOffer) (s : State) → IsValid s → WhenSome IsValid (add_offer r s)
unfolding add_offer
add_offer-IsValid r s old =
    bind-WhenSome (λ records. length records ≤ max_records) IsValid
      (upsert_newest offer_id_of s.offers r)
      (λ records. some (record s {
        created_offer_ids = unique_newest (whole r.id ∷ map whole s.created_offer_ids);
        offers = records;
      }))
      (length-upsert offer_id_of s.offers r)
      (λ records l. (
        (old.0.0, (unique_newest-IsIdList (whole r.id ∷ map whole s.created_offer_ids), old.0.1.1)),
        (old.1.0, (l, old.1.1.1)),
      ))

add_session-IsValid :
    (r : CachedSession) (s : State) → IsValid s → WhenSome IsValid (add_session r s)
unfolding add_session
add_session-IsValid r s old =
    bind-WhenSome (λ records. length records ≤ max_records) IsValid
      (upsert_newest session_id_of s.sessions r)
      (λ records. some (record s {
        accepted_session_ids = unique_newest (whole r.id ∷ map whole s.accepted_session_ids);
        sessions = records;
      }))
      (length-upsert session_id_of s.sessions r)
      (λ records l. (
        (
          old.0.0,
          (old.0.1.0, unique_newest-IsIdList (whole r.id ∷ map whole s.accepted_session_ids)),
        ),
        (old.1.0, (old.1.1.0, l)),
      ))

-- Whatever the file holds, the state that is loaded is valid, and so is the state that a method records,
-- if it does not throw.
pub record-IsValid :
    (file : Option Raw) (now : String) (r : CachedRequest) (o : CachedOffer) (c : CachedSession)
    → IsValid (normalize_state file)
      × WhenSome IsValid (record_request r now file)
      × WhenSome IsValid (record_offer o now file)
      × WhenSome IsValid (record_session c now file)
unfolding record_request record_offer record_session
record-IsValid file now r o c = (
  normalize_state-IsValid file,
  update-IsValid (add_request r) now file (add_request-IsValid r),
  update-IsValid (add_offer o) now file (add_offer-IsValid o),
  update-IsValid (add_session c) now file (add_session-IsValid c),
)
