-- ===== src/SharedContext/Paging.antt =====
-- `readMessages` of src/shared-context.ts: which messages it returns.
use claw_crony.Base.{
  ◌≡◌, ◌-◌, refl, ap, sym, subst, min, zero, suc, ℕ, String, Option, List, [], ◌∷◌, ◌++◌, length,
  take, drop, arith,
}
use claw_crony.SharedContext.{list_at, require_enabled, find_room}
use claw_crony.SharedContext.Types.{Message, State, Result, ok, Options}
use claw_crony.SharedContext.Read.{normalize_count, last, newer_than, read_messages}
use claw_crony.SharedContext.Log.{bind-ok}

take-drop {ℓ} : {A : Type ℓ} (k : ℕ) (xs : List A) → take k xs ++ drop k xs ≡ xs
take-drop zero xs = refl
take-drop (suc k) [] = refl
take-drop (suc k) (x ∷ xs) = ap (λ ys. x ∷ ys) (take-drop k xs)

length-drop {ℓ} : {A : Type ℓ} (k : ℕ) (xs : List A) → length (drop k xs) ≡ length xs - k
length-drop zero xs = omega arith
length-drop (suc k) [] = omega arith
length-drop (suc k) (x ∷ xs) = omega (arith, length-drop k xs)

abbrev Ends : List Message → ℕ → List Message → Type 0
Ends xs n ys = ((zs : List Message) × (xs ≡ zs ++ ys)) × (length ys ≡ min n (length xs))

last-Ends : (xs : List Message) (n : ℕ) → Ends xs n (last n xs)
last-Ends xs n = (
  (take (length xs - n) xs, sym (take-drop (length xs - n) xs)),
  omega (arith, length-drop (length xs - n) xs),
)

-- A read that succeeds returns the end of the room's messages that are newer than `after`: as many as the
-- count asks for, at least one and at most the limit, or all of them when they are fewer.
pub read_messages-end :
    (options : Options) (s : State) (id : String) (count after : Option ℕ) (page : List Message)
    → read_messages options s id count after ≡ ok page
    → ((earlier : List Message) × (newer_than after (list_at id s.messages) ≡ earlier ++ page))
      × (length page
          ≡ min
              (normalize_count count 50 options.max_messages_per_read)
              (length (newer_than after (list_at id s.messages))))
unfolding read_messages
read_messages-end options s id count after page h =
    let (u, enabled, h) = bind-ok (require_enabled options) _ _ h in
    let (room, found, h) = bind-ok (find_room id s) _ _ h in
    subst
      (Ends (newer_than after (list_at id s.messages))
        (normalize_count count 50 options.max_messages_per_read))
      (ap page_of h)
      (last-Ends (newer_than after (list_at id s.messages))
        (normalize_count count 50 options.max_messages_per_read))
  where
    page_of : Result (List Message) → List Message
    page_of (ok xs) = xs
    page_of _ = page
