-- ===== src/History/Tail.antt =====
-- src/history.ts: what `tail` gives, and what of a recorded entry it gives back.
use claw_crony.Base.{
  ℕ, suc, ◌-◌, ◌≤◌, ◌≡◌, refl, sym, ap, ◌∙◌, subst, true, false, none, some, List, [], ◌∷◌, ◌++◌,
  arith, length, take, length-take, filter, All, All-take, reverse, reverse-drop,
  take-reverse-append, filter-append, filter-passes, All-reverse,
}
use claw_crony.History.{
  Entry, Filter, Options, matches_filter, Line, File, appended, write, with_redacted, record_entry,
  entries_of, lines_of, last_reversed, clamped, tail, blank, malformed, entry_line,
}

-- The entries of the file that pass the filter, the newest first.
abbrev pub newest : Filter → File Entry → List Entry
newest wanted file = reverse (filter (matches_filter wanted) (entries_of (lines_of file)))

pub last_reversed-take :
    {A : Type 0} → (n : ℕ) (xs : List A) → last_reversed n xs ≡ take n (reverse xs)
unfolding last_reversed
last_reversed-take n xs = reverse-drop n xs

pub tail-take :
    (wanted : Filter) (file : File Entry)
    → tail wanted file ≡ take (clamped wanted.count) (newest wanted file)
unfolding tail
tail-take wanted file =
    last_reversed-take (clamped wanted.count)
      (filter (matches_filter wanted) (entries_of (lines_of file)))

pub entries_of-append :
    {A : Type 0}
    → (lines : List (Line A)) (e : A)
    → entries_of (lines ++ (entry_line e ∷ [])) ≡ entries_of lines ++ (e ∷ [])
unfolding entries_of
entries_of-append [] e = refl
entries_of-append (blank ∷ lines) e = entries_of-append lines e
entries_of-append (malformed ∷ lines) e = entries_of-append lines e
entries_of-append (entry_line d ∷ lines) e = ap (λ t. d ∷ t) (entries_of-append lines e)

pub entries_of-appended :
    {A : Type 0}
    → (e : A) (file : File A)
    → entries_of (lines_of (appended e file)) ≡ entries_of (lines_of file) ++ (e ∷ [])
unfolding appended entries_of
entries_of-appended e none = refl
entries_of-appended e (some lines) = entries_of-append lines e

-- `tail` gives the newest entries that pass the filter, the newest first: as many as the count
-- asks for, held between 1 and 500, or all where there are fewer. Blank and malformed lines count
-- for nothing.
pub tail-newest :
    (wanted : Filter) (file : File Entry)
    → (tail wanted file ≡ take (clamped wanted.count) (newest wanted file))
      × (1 ≤ clamped wanted.count)
      × (length (tail wanted file) ≤ 500)
      × All (λ e. matches_filter wanted e ≡ true) (tail wanted file)
tail-newest wanted file = (
  tail-take wanted file,
  omega arith,
  subst (λ t. length t ≤ 500) (sym (tail-take wanted file))
      (omega (arith, length-take (clamped wanted.count) (newest wanted file))),
  subst (All (λ e. matches_filter wanted e ≡ true)) (sym (tail-take wanted file)) (
      All-take (λ e. matches_filter wanted e ≡ true) (clamped wanted.count) (newest wanted file)
        (All-reverse (λ e. matches_filter wanted e ≡ true)
          (filter (matches_filter wanted) (entries_of (lines_of file)))
          (filter-passes (matches_filter wanted) (entries_of (lines_of file))))),
)

-- An entry that is recorded in an enabled history, and that passes the filter, comes back first in
-- `tail`, with its secrets redacted, in front of what `tail` gave for one place less. A write that
-- fails, or a disabled history, leaves what `tail` gives as it was.
pub tail-record_entry :
    (options : Options) (entry : Entry) (wanted : Filter) (file : File Entry)
    → options.enabled ≡ true
    → matches_filter wanted entry ≡ true
    → (tail wanted (record_entry options true entry file)
        ≡ with_redacted options.include_encrypted_payloads entry
          ∷ take (clamped wanted.count - 1) (newest wanted file))
      × (tail wanted (record_entry options false entry file) ≡ tail wanted file)
unfolding record_entry write matches_filter with_redacted
tail-record_entry options entry wanted file on passes = (
  rw (record_entry, on) (recorded (with_redacted options.include_encrypted_payloads entry) passes),
  rw (record_entry, on) refl,
)
  where
    recorded :
        (e : Entry)
        → matches_filter wanted e ≡ true
        → tail wanted (appended e file) ≡ e ∷ take (clamped wanted.count - 1) (newest wanted file)
    recorded e ok =
        let matching = filter (matches_filter wanted) (entries_of (lines_of file)) in
        let one_more : filter (matches_filter wanted) (entries_of (lines_of (appended e file)))
            ≡ matching ++ (e ∷ []) =
          ap (filter (matches_filter wanted)) (entries_of-appended e file)
          ∙ filter-append (matches_filter wanted) (entries_of (lines_of file)) (e ∷ [])
          ∙ ap (λ t. matching ++ t)
              (let k : filter (matches_filter wanted) (e ∷ []) ≡ e ∷ [] = rw ok refl in k) in
        let count : clamped wanted.count ≡ suc (clamped wanted.count - 1) = omega arith in
        tail-take wanted (appended e file)
        ∙ ap (λ t. take (clamped wanted.count) (reverse t)) one_more
        ∙ ap (λ n. take n (reverse (matching ++ (e ∷ [])))) count
        ∙ take-reverse-append (clamped wanted.count - 1) matching e
