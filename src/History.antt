-- ===== src/History.antt =====
-- src/history.ts and src/audit.ts: the request history and the audit log, two files of one JSON
-- value a line. A line that was written is read back as the entry that it stands for.
use claw_crony.Base.{
  reverse, ℕ, zero, suc, ◌+◌, ◌-◌, ◌*◌, ◌/◌, ◌%◌, ◌^◌, ◌≤◌, ◌<◌, min, max, String, ◌≡◌, refl, sym,
  ap, ◌∙◌, subst, ◌≡⟨◌⟩◌, ◌∎, ◌≢◌, ◌↔◌, ◌⊎◌, inl, inr, Bool, true, false, not, ◌&&◌, ◌||◌, Option,
  none, some, List, [], ◌∷◌, ◌++◌, map, append-nil, append_assoc, arith, eq_iff, str_eq, ltb, leb,
  ◌==◌, if◌then◌else◌, ltb→lt, leb→le, lt→ltb, le→leb, ==_iff, Bool-cases, Option-cases, ◌>>=◌,
  length, length-append, take, drop, length-take, filter, length-filter-le, any, find?, All,
  All-append, All-filter, All-take, All-map_imp, List-cases, bit, count, count-append,
  count-filter_le, AnyOf, WhenSome, bind-WhenSome, chain-WhenSome,
}
use mathlib.Core.Option
use claw_crony.Base.Text.{
  Text, codes, same, same_iff, starts_with, starts_with_append, starts_with_split, ends_with,
  ends_with_self, ends_with_append, ends_with_split, includes, lower_code, lower, lower-append,
  lower_idem, length-lower, is_space, trim_start, keep_unless_blank, trim_end, trim, cons_head,
  split, Free, split-append, split-Free, join, split-join, clip, length-clip_le,
}
use claw_crony.Base.Json.{
  Json, Items, Fields, get, put, keys, null, bool, num, str, arr, obj, nil, cons, end, field,
}
pub mod Redact
pub mod Tail
pub mod Audit
mod Tests

-- `SECRET_KEY_NAMES`
abbrev pub secret_key_names : List Text
secret_key_names =
    codes "token"
    ∷ codes "secret"
    ∷ codes "password"
    ∷ codes "authorization"
    ∷ codes "ciphertext"
    ∷ codes "privatekey"
    ∷ codes "private_key"
    ∷ []

-- The key contains one of the names, in any case.
unfoldable pub is_secret : Text → Bool
unfolding lower includes
is_secret key = any (λ name. includes (lower key) name) secret_key_names

unfoldable pub is_kept : Bool → Text → Bool
unfolding lower includes
is_kept include_encrypted key = includes (lower key) (codes "ciphertext") && include_encrypted

abbrev pub redacted : Json
redacted = str (codes "[redacted]")

-- What becomes of the value of a key, given what `redactUnknown` makes of it.
unfoldable pub choose : Bool → Text → Json → Json → Json
unfolding is_secret is_kept
choose inc key v open_value =
    if is_secret key then if is_kept inc key then v else redacted else open_value

unfoldable mutual
  unfolding choose

  pub redact_unknown : Bool → Json → Json
  redact_unknown inc (arr items) = arr (redact_items inc items)
  redact_unknown inc (obj fs) = obj (redact_object inc fs)
  redact_unknown inc v = v

  pub redact_items : Bool → Items → Items
  redact_items inc nil = nil
  redact_items inc (cons v items) = cons (redact_unknown inc v) (redact_items inc items)

  pub redact_object : Bool → Fields → Fields
  redact_object inc end = end
  redact_object inc (field key v fs) =
      field key (choose inc key v (redact_unknown inc v)) (redact_object inc fs)

unfoldable pub redact_value : Bool → Text → Json → Json
unfolding choose redact_unknown
redact_value inc key v = choose inc key v (redact_unknown inc v)

pub record Entry : Type 0 where
  pub ts : Text
  pub kind : Text
  pub status : Text
  pub direction : Option Text
  pub match_id : Option ℕ
  pub message_id : Option ℕ
  pub peer : Option Text
  pub duration_ms : Option ℕ
  pub detail : Option Fields

pub record Filter : Type 0 where
  pub count : Option ℕ
  pub kind : Option Text
  pub status : Option Text
  pub direction : Option Text
  pub match_id : Option ℕ
  pub peer : Option Text

-- `RequestHistoryOptions`
pub record Options : Type 0 where
  pub enabled : Bool
  pub include_encrypted_payloads : Bool

-- A filter text that is set and not empty must be the entry's.
unfoldable pub text_passes : Option Text → Option Text → Bool
unfolding same
text_passes (some (c ∷ wanted)) (some t) = same t (c ∷ wanted)
text_passes (some (c ∷ wanted)) none = false
text_passes _ t = true

abbrev pub number_passes : Option ℕ → Option ℕ → Bool
number_passes none n = true
number_passes (some wanted) none = false
number_passes (some wanted) (some n) = n == wanted

unfoldable pub matches_filter : Filter → Entry → Bool
unfolding text_passes
matches_filter filter entry =
    text_passes filter.kind (some entry.kind)
    && text_passes filter.status (some entry.status)
    && text_passes filter.direction entry.direction
    && number_passes filter.match_id entry.match_id
    && text_passes filter.peer entry.peer

-- A line of the file: blank, no JSON, or an entry.
pub data Line (A : Type 0) : Type 0 where
  blank : Line A
  malformed : Line A
  entry_line : A → Line A

-- The file, where there is one.
abbrev pub File : Type 0 → Type 0
File A = Option (List (Line A))

unfoldable pub appended : {A : Type 0} → A → File A → File A
appended entry none = some (entry_line entry ∷ [])
appended entry (some lines) = some (lines ++ (entry_line entry ∷ []))

-- `write`: the error of a write that fails is dropped.
unfoldable pub write : {A : Type 0} → Bool → A → File A → File A
unfolding appended
write succeeds entry file = if succeeds then appended entry file else file

-- The entry as it is written.
unfoldable pub with_redacted : Bool → Entry → Entry
unfolding redact_object
with_redacted inc entry = record {
  ts = entry.ts;
  kind = entry.kind;
  status = entry.status;
  direction = entry.direction;
  match_id = entry.match_id;
  message_id = entry.message_id;
  peer = entry.peer;
  duration_ms = entry.duration_ms;
  detail = Option.map (redact_object inc) entry.detail;
}

-- `record`; `succeeds` is whether the file system takes the line.
unfoldable pub record_entry : Options → Bool → Entry → File Entry → File Entry
unfolding write with_redacted
record_entry options succeeds entry file =
    if options.enabled
    then write succeeds (with_redacted options.include_encrypted_payloads entry) file
    else file

unfoldable pub entries_of : {A : Type 0} → List (Line A) → List A
entries_of [] = []
entries_of (entry_line e ∷ lines) = e ∷ entries_of lines
entries_of (_ ∷ lines) = entries_of lines

abbrev pub lines_of : {A : Type 0} → File A → List (Line A)
lines_of none = []
lines_of (some lines) = lines

-- `entries.slice(-count).reverse()` for a count above 0.
unfoldable pub last_reversed : {A : Type 0} → ℕ → List A → List A
last_reversed count entries = reverse (drop (length entries - count) entries)

abbrev pub or_default : ℕ → Option ℕ → ℕ
or_default d none = d
or_default d (some n) = n

-- `Math.min(Math.max(1, Math.floor(filter.count ?? 50)), 500)`
abbrev pub clamped : Option ℕ → ℕ
clamped count = min (max 1 (or_default 50 count)) 500

unfoldable pub tail : Filter → File Entry → List Entry
unfolding last_reversed entries_of matches_filter
tail wanted file =
    last_reversed (clamped wanted.count)
      (filter (matches_filter wanted) (entries_of (lines_of file)))
