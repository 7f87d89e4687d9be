-- ===== src/Hub/Values.antt =====
-- The lists, values and keys that src/hub-resolve.ts takes from an agent.
use claw_crony.Base.{
  ℕ, suc, String, true, false, ◌||◌, Option, none, some, List, [], ◌∷◌, ◌++◌, map, ◌==◌,
  if◌then◌else◌, length, any,
}
use claw_crony.Base.Text.{Text, codes, same, lower, trim}
use claw_crony.Base.Json.{Json, Items, Fields, get, null, bool, num, str, arr, obj, nil, cons}
use claw_crony.Base.Integers.{pos, negsuc}
use claw_crony.FileSecurity.Numerals.{decimal_of}
use claw_crony.Executor.Fragments.{non_empty}
use claw_crony.Hub.Agents.{KeyRef, Descriptor, HubAgent}

-- `new Set`'s `seen` holds the entries so far.
unfoldable pub dedupe_after : List Text → List Text → List Text
unfolding same lower trim
dedupe_after seen [] = []
dedupe_after seen (v ∷ vs) =
    let t = lower (trim v) in
    let others = dedupe_after seen vs in
    let rest = dedupe_after (t ∷ seen) vs in
    if length t == 0 || any (λ s. same s t) seen then others else t ∷ rest

unfoldable pub dedupe_strings : List Text → List Text
unfolding dedupe_after
dedupe_strings values = dedupe_after [] values

unfoldable pub descriptor_protocols : Option Descriptor → List Text
descriptor_protocols none = []
descriptor_protocols (some d) = d.protocols ++ map (λ e. e.protocol) d.endpoints

-- `String(value)`: in an array, null is the empty text.
unfoldable mutual
  unfolding decimal_of

  pub string_of : Json → Text
  string_of null = codes "null"
  string_of (bool true) = codes "true"
  string_of (bool false) = codes "false"
  string_of (num (pos n)) = decimal_of n
  string_of (num (negsuc n)) = b'-' ∷ decimal_of (suc n)
  string_of (str t) = t
  string_of (arr items) = strings_of items
  string_of (obj fs) = codes "[object Object]"

  pub strings_of : Items → Text
  strings_of nil = []
  strings_of (cons null nil) = []
  strings_of (cons v nil) = string_of v
  strings_of (cons null (cons w items)) = b',' ∷ strings_of (cons w items)
  strings_of (cons v (cons w items)) = string_of v ++ (b',' ∷ strings_of (cons w items))

unfoldable pub string_value : Option Json → Option Text
unfolding string_of trim non_empty
string_value none = none
string_value (some null) = none
string_value (some v) = non_empty (trim (string_of v))

unfoldable pub text_value : Option Text → Option Text
unfolding trim non_empty
text_value none = none
text_value (some t) = non_empty (trim t)

unfoldable pub capability_value : Option Fields → String → Option Text
unfolding string_value get
capability_value none key = none
capability_value (some manifest) key = string_value (get (codes key) manifest)

unfoldable pub value_in : Option Json → String → Option Text
unfolding string_value get
value_in (some (obj metadata)) key = string_value (get (codes key) metadata)
value_in _ key = none

unfoldable pub metadata_value : Option Fields → String → Option Text
unfolding value_in get
metadata_value none key = none
metadata_value (some manifest) key = value_in (get (codes "metadata") manifest) key

-- `a ?? b`
abbrev pub or_else {ℓ} : {A : Type ℓ} → Option A → Option A → Option A
or_else (some a) b = some a
or_else none b = b

unfoldable pub model_display_name : Option Text → Option Text → Option Text
model_display_name (some provider) (some name) = some (provider ++ (codes " / " ++ name))
model_display_name (some provider) none = some provider
model_display_name none name = name

abbrev pub number_or : Option ℕ → ℕ → ℕ
number_or (some n) m = n
number_or none m = m

abbrev pub text_or : Option Text → String → Text
text_or (some t) s = t
text_or none s = codes s

-- An empty key counts as absent.
abbrev pub given : Option Text → Option Text
given (some (c ∷ t)) = some (c ∷ t)
given _ = none

unfoldable pub fallback_encryption_key : HubAgent → Option KeyRef
fallback_encryption_key agent = elim (given agent.public_key) [
  | none ↦ none
  | some key ↦ some (record {
    kind = codes "X25519";
    public_key = key;
    key_version = some (number_or agent.key_version 1);
    algorithm = none;
    status = none;
  })
]

unfoldable pub fallback_signing_key : HubAgent → Option KeyRef
fallback_signing_key agent = elim (given agent.signing_public_key) [
  | none ↦ none
  | some key ↦ some (record {
    kind = codes "Ed25519";
    public_key = key;
    key_version = some (number_or agent.signing_key_version 1);
    algorithm = some (text_or agent.signing_algorithm "ed25519");
    status = some (text_or agent.signing_key_status "active");
  })
]
