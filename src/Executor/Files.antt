-- ===== src/Executor/Files.antt =====
-- src/executor.ts: `extractFileParts` and `validateInboundFileParts`.
use claw_crony.Base.{
  ℕ, Bool, true, false, not, ◌&&◌, Option, none, some, List, [], ◌∷◌, ◌==◌, if◌then◌else◌, length,
}
use claw_crony.Base.Text.{Text, codes, same}
use claw_crony.Base.Json.{Json, Items, Fields, get, null, bool, num, str, arr, obj, nil, cons}
use claw_crony.Base.Integers.{ℤ, pos, negsuc}
use claw_crony.FileSecurity.Uri.{
  Platform, Reason, Verdict, passed, rejected, validate_uri_scheme_and_ip,
}
use claw_crony.FileSecurity.Media.{decoded_base64_size, check_file_size, validate_mime_type}
use claw_crony.FileSecurity.Logged.{sanitize_uri_for_log}
use claw_crony.Executor.Fragments.{as_string, is_text}
use claw_crony.Executor.Response.{items_of, get_in}

-- `Boolean(value)`
abbrev pub is_truthy : Option Json → Bool
is_truthy none = false
is_truthy (some null) = false
is_truthy (some (bool b)) = b
is_truthy (some (num (pos n))) = not (n == 0)
is_truthy (some (num (negsuc n))) = true
is_truthy (some (str t)) = not (length t == 0)
is_truthy (some (arr items)) = true
is_truthy (some (obj fs)) = true

unfoldable pub is_file_part : Fields → Bool
unfolding get same
is_file_part fs =
    is_text (codes "file") (get (codes "kind") fs) && is_truthy (get (codes "file") fs)

unfoldable pub file_parts_in : Items → List Fields
unfolding is_file_part
file_parts_in nil = []
file_parts_in (cons (obj fs) items) =
    let rest = file_parts_in items in if is_file_part fs then fs ∷ rest else rest
file_parts_in (cons v items) = file_parts_in items

-- Only the message itself and its own `parts` are looked at.
unfoldable pub extract_file_parts : Json → List Fields
unfolding is_file_part file_parts_in
extract_file_parts (obj fs) =
    if is_file_part fs then fs ∷ [] else file_parts_in (items_of (get (codes "parts") fs))
extract_file_parts v = []

pub data Rejection : Type 0 where
  uri_blocked : Text → Reason → Rejection
  mime_rejected : Text → Rejection
  inline_too_large : Reason → Rejection

-- What of the configuration the check uses.
pub record Security : Type 0 where
  pub allowed_mime_types : List Text
  pub max_inline_file_size_bytes : ℕ

-- `checkFileSize`, for a size that may be below 0.
unfoldable pub check_inline : ℤ → ℕ → Verdict
unfolding check_file_size
check_inline (pos n) limit = check_file_size n limit
check_inline (negsuc n) limit = passed

-- The checks in turn: the first rejection counts.
infixr 4 ◌then_check◌
abbrev pub ◌then_check◌ : Option Rejection → Option Rejection → Option Rejection
none then_check o = o
(some r) then_check o = some r

module _ (platform : Platform) (security : Security) where
  unfoldable pub check_mime : Option Text → Option Rejection
  unfolding validate_mime_type
  check_mime none = none
  check_mime (some m) =
      if validate_mime_type m security.allowed_mime_types then none else some (mime_rejected m)

  abbrev pub uri_rejection : Text → Verdict → Option Rejection
  uri_rejection uri passed = none
  uri_rejection uri (rejected reason) =
      some (uri_blocked (sanitize_uri_for_log platform 200 uri) reason)

  abbrev pub size_rejection : Verdict → Option Rejection
  size_rejection passed = none
  size_rejection (rejected reason) = some (inline_too_large reason)

  unfoldable pub check_uri : Option Text → Option Text → Option Rejection
  unfolding validate_uri_scheme_and_ip check_mime
  check_uri none mime_type = none
  check_uri (some uri) mime_type =
      uri_rejection uri (validate_uri_scheme_and_ip platform uri) then_check check_mime mime_type

  unfoldable pub check_bytes : Option Text → Option Text → Option Rejection
  unfolding check_inline decoded_base64_size check_mime
  check_bytes none mime_type = none
  check_bytes (some bytes) mime_type =
      size_rejection (check_inline (decoded_base64_size bytes) security.max_inline_file_size_bytes)
      then_check check_mime mime_type

  -- One round of the loop; an array as the file has no keys.
  unfoldable pub check_file : Option Json → Option Rejection
  unfolding check_uri check_bytes as_string
  check_file file =
      let mime_type = as_string (get_in (codes "mimeType") file) in
      check_uri (as_string (get_in (codes "uri") file)) mime_type
      then_check check_bytes (as_string (get_in (codes "bytes") file)) mime_type

  unfoldable pub check_parts : List Fields → Option Rejection
  unfolding check_file
  check_parts [] = none
  check_parts (part ∷ parts) = check_file (get (codes "file") part) then_check check_parts parts

  unfoldable pub validate_inbound_file_parts : Json → Option Rejection
  unfolding check_parts extract_file_parts
  validate_inbound_file_parts message = check_parts (extract_file_parts message)
