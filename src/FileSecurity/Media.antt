-- ===== src/FileSecurity/Media.antt =====
-- `decodedBase64Size`, `stripMimeParams`, `validateMimeType`, `checkFileSize` and `detectMimeType`
-- of src/file-security.ts.
use claw_crony.Base.{
  ℕ, zero, suc, ◌+◌, ◌-◌, ◌*◌, ◌/◌, ◌%◌, ◌^◌, ◌≤◌, ◌<◌, min, max, String, ◌≡◌, refl, sym, ap, ◌∙◌,
  subst, ◌≡⟨◌⟩◌, ◌∎, ◌≢◌, ◌↔◌, ◌⊎◌, inl, inr, Bool, true, false, not, ◌&&◌, ◌||◌, Option, none,
  some, List, [], ◌∷◌, ◌++◌, map, append-nil, append_assoc, arith, eq_iff, str_eq, ltb, leb, ◌==◌,
  if◌then◌else◌, ltb→lt, leb→le, lt→ltb, le→leb, ==_iff, Bool-cases, Option-cases, ◌>>=◌, length,
  length-append, take, drop, length-take, filter, length-filter-le, any, find?, All, All-append,
  All-filter, All-take, All-map_imp, List-cases, bit, count, count-append, count-filter_le,
}
use claw_crony.Base.Integers.{ℤ, pos, difference}
use claw_crony.Base.Text.{
  Text, codes, same, same_iff, starts_with, starts_with_append, starts_with_split, ends_with,
  ends_with_self, ends_with_append, ends_with_split, includes, lower_code, lower, lower-append,
  lower_idem, length-lower, is_space, trim_start, keep_unless_blank, trim_end, trim, cons_head,
  split, Free, split-append, split-Free, join, split-join, clip, length-clip_le,
}
use claw_crony.FileSecurity.Uri.{Verdict, passed, rejected, too_large}
pub mod Sizes
pub mod Patterns

-- `base64[i]`
abbrev pub get_elem? : Text → ℕ → Option ℕ
get_elem? [] i = none
get_elem? (c ∷ a) zero = some c
get_elem? (c ∷ a) (suc i) = get_elem? a i

abbrev pub is_equals_sign : Option ℕ → Bool
is_equals_sign none = false
is_equals_sign (some c) = c == b'='

unfoldable pub padding : Text → ℕ
padding a =
    bit (is_equals_sign (get_elem? a (length a - 1)))
    + bit (ltb 1 (length a) && is_equals_sign (get_elem? a (length a - 2)))

unfoldable pub decoded_base64_size : Text → ℤ
unfolding padding
decoded_base64_size a = if length a == 0 then pos 0 else difference (length a * 3 / 4) (padding a)

-- `a.slice(0, a.indexOf(s))` where `s` occurs, else the whole text.
unfoldable pub up_to : ℕ → Text → Text
up_to s [] = []
up_to s (c ∷ a) = if c == s then [] else c ∷ up_to s a

unfoldable pub strip_mime_params : Text → Text
unfolding up_to trim
strip_mime_params mime_type = trim (up_to b';' mime_type)

-- One round of the loop over the patterns.
unfoldable pub accepts : Text → Text → Bool
unfolding same ends_with starts_with
accepts normalized p =
    if same normalized p
    then true
    else if ends_with p (codes "/*")
    then starts_with normalized (take (length p - 1) p)
    else false

unfoldable pub validate_mime_type : Text → List Text → Bool
unfolding lower strip_mime_params accepts
validate_mime_type mime_type allowed_patterns =
    let normalized = lower (strip_mime_params mime_type) in
    if length normalized == 0
    then false
    else any (λ pattern. accepts normalized (lower (strip_mime_params pattern))) allowed_patterns

unfoldable pub check_file_size : ℕ → ℕ → Verdict
check_file_size size_bytes max_bytes =
    if ltb max_bytes size_bytes then rejected (too_large size_bytes max_bytes) else passed

abbrev pub mime_map : List (Text × Text)
mime_map =
    (codes ".jpg", codes "image/jpeg")
    ∷ (codes ".jpeg", codes "image/jpeg")
    ∷ (codes ".png", codes "image/png")
    ∷ (codes ".gif", codes "image/gif")
    ∷ (codes ".webp", codes "image/webp")
    ∷ (codes ".svg", codes "image/svg+xml")
    ∷ (codes ".bmp", codes "image/bmp")
    ∷ (codes ".ico", codes "image/x-icon")
    ∷ (codes ".pdf", codes "application/pdf")
    ∷ (codes ".txt", codes "text/plain")
    ∷ (codes ".csv", codes "text/csv")
    ∷ (codes ".json", codes "application/json")
    ∷ (codes ".xml", codes "application/xml")
    ∷ (codes ".html", codes "text/html")
    ∷ (codes ".mp3", codes "audio/mpeg")
    ∷ (codes ".wav", codes "audio/wav")
    ∷ (codes ".ogg", codes "audio/ogg")
    ∷ (codes ".mp4", codes "video/mp4")
    ∷ (codes ".webm", codes "video/webm")
    ∷ (codes ".zip", codes "application/zip")
    ∷ (codes ".gz", codes "application/gzip")
    ∷ (codes ".tar", codes "application/x-tar")
    ∷ []

unfoldable pub detect_in : Text → List (Text × Text) → Text
unfolding same
detect_in ext [] = codes "application/octet-stream"
detect_in ext ((known, mime) ∷ rest) = if same known ext then mime else detect_in ext rest

-- `detectMimeType`; the extension of a path is `path.extname`'s.
unfoldable pub detect_mime_type : (Text → Text) → Text → Text
unfolding lower detect_in
detect_mime_type extname file_path = detect_in (lower (extname file_path)) mime_map
