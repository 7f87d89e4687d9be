-- ===== src/Executor/Fragments.antt =====
-- `asString`, `formatFilePartAsText`, `formatDataPartAsText` and `extractTextFragments` of
-- src/executor.ts. `JSON.stringify` is an argument.
use claw_crony.Base.{
  ◌+◌, ◌/◌, Bool, true, false, ◌&&◌, Option, none, some, List, [], ◌∷◌, ◌++◌, ltb, ◌==◌,
  if◌then◌else◌, length, take,
}
use claw_crony.Base.Text.{Text, codes, same, trim, join}
use claw_crony.Base.Json.{Json, Items, Fields, get, null, str, arr, obj, nil, cons, end, field}
use claw_crony.Base.Integers.{ℤ, pos, negsuc}
use claw_crony.FileSecurity.Numerals.{decimal_of}
use claw_crony.FileSecurity.Media.{decoded_base64_size}

-- `asObject`; an array has none of the keys that are read, but for its items.
unfoldable pub non_empty : Text → Option Text
non_empty [] = none
non_empty (c ∷ t) = some (c ∷ t)

-- A string that is not blank, trimmed.
unfoldable pub as_string : Option Json → Option Text
unfolding non_empty trim
as_string (some (str t)) = non_empty (trim t)
as_string _ = none

abbrev pub text_or : Option Text → Text → Text
text_or none t = t
text_or (some u) t = u

-- `replace(/[\r\n\t\x00-\x1f]/g, "")`
unfoldable pub strip_controls : Text → Text
strip_controls [] = []
strip_controls (c ∷ t) = if ltb c 32 then strip_controls t else c ∷ strip_controls t

abbrev pub list_of : Option Text → List Text
list_of none = []
list_of (some t) = t ∷ []

abbrev pub is_text : Text → Option Json → Bool
is_text t (some (str u)) = same u t
is_text t _ = false

abbrev pub is_string : Option Json → Bool
is_string (some (str t)) = true
is_string _ = false

-- `Math.ceil(size / 1024)`, in decimal; a size of -1 gives -0, which prints as 0.
abbrev pub kilobytes : ℤ → Text
kilobytes (pos n) = decimal_of ((n + 1023) / 1024)
kilobytes (negsuc n) = codes "0"

unfoldable pub describe_file : Text → Fields → Text
unfolding as_string decoded_base64_size
describe_file label file = elim (as_string (get (codes "uri") file)) [
  | some uri ↦ label ++ (codes " → " ++ (uri ++ codes "]"))
  | none ↦ elim (as_string (get (codes "bytes") file)) [
    | some bytes ↦
        label ++ (codes ", inline " ++ (kilobytes (decoded_base64_size bytes) ++ codes "KB]"))
    | none ↦ label ++ codes "]"
  ]
]

unfoldable pub file_label : Fields → Text
unfolding as_string strip_controls
file_label file =
    let name =
      take 200 (strip_controls (text_or (as_string (get (codes "name") file)) (codes "file"))) in
    let mime_type = take 100 (
      strip_controls
        (text_or (as_string (get (codes "mimeType") file)) (codes "application/octet-stream"))) in
    codes "[Attached: " ++ (name ++ (codes " (" ++ (mime_type ++ codes ")")))

unfoldable pub format_file : Option Json → Text
unfolding describe_file file_label
format_file (some (obj file)) = describe_file (file_label file) file
format_file (some (arr items)) = describe_file (file_label end) end
format_file _ = []

module _ (stringify : Json → Text) where
  unfoldable pub data_label : Text → Text → Text
  data_label mime_type preview =
      codes "[Data (" ++ (mime_type ++ (codes "): " ++ (preview ++ codes "]")))

  -- The preview of an object is cut with an ellipsis, that of another value without.
  unfoldable pub format_data : Fields → Option Json → Text
  unfolding as_string data_label
  format_data part none = []
  format_data part (some null) = []
  format_data part (some (obj data_fields)) =
      let raw = stringify (obj data_fields) in
      data_label (text_or (as_string (get (codes "mimeType") part)) (codes "application/json"))
        (if ltb 2000 (length raw) then take 2000 raw ++ codes "…" else raw)
  format_data part (some (arr items)) =
      let raw = stringify (arr items) in
      data_label (text_or (as_string (get (codes "mimeType") part)) (codes "application/json"))
        (if ltb 2000 (length raw) then take 2000 raw ++ codes "…" else raw)
  format_data part (some v) =
      data_label (text_or (as_string (get (codes "mimeType") part)) (codes "application/json"))
        (take 2000 (stringify v))

  abbrev pub first_non_empty : List Text → List Text → List Text
  first_non_empty [] ts = ts
  first_non_empty (t ∷ us) ts = t ∷ us

  -- What the kind of an object calls for: its text, the line for its file or data, or none of them.
  unfoldable pub by_kind : Fields → Option (List Text)
  unfolding as_string format_file format_data
  by_kind fs =
      if is_text (codes "text") (get (codes "kind") fs) && is_string (get (codes "text") fs)
      then some (list_of (as_string (get (codes "text") fs)))
      else if is_text (codes "file") (get (codes "kind") fs)
      then some (list_of (non_empty (format_file (get (codes "file") fs))))
      else if is_text (codes "data") (get (codes "kind") fs)
      then some (list_of (non_empty (format_data fs (get (codes "data") fs))))
      else none

  abbrev pub or_fragments : Option (List Text) → List Text → List Text
  or_fragments none ts = ts
  or_fragments (some us) ts = us

  unfoldable mutual
    unfolding by_kind as_string non_empty trim

    -- `extractTextFragments`
    pub extract_text_fragments : Json → List Text
    extract_text_fragments (str t) = list_of (non_empty (trim t))
    extract_text_fragments (arr items) = extract_items items
    extract_text_fragments (obj fs) =
        let parts = extract_at (codes "parts") fs in
        let content = extract_at (codes "content") fs in
        or_fragments (by_kind fs)
          (or_fragments parts (or_fragments content (list_of (as_string (get (codes "text") fs)))))
    extract_text_fragments v = []

    pub extract_items : Items → List Text
    extract_items nil = []
    extract_items (cons v items) = extract_text_fragments v ++ extract_items items

    -- The fragments of the array behind a key, if there is one that is not empty.
    pub extract_at : Text → Fields → Option (List Text)
    extract_at k end = none
    extract_at k (field j v fs) =
        let here = extract_array v in let rest = extract_at k fs in if same j k then here else rest

    pub extract_array : Json → Option (List Text)
    extract_array (arr (cons v items)) = some (extract_text_fragments v ++ extract_items items)
    extract_array v = none

  -- `extractInboundMessageText`, where `JSON.stringify` does not throw.
  unfoldable pub extract_inbound_message_text : Json → Text
  unfolding extract_text_fragments
  extract_inbound_message_text message =
      let fragments = extract_text_fragments message in
      if length fragments == 0 then stringify message else join 10 fragments
