-- ===== src/Executor/Response.antt =====
-- src/executor.ts: the answer of an agent, read from the gateway's final payload, and the parts of the
-- message that is made of it.
use claw_crony.Base.{
  Bool, ◌&&◌, Option, none, some, List, [], ◌∷◌, ◌++◌, map, ◌==◌, if◌then◌else◌, length, any,
}
use claw_crony.Base.Text.{Text, codes, same, trim, join}
use claw_crony.Base.Json.{Json, Items, get, arr, obj, nil, cons}
use claw_crony.Executor.Fragments.{as_string, non_empty, is_text, extract_text_fragments}

-- `AgentResponse`
pub record AgentResponse : Type 0 where
  pub text : Text
  pub media_urls : List Text

abbrev pub has : List Text → Text → Bool
has urls url = any (λ u. same u url) urls

-- `if (!urls.includes(url)) urls.push(url)`
unfoldable pub push_new : List Text → Option Text → List Text
unfolding same
push_new urls none = urls
push_new urls (some url) = if has urls url then urls else urls ++ (url ∷ [])

unfoldable pub push_all : List Text → Items → List Text
unfolding push_new as_string
push_all urls nil = urls
push_all urls (cons v items) = push_all (push_new urls (as_string (some v))) items

abbrev pub items_of : Option Json → Items
items_of (some (arr items)) = items
items_of _ = nil

-- `asObject(value)?.[key]`
abbrev pub get_in : Text → Option Json → Option Json
get_in key (some (obj fs)) = get key fs
get_in key _ = none

unfoldable pub extract_media_urls_from_payload : Json → List Text
unfolding push_all as_string
extract_media_urls_from_payload payload =
    push_all (push_new [] (as_string (get_in (codes "mediaUrl") (some payload))))
      (items_of (get_in (codes "mediaUrls") (some payload)))

unfoldable pub push_urls : List Text → List Text → List Text
unfolding push_new
push_urls urls [] = urls
push_urls urls (u ∷ us) = push_urls (push_new urls (some u)) us

unfoldable pub collect_urls : List Text → Items → List Text
unfolding push_urls extract_media_urls_from_payload
collect_urls urls nil = urls
collect_urls urls (cons v items) =
    collect_urls (push_urls urls (extract_media_urls_from_payload v)) items

-- `ts.join(separator)`
unfoldable pub join_with : Text → List Text → Text
join_with s [] = []
join_with s (t ∷ []) = t
join_with s (t ∷ u ∷ ts) = t ++ (s ++ join_with s (u ∷ ts))

module _ (stringify : Json → Text) where
  unfoldable pub extract_agent_payload_text : Json → Option Text
  unfolding extract_text_fragments non_empty trim join
  extract_agent_payload_text payload =
      let fragments = extract_text_fragments stringify payload in
      if length fragments == 0 then none else non_empty (trim (join 10 fragments))

  -- `entry && entry.trim()`
  abbrev pub cons_text : Option Text → List Text → List Text
  cons_text none ts = ts
  cons_text (some t) ts = if length (trim t) == 0 then ts else t ∷ ts

  unfoldable pub payload_texts : Items → List Text
  unfolding extract_agent_payload_text
  payload_texts nil = []
  payload_texts (cons v items) = cons_text (extract_agent_payload_text v) (payload_texts items)

  unfoldable pub extract_agent_response : Json → Option AgentResponse
  unfolding payload_texts collect_urls join_with
  extract_agent_response payload =
      let payloads =
        items_of (get_in (codes "payloads") (get_in (codes "result") (some payload))) in
      let texts = payload_texts payloads in
      let media_urls = collect_urls [] payloads in
      if (length texts == 0) && (length media_urls == 0)
      then none
      else some (record { text = join_with (10 ∷ 10 ∷ []) texts; media_urls = media_urls })

  -- The loop goes from the last message to the first.
  abbrev pub or_else : Option Text → Option Text → Option Text
  or_else none t = t
  or_else (some u) t = some u

  unfoldable pub latest_reply : Items → Option Text
  unfolding extract_agent_payload_text
  latest_reply nil = none
  latest_reply (cons v items) =
      let later = latest_reply items in
      or_else later (
        if is_text (codes "assistant") (get_in (codes "role") (some v))
        then extract_agent_payload_text v
        else none)

  unfoldable pub extract_latest_assistant_reply : Json → Option Text
  unfolding latest_reply
  extract_latest_assistant_reply payload =
      latest_reply (items_of (get_in (codes "messages") (some payload)))

-- The parts of a response.
pub data Part : Type 0 where
  text_part : Text → Part
  file_part : Text → Part

abbrev pub or_empty_text : List Part → List Part
or_empty_text [] = text_part [] ∷ []
or_empty_text (p ∷ ps) = p ∷ ps

abbrev pub text_parts : Text → List Part
text_parts [] = []
text_parts (c ∷ t) = text_part (c ∷ t) ∷ []

unfoldable pub build_response_parts : AgentResponse → List Part
build_response_parts response =
    or_empty_text (text_parts response.text ++ map (λ u. file_part u) response.media_urls)
