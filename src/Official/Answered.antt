-- ===== src/Official/Answered.antt =====
-- src/official-agent-call.ts: what a call of an official agent comes to.
use claw_crony.Base.{ℕ, ◌≤◌, ◌≡◌, Bool, true, false, ◌&&◌, List, [], ◌∷◌, leb, length, All}
use claw_crony.Base.Text.{Text}
use claw_crony.Base.Json.{Json}
use claw_crony.Official.Findings.{normal_entries}
use claw_crony.Official.Clean.{IsClean}
use claw_crony.Official.Action.{forbidden_list}
use claw_crony.Official.Prepare.{Prepared}
use claw_crony.Official.Course.{
  Settled, Client, CallInput, Target, resolve_official_agent, Response, read_response, Outcome,
  is_ok, World, http_error, resolved, failed, answer_response, answer_error,
}

-- What every outcome has.
pub record IsAccounted (o : Outcome) : Type 0 where
  pub one_entry : length o.entries ≡ 1
  pub success : All (λ e. e.success ≡ is_ok o.answer) o.entries
  pub one_request : length o.requests ≤ 1
  pub sent_once : is_ok o.answer ≡ true → length o.requests ≡ 1

abbrev pub is_success : ℕ → Bool
is_success status = leb 200 status && leb status 299

-- The agent that the call goes to, if it can be resolved.
abbrev pub target_for : Settled Client → CallInput → Settled Target
target_for (failed message) call = failed message
target_for (resolved client) call = resolve_official_agent client call

-- A response is clean for the output policy of the agent; the body of an error status is in the answer
-- as it came.
pub record IsScreened (world : World) (policy : List Text) (o : Outcome) : Type 0 where
  pub clean :
      (body : Json)
      → o.answer ≡ answer_response body
      → IsClean world.patterns (normal_entries policy) body
  pub error_status :
      (request : Prepared) (res : Response)
      → o.requests ≡ request ∷ []
      → world.fetch request ≡ resolved res
      → is_success res.status ≡ false
      → o.answer ≡ answer_error (http_error world res.status (read_response world.parse res))

-- What is asked of the outcome, for an agent that is resolved and for one that is not.
abbrev pub IsAnswered : World → Settled Target → Outcome → Type 0
IsAnswered world (failed message) o =
    IsAccounted o × (o.answer ≡ answer_error message) × (o.requests ≡ [])
IsAnswered world (resolved target) o =
    IsAccounted o × IsScreened world (forbidden_list target.agent "outputPolicy") o
