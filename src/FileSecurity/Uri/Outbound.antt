-- ===== src/FileSecurity/Uri/Outbound.antt =====
-- src/file-security.ts: the parsed URLs that pass the outbound check.
use claw_crony.Base.{
  ℕ, ◌<◌, any, ◌∙◌, ◌≤◌, ◌≡◌, refl, sym, subst, ◌↔◌, ◌⊎◌, inl, inr, Bool, true, false, not, List,
  arith, ◌==◌, if◌then◌else◌, Bool-cases, length,
}
use claw_crony.Base.Text.{Text, lower, codes, same, same_iff}
use claw_crony.FileSecurity.Address.{Net, is_private_ip}
use claw_crony.FileSecurity.Numerals.{dotted}
use claw_crony.FileSecurity.Address.Ranges.{address, holds, private_blocks, is_private_ip-blocks}
use claw_crony.FileSecurity.Uri.Hosts.{IsListed, is_listed_iff}
use claw_crony.FileSecurity.Uri.{
  Url, Answer, Reason, Verdict, without_colon, strip_brackets, is_web, is_ip, is_listed,
  check_answer, check_host, check_outbound, found, failed, blocked_scheme, no_hostname,
  not_in_allowlist, blocked_private_ip, resolves_to_private_ip, passed, rejected,
}

-- The address that a request to the host goes to: the literal itself, or the answer of the name
-- service.
abbrev pub ConnectsTo : Net → (Text → Answer) → Text → Text → Type 0
ConnectsTo net resolve hostname ip =
    if is_ip net hostname then hostname ≡ ip else resolve hostname ≡ found ip

-- An IPv4 address written as four octets lies in none of the private blocks.
abbrev pub IsOutside : Net → Text → Type 0
IsOutside net ip =
    (a b c d : ℕ)
    → a < 256
    → b < 256
    → c < 256
    → d < 256
    → net.is_ipv4 ip ≡ true
    → ip ≡ dotted a b c d
    → any (holds (address a b c d)) private_blocks ≡ false

private-IsOutside : (net : Net) (ip : Text) → is_private_ip net ip ≡ false → IsOutside net ip
private-IsOutside net ip p a b c d ha hb hc hd v4 e =
    let v : net.is_ipv4 (dotted a b c d) ≡ true = subst (λ x. net.is_ipv4 x ≡ true) e v4 in
    sym (is_private_ip-blocks net a b c d ha hb hc hd v)
    ∙ subst (λ x. is_private_ip net x ≡ false) e p

-- Some address that is not private, and so outside the private blocks.
abbrev pub IsPublic : Net → (Text → Answer) → Text → Type 0
IsPublic net resolve hostname =
    (ip : Text) × (ConnectsTo net resolve hostname ip)
    × (is_private_ip net ip ≡ false)
    × IsOutside net ip

-- What is asked of a parsed URI.
pub record IsSafe (net : Net) (allowlist : List Text) (resolve : Text → Answer) (url : Url)
    : Type 0 where
  pub web : (lower url.protocol ≡ codes "http:") ⊎ (lower url.protocol ≡ codes "https:")
  pub named : 1 ≤ length url.hostname
  pub in_list : IsListed allowlist (strip_brackets url.hostname)
  pub goes_out : IsPublic net resolve (strip_brackets url.hostname)

pub is_web_iff :
    (scheme : Text)
    → (is_web scheme ≡ true) ↔ ((scheme ≡ codes "http:") ⊎ (scheme ≡ codes "https:"))
unfolding is_web
is_web_iff scheme = (
  λ e. elim (Bool-cases (same scheme (codes "http:"))) [
    | inl plain ↦ inl ((same_iff scheme (codes "http:")).0 plain)
    | inr other ↦ inr ((same_iff scheme (codes "https:")).0 (ground arith))
  ],
  λ h. elim h [
    | inl e ↦ let s = (same_iff scheme (codes "http:")).1 e in ground arith
    | inr e ↦ let s = (same_iff scheme (codes "https:")).1 e in ground arith
  ],
)

pub guard-passed :
    (b : Bool) (r : Reason) (v : Verdict)
    → (if b then rejected r else v) ≡ passed
    → (b ≡ false) × (v ≡ passed)
guard-passed true r v h = absurd (cc)
guard-passed false r v h = (refl, h)

check_answer-passed :
    (net : Net) (h : Text) (answer : Answer)
    → check_answer net h answer ≡ passed
    → (ip : Text) × (answer ≡ found ip) × (is_private_ip net ip ≡ false)
unfolding check_answer
check_answer-passed net h (found ip) e =
    (ip, refl, (guard-passed (is_private_ip net ip) (resolves_to_private_ip h ip) passed e).0)
check_answer-passed net h (failed message) e = absurd (cc)

module _ (net : Net) (allowlist : List Text) (resolve : Text → Answer) where
  check_host-passed :
      (h : Text)
      → check_host net allowlist resolve h ≡ passed
      → (is_listed allowlist h ≡ true) × IsPublic net resolve h
  unfolding check_host
  check_host-passed h e =
      let (l, rest) = guard-passed (not (is_listed allowlist h)) (not_in_allowlist h) _ e in
      (ground arith, reached rest)
    where
      reached :
          (if is_ip net h
              then if is_private_ip net h then rejected (blocked_private_ip h) else passed
              else check_answer net h (resolve h))
            ≡ passed
          → IsPublic net resolve h
      reached = elim (Bool-cases (is_ip net h)) [
        | inl i ↦ λ r. (
          h,
          rw i refl,
          (guard-passed (is_private_ip net h) (blocked_private_ip h) passed (rw i at r)).0,
          private-IsOutside net h
              (guard-passed (is_private_ip net h) (blocked_private_ip h) passed (rw i at r)).0,
        )
        | inr i ↦ λ r.
            let (ip, a, p) = check_answer-passed net h (resolve h) (rw i at r) in
            (ip, rw i a, p, private-IsOutside net ip p)
      ]

  check_answer-public :
      (h ip : Text) (answer : Answer)
      → answer ≡ found ip
      → is_private_ip net ip ≡ false
      → check_answer net h answer ≡ passed
  unfolding check_answer
  check_answer-public h ip answer a p = rw (a, p) refl

  public-passed :
      (h : Text)
      → is_listed allowlist h ≡ true
      → IsPublic net resolve h
      → check_host net allowlist resolve h ≡ passed
  unfolding check_host
  public-passed h l (ip, c, p, _) = elim (Bool-cases (is_ip net h)) [
    | inl i ↦
        let same_ip : h ≡ ip = rw i at c in
        let public : is_private_ip net h ≡ false =
          subst (λ x. is_private_ip net x ≡ false) (sym same_ip) p in
        rw (l, i, public) refl
    | inr i ↦
        let answer : resolve h ≡ found ip = rw i at c in
        rw (l, i) (check_answer-public h ip (resolve h) answer p)
  ]

  pub check_outbound-IsSafe :
      (url : Url)
      → check_outbound net allowlist resolve url ≡ passed
      → IsSafe net allowlist resolve url
  unfolding check_outbound
  check_outbound-IsSafe url e =
      let (w, e1) =
        guard-passed (not (is_web (lower url.protocol)))
          (blocked_scheme (without_colon (lower url.protocol))) _ e in
      let (n, e2) = guard-passed (length url.hostname == 0) no_hostname _ e1 in
      let (l, g) = check_host-passed (strip_brackets url.hostname) e2 in
      record {
        web = (is_web_iff (lower url.protocol)).0 (ground arith);
        named = ground arith;
        in_list = (is_listed_iff allowlist (strip_brackets url.hostname)).0 l;
        goes_out = g;
      }

  pub IsSafe-check_outbound :
      (url : Url)
      → IsSafe net allowlist resolve url
      → check_outbound net allowlist resolve url ≡ passed
  unfolding check_outbound
  IsSafe-check_outbound url safe =
      let nonempty : (length url.hostname == 0) ≡ false = (let n = safe.named in ground arith) in
      rw ((is_web_iff (lower url.protocol)).1 safe.web, nonempty)
        (public-passed (strip_brackets url.hostname)
          ((is_listed_iff allowlist (strip_brackets url.hostname)).1 safe.in_list) safe.goes_out)
