-- ===== src/AntiBan/Egress.antt =====
-- Which proxy an account's traffic leaves by: resolveProxyForAccount and its asynchronous variant in
-- worker/src/antiBan.js. The environment's texts are arguments (the empty text if unset), and so
-- are `trim` and what the proxy pool answers (ProxyPool.Choice).
use linkedin_hyper_v.Prelude.{
  ◌≡◌, ◌≢◌, String, Bool, true, ◌&&◌, ◌||◌, not, Option, none, some, arith, truthy, str_eq, eq_iff,
  ap, ◌∙◌, Bool-cases, inl, inr, if◌then◌else◌,
}

pub data Egress : Type 0 where
  via : String → Egress
  direct proxy_required : Egress

pub record Env : Type 0 where
  pub per_account : String
  pub proxy_url : String
  pub proxy_pool_mode : String
  pub require_proxy : Bool

-- A proxy that is no sentinel, or a refusal.
abbrev pub Named : Egress → Type 0
Named (via p) = (p ≢ "") × (p ≢ "pool")
Named direct = ⊥
Named proxy_required = Unit

module _ (trim : String → String) where
  -- A proxy is named, and it is not the sentinel.
  abbrev names_proxy : String → Bool
  names_proxy s = truthy s && not (str_eq s "pool")

  unfoldable pub resolve_proxy_for_account : Env → Egress
  resolve_proxy_for_account e =
      if truthy e.per_account && names_proxy (trim e.per_account)
      then via (trim e.per_account)
      else (if truthy e.proxy_url && names_proxy (trim e.proxy_url)
          then via (trim e.proxy_url)
          else (if e.require_proxy then proxy_required else direct))

  abbrev want_pool : Env → Bool
  want_pool e =
      str_eq (trim e.per_account) "pool"
      || (str_eq e.proxy_pool_mode "1" || str_eq (trim e.proxy_url) "pool")

  -- What the pool answers if it is asked: `none` where it is disabled, has nothing, or throws.
  abbrev from_pool : Env → Option String → Option String
  from_pool e answer = elim answer [
    | none ↦ none
    | some picked ↦ if want_pool e && truthy picked then some picked else none
  ]

  abbrev after_pool : Env → Option String → Egress
  after_pool e (some picked) = via picked
  after_pool e none =
      if names_proxy (trim e.proxy_url)
      then via (trim e.proxy_url)
      else (if e.require_proxy then proxy_required else direct)

  unfoldable pub resolve_proxy_for_account_async : Env → Option String → Egress
  resolve_proxy_for_account_async e answer =
      if names_proxy (trim e.per_account)
      then via (trim e.per_account)
      else after_pool e (from_pool e answer)

  Named-via : (p : String) → names_proxy p ≡ true → Named (via p)
  Named-via p h = ground (arith, eq_iff p "", eq_iff p "pool")

  Named-after_pool :
      (e : Env) (answer : Option String)
      → e.require_proxy ≡ true
      → answer ≢ some "pool"
      → answer ≢ some ""
      → Named (after_pool e answer)
  Named-after_pool e (some p) required h k = ((λ q. k (ap some q)), (λ q. h (ap some q)))
  Named-after_pool e none required h k = elim (Bool-cases (names_proxy (trim e.proxy_url))) [
    | inl named ↦ rw named (Named-via _ named)
    | inr not ↦ rw (not, required) tt
  ]

  from_pool_lem :
      (e : Env) (answer : Option String)
      → answer ≢ some "pool"
      → (from_pool e answer ≢ some "pool") × (from_pool e answer ≢ some "")
  from_pool_lem e none h = (λ q. cc, λ q. cc)
  from_pool_lem e (some picked) h = (λ q. ground arith, λ q. ground (arith, eq_iff picked ""))

  Named-async :
      (e : Env) (answer : Option String)
      → e.require_proxy ≡ true
      → answer ≢ some "pool"
      → Named (resolve_proxy_for_account_async e answer)
  unfolding resolve_proxy_for_account_async
  Named-async e answer required h = elim (Bool-cases (names_proxy (trim e.per_account))) [
    | inl named ↦ rw named (Named-via _ named)
    | inr not ↦ rw not (
        Named-after_pool e (from_pool e answer) required (from_pool_lem e answer h).0
          (from_pool_lem e answer h).1)
  ]

  module _ (trim_empty : trim "" ≡ "") (e : Env) where
    names_trim : (s : String) → (truthy s && names_proxy (trim s)) ≡ names_proxy (trim s)
    names_trim s = elim (Bool-cases (str_eq s "")) [
      | inl empty ↦
          let e : trim s ≡ "" = ap trim ((eq_iff s "").0 empty) ∙ trim_empty in rw (empty, e)
      | inr full ↦ rw full
    ]

    -- Where the pool answers nothing, the two resolvers agree.
    pub resolve-async : resolve_proxy_for_account_async e none ≡ resolve_proxy_for_account e
    unfolding resolve_proxy_for_account_async resolve_proxy_for_account
    resolve-async = rw (names_trim e.per_account, names_trim e.proxy_url)

    -- Where a proxy is required, neither resolver lets traffic leave directly. What they name is
    -- not empty, and not the sentinel "pool", unless the pool itself answered that.
    pub resolve_lem :
        (answer : Option String)
        → e.require_proxy ≡ true
        → answer ≢ some "pool"
        → Named (resolve_proxy_for_account e) × Named (resolve_proxy_for_account_async e answer)
    resolve_lem answer required h = (
      rw (← resolve-async) (Named-async e none required (λ q. cc)),
      Named-async e answer required h,
    )
