-- ===== src/ProxyPool/Health.antt =====
-- The health check and the refresh of the pool.
use mathlib.Core.List.{append-nil, append_assoc}
use linkedin_hyper_v.Prelude.{
  ℕ, zero, suc, ◌+◌, ◌≤◌, ◌<◌, ◌≡◌, ◌≢◌, ◌⊎◌, refl, sym, ap, ◌∙◌, String, Bool, true, false, ◌&&◌,
  ◌||◌, not, Option, none, some, List, [], ◌∷◌, ◌++◌, arith, length, take, ltb, leb, if◌then◌else◌,
}

-- A request: it throws, answers with an error status or an unreadable body, or answers.
pub data Reply {ℓ} (A : Type ℓ) : Type ℓ where
  thrown refused : Reply A
  answered : A → Reply A

pub record Probe : Type 0 where
  pub playwright : Bool
  pub context : Bool
  pub ip : Reply String
  -- `hosting || proxy`
  pub geo : Reply Bool
  pub linkedin : Reply ℕ
  pub latency_ms : ℕ

pub record Check : Type 0 where
  pub proxy_url : String
  pub alive : Bool
  pub egress_ip : Option String
  pub hosting : Option Bool
  pub linkedin_ok : Bool
  pub latency : Option ℕ
  pub score : ℕ

abbrev dead : String → Check
dead proxy_url = record {
  proxy_url = proxy_url;
  alive = false;
  egress_ip = none;
  hosting = none;
  linkedin_ok = false;
  latency = none;
  score = 0;
}

abbrev pub linkedin_status_ok : Reply ℕ → Bool
linkedin_status_ok (answered status) = leb 200 status && ltb status 300
linkedin_status_ok _ = false

abbrev points : Bool → ℕ → ℕ
points b n = if b then n else 0

abbrev is_residential : Option Bool → Bool
is_residential (some false) = true
is_residential _ = false

-- The score of a proxy that answered; a latency of 0 gives no points, as in the source.
score_of : Option Bool → Bool → ℕ → ℕ
score_of hosting linkedin_ok latency =
    30
    + points linkedin_ok 40
    + points (is_residential hosting) 20
    + points (ltb 0 latency && ltb latency 4000) 10

abbrev finish : Check → Option Bool → Probe → Check
unfolding score_of
finish r hosting p =
    let ok = linkedin_status_ok p.linkedin in
    record r {
      hosting = hosting;
      linkedin_ok = ok;
      latency = some p.latency_ms;
      score = score_of hosting ok p.latency_ms;
    }

abbrev after_ip : Check → Probe → Reply Bool → Check
after_ip r p thrown = r
after_ip r p refused = finish r none p
after_ip r p (answered h) = finish r (some h) p

check_answers : String → Probe → Reply String → Check
check_answers url p (answered ip) =
    after_ip (record (dead url) { alive = true; egress_ip = some ip }) p p.geo
check_answers url p _ = dead url

unfoldable pub check_proxy : String → Probe → Check
unfolding check_answers score_of
check_proxy url p = if p.playwright && p.context then check_answers url p p.ip else dead url

abbrev is_hosting : Option Bool → Bool
is_hosting (some true) = true
is_hosting _ = false

unfoldable pub passes_gate : (allow_hosting : Bool) → Check → Bool
passes_gate allow_hosting r =
    if not r.alive
    then false
    else (if not r.linkedin_ok
        then false
        else (if not allow_hosting && is_hosting r.hosting then false else true))

-- What passes the gate answered, reached LinkedIn without a redirect, and scores 70 at least; it is
-- no datacenter address unless those are allowed.
pub passes_gate-check_proxy :
    (allow_hosting : Bool) (url : String) (p : Probe)
    → passes_gate allow_hosting (check_proxy url p) ≡ true
    → (70 ≤ (check_proxy url p).score)
      × ((check_proxy url p).score ≤ 100)
      × ((check_proxy url p).proxy_url ≡ url)
      × (linkedin_status_ok p.linkedin ≡ true)
      × ((allow_hosting ≡ true) ⊎ (p.geo ≢ answered true))
unfolding passes_gate check_proxy
passes_gate-check_proxy allow_hosting url p h = ground arith

module _ (check : String → Check) (allow_hosting : Bool) where
  -- The reference: the proxies that are alive, reach LinkedIn and are no datacenter address unless
  -- those are allowed, in the order of the candidates.
  unfoldable pub keep : List String → List Check
  keep [] = []
  keep (url ∷ rest) =
      let r = check url in
      let kept = keep rest in
      if r.alive && (r.linkedin_ok && (allow_hosting || not (is_hosting r.hosting)))
      then r ∷ kept
      else kept

  -- The loop over the results of a batch, `Promise.all` of its checks, which pushes those that pass the
  -- gate.
  unfoldable pub push_passing : List String → List Check → List Check
  push_passing [] healthy = healthy
  push_passing (url ∷ rest) healthy =
      let r = check url in
      push_passing rest (if passes_gate allow_hosting r then healthy ++ (r ∷ []) else healthy)

  abbrev drop : ℕ → List String → List String
  drop zero xs = xs
  drop (suc n) [] = []
  drop (suc n) (x ∷ xs) = drop n xs

  -- The loop of `refresh` over batches: `none` means that the fuel ran out.
  unfoldable pub refresh_loop : ℕ → ℕ → List String → List Check → Option (List Check)
  refresh_loop zero concurrency left healthy = none
  refresh_loop (suc fuel) concurrency [] healthy = some healthy
  refresh_loop (suc fuel) concurrency (url ∷ rest) healthy =
      refresh_loop fuel concurrency (drop concurrency (url ∷ rest))
        (push_passing (take concurrency (url ∷ rest)) healthy)

  push_passing-keep :
      (urls : List String) (healthy : List Check) → push_passing urls healthy ≡ healthy ++ keep urls
  unfolding push_passing keep passes_gate
  push_passing-keep [] healthy = sym (append-nil healthy)
  push_passing-keep (url ∷ rest) healthy = ground (
    arith,
    push_passing-keep rest healthy,
    push_passing-keep rest (healthy ++ (check url ∷ [])),
    append_assoc healthy (check url ∷ []) (keep rest),
  )

  keep-take-drop : (n : ℕ) (xs : List String) → keep (take n xs) ++ keep (drop n xs) ≡ keep xs
  unfolding keep
  keep-take-drop zero xs = refl
  keep-take-drop (suc n) [] = refl
  keep-take-drop (suc n) (x ∷ xs) = ground (arith, keep-take-drop n xs)

  length-drop-le : (n : ℕ) (xs : List String) → length (drop n xs) ≤ length xs
  length-drop-le zero xs = omega arith
  length-drop-le (suc n) [] = omega arith
  length-drop-le (suc n) (x ∷ xs) = omega (arith, length-drop-le n xs)

  -- With a concurrency of at least one, the batched health checks end within one round more than there
  -- are candidates, and keep exactly the candidates whose check is alive, reaches LinkedIn, and is not
  -- known to be hosting unless that is allowed, in order.
  pub refresh_loop-keep :
      (fuel c : ℕ) (xs : List String) (healthy : List Check)
      → length xs < fuel
      → refresh_loop fuel (suc c) xs healthy ≡ some (healthy ++ keep xs)
  unfolding refresh_loop keep
  refresh_loop-keep zero c xs healthy h = absurd (omega arith)
  refresh_loop-keep (suc fuel) c [] healthy h = ap some (sym (append-nil healthy))
  refresh_loop-keep (suc fuel) c (url ∷ rest) healthy h =
      let batch = take (suc c) (url ∷ rest) in
      refresh_loop-keep fuel c (drop c rest) (push_passing batch healthy)
        (omega (arith, length-drop-le c rest))
      ∙ ap some (
          ap (λ pushed. pushed ++ keep (drop c rest)) (push_passing-keep batch healthy)
          ∙ append_assoc healthy (keep batch) (keep (drop c rest))
          ∙ ap (◌++◌ healthy) (keep-take-drop (suc c) (url ∷ rest)))

  -- With a concurrency of zero the loop never ends, if there is a candidate.
  pub refresh_loop-zero :
      (fuel : ℕ) (url : String) (rest : List String) (healthy : List Check)
      → refresh_loop fuel 0 (url ∷ rest) healthy ≡ none
  unfolding refresh_loop push_passing
  refresh_loop-zero zero url rest healthy = refl
  refresh_loop-zero (suc fuel) url rest healthy = refresh_loop-zero fuel url rest healthy
