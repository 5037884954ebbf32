-- ===== src/ProxyPool/Choice.antt =====
-- Publishing the healthy proxies, choosing one for an account, and reporting a failure.
pub mod Laws
pub mod Cooling
use linkedin_hyper_v.Prelude.{
  ℕ, ◌*◌, String, Bool, true, false, ◌&&◌, not, Option, none, some, List, [], ◌∷◌, map, length, ltb,
  if◌then◌else◌, truthy, template, TextMap, map_set, take,
}
use linkedin_hyper_v.Prelude.Int.{pos_part}
use linkedin_hyper_v.Redis.{Redis, SortedSets}
use linkedin_hyper_v.ProxyPool.Health.{Check, refresh_loop}

pub record Config : Type 0 where
  pub enabled : Bool
  pub assign_ttl_s : ℕ
  pub cooldown_s : ℕ
  pub check_concurrency : ℕ
  pub allow_hosting : Bool
  -- The first 16 hex digits of the SHA-1.
  pub sha : String → String

abbrev pub healthy_key : String
healthy_key = "proxypool:healthy"

unfoldable pub assign_key : String → String
assign_key account = template ("proxypool:assign:" ∷ account ∷ [])

unfoldable pub cooldown_key : Config → String → String
cooldown_key c proxy_url = template ("proxypool:cooldown:" ∷ c.sha proxy_url ∷ [])

-- `[...memHealthy.entries()].sort((a, b) => b[1] - a[1])`, which keeps the order of equal scores.
unfoldable pub place : String × ℕ → List (String × ℕ) → List (String × ℕ)
place e [] = e ∷ []
place e (d ∷ rest) = if ltb e.1 d.1 then d ∷ place e rest else e ∷ d ∷ rest

unfoldable pub by_score : TextMap ℕ → List (String × ℕ)
unfolding place
by_score [] = []
by_score (e ∷ rest) = place e (by_score rest)

module _ (r : Redis) (z : SortedSets r) (c : Config) where
  -- Redis and `memHealthy`.
  pub record Store : Type 0 where
    pub server : r.Server
    pub mem_healthy : TextMap ℕ

  zadd_all : List Check → r.Server → r.Server
  zadd_all [] s = s
  zadd_all (h ∷ rest) s = zadd_all rest (z.zadd healthy_key h.score h.proxy_url s)

  set_all : List Check → TextMap ℕ → TextMap ℕ
  set_all [] m = m
  set_all (h ∷ rest) m = set_all rest (map_set m h.proxy_url h.score)

  -- One transaction on Redis; without Redis the map is cleared and filled.
  unfoldable pub publish : List Check → Store → Store
  unfolding zadd_all set_all
  publish healthy w =
      if r.up w.server
      then record w {
        server = r.expire healthy_key (2 * 3600) (zadd_all healthy (r.del healthy_key w.server));
      }
      else record w { mem_healthy = set_all healthy [] }

  -- `{ checked, healthy }` and the new state; `none` means that the fuel ran out.
  unfoldable pub refresh :
      (fuel : ℕ) (check : String → Check) (candidates : List String)
      → Store
      → Option ((ℕ × ℕ) × Store)
  refresh fuel check [] w = some ((0, 0), w)
  refresh fuel check (url ∷ rest) w =
      if not c.enabled
      then some ((0, 0), w)
      else published (refresh_loop check c.allow_hosting fuel c.check_concurrency (url ∷ rest) [])
    where
      published : Option (List Check) → Option ((ℕ × ℕ) × Store)
      published none = none
      published (some healthy) = some ((length (url ∷ rest), length healthy), publish healthy w)

  unfoldable pub in_cooldown : String → Store → Bool
  in_cooldown proxy_url w =
      r.up w.server && ltb 0 (pos_part (r.ttl (cooldown_key c proxy_url) w.server))

  unfoldable pub top_healthy : Store → List String
  unfolding by_score
  top_healthy w =
      if r.up w.server
      then z.zrevrange healthy_key 20 w.server
      else map (λ e. e.0) (by_score w.mem_healthy)

  -- The current assignment, if it can be kept.
  abbrev kept : Option String → Store → Option String
  kept none w = none
  kept (some current) w =
      if truthy current && not (in_cooldown current w)
      then elim (z.zscore healthy_key current w.server) [ none ↦ none | some n ↦ some current ]
      else none

  unfoldable pub sticky : String → Store → Option String
  sticky account w = if r.up w.server then kept (r.get (assign_key account) w.server) w else none

  unfoldable pub first_free : List String → Store → Option String
  first_free [] w = none
  first_free (p ∷ rest) w =
      let later = first_free rest w in if in_cooldown p w then later else some p

  abbrev pub assign : String → Option String → Store → Option String × Store
  assign account none w = (none, w)
  assign account (some p) w = (
    some p,
    (if r.up w.server
        then record w { server = r.set_ex (assign_key account) p c.assign_ttl_s w.server }
        else w),
  )

  unfoldable pub pick_new : String → Option String → Store → Option String × Store
  pick_new account none w = assign account (first_free (top_healthy w) w) w
  pick_new account (some current) w =
      (some current, record w { server = r.expire (assign_key account) c.assign_ttl_s w.server })

  unfoldable pub pick : String → Store → Option String × Store
  unfolding pick_new
  pick account w = if not c.enabled then (none, w) else pick_new account (sticky account w) w

  -- The rejection of a command is caught at once, so that `memHealthy` keeps the proxy then.
  unfoldable pub report_failure : (account proxy_url : String) → Store → Store
  report_failure account proxy_url w =
      if truthy proxy_url && r.up w.server
      then record w {
        server =
            let cooled =
              z.zrem healthy_key proxy_url
                (r.set_ex (cooldown_key c proxy_url) "1" c.cooldown_s w.server) in
            if truthy account then r.del (assign_key account) cooled else cooled;
      }
      else w
