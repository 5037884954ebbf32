-- ===== src/AntiBan/Breaker.antt =====
-- The circuit breaker and the action gate of worker/src/antiBan.js. Redis and the clock are
-- arguments. The only text that the module stores is "1", and only its presence is read, so the
-- fallback map holds numbers here.
pub mod Clearing
pub mod Gate
pub mod Tripping
use linkedin_hyper_v.Prelude.{
  ℕ, suc, ◌+◌, ◌≡◌, String, Bool, true, false, ◌&&◌, ◌||◌, not, Option, none, some, List, [], ◌∷◌,
  ◌++◌, map, ltb, leb, if◌then◌else◌, str_eq, truthy, includes, template, has_text, ends_with,
  TextMap, map_get, map_set, map_delete, all,
}
use linkedin_hyper_v.Prelude.Int.{ℤ, pos_part}
use linkedin_hyper_v.Redis.{Redis, incr_script, or_zero}
use linkedin_hyper_v.AntiBan.BusinessHours.{
  Hours, is_within_business_hours, seconds_until_next_business_window,
}

pub record Config : Type 0 where
  pub surface_fail_window_s : ℕ
  pub surface_fail_threshold : ℕ
  pub surface_cooldown_s : ℕ
  pub account_cooldown_s : ℕ
  pub account_cooldown_threshold : ℕ
  pub hours : Hours

abbrev pub surfaces : List String
surfaces =
    "inbox" ∷ "thread" ∷ "connections" ∷ "invitations" ∷ "notifications" ∷ "posts" ∷ "search" ∷ []

unfoldable pub surface_fail : String → String → String
surface_fail a s = template ("antiban:fail:" ∷ a ∷ ":" ∷ s ∷ [])

unfoldable pub surface_blocked : String → String → String
surface_blocked a s = template ("antiban:blocked:" ∷ a ∷ ":" ∷ s ∷ [])

unfoldable pub account_cooldown : String → String
account_cooldown a = template ("antiban:cooldown:account:" ∷ a ∷ [])

-- `{ allowed, reason, retryAfterSeconds }`
pub data Verdict : Type 0 where
  allowed missing_account_id : Verdict
  in_account_cooldown in_surface_block outside_business_hours : ℕ → Verdict

-- `{ tripped, scope, count, blockedCount }`
pub data Trip : Type 0 where
  not_counted : Trip
  not_tripped : ℕ → Trip
  account_scope : ℕ → Trip
  surface_scope : Trip

abbrev pub hard_signals : List String
hard_signals = "blocked" ∷ "automation_warning" ∷ "checkpoint" ∷ "expired" ∷ []

-- What clearAccountCooldown deletes.
abbrev cleared_keys : String → List String
cleared_keys account =
    account_cooldown account
    ∷ (map (surface_blocked account) surfaces ++ map (surface_fail account) surfaces)

module _ (r : Redis) where
  -- Redis, `memFallback`, and the timers set to delete its entries.
  pub record Store : Type 0 where
    pub server : r.Server
    pub mem_fallback : TextMap ℕ
    pub timers : List (ℕ × String)

  unfoldable pub redis_incr_with_expire : String → ℕ → ℕ → Store → ℕ × Store
  redis_incr_with_expire key ttl_seconds now w =
      if r.up w.server
      then (let (count, s) = incr_script r key ttl_seconds w.server in
          (count, record w { server = s }))
      else (let next = or_zero (map_get w.mem_fallback key) + 1 in
          (
            next,
            record w {
              mem_fallback = map_set w.mem_fallback key next;
              timers = (now + ttl_seconds, key) ∷ w.timers;
            },
          ))

  unfoldable pub redis_set_with_expire : String → ℕ → ℕ → Store → Store
  redis_set_with_expire key ttl_seconds now w =
      if r.up w.server
      then record w { server = r.set_ex key "1" ttl_seconds w.server }
      else record w {
        mem_fallback = map_set w.mem_fallback key 1;
        timers = (now + ttl_seconds, key) ∷ w.timers;
      }

  abbrev has : TextMap ℕ → String → Bool
  has m key = elim (map_get m key) [ none ↦ false | some n ↦ true ]

  unfoldable pub redis_ttl : String → Store → ℕ
  redis_ttl key w =
      if r.up w.server
      then pos_part (r.ttl key w.server)
      else (if has w.mem_fallback key then 60 else 0)

  -- `surface` is the empty text where the caller names none; `local` is the time in the account's
  -- zone, and `default_local` the time in the zone that the wait is computed in.
  unfoldable pub gate_action :
      Config
      → (account surface : String) (enforce : Bool) (local default_local : ℕ) → Store
      → Verdict
  gate_action c account surface enforce local default_local w =
      if not (truthy account)
      then missing_account_id
      else (let cooldown_ttl = redis_ttl (account_cooldown account) w in
          let surface_ttl = redis_ttl (surface_blocked account surface) w in
          if ltb 0 cooldown_ttl
          then in_account_cooldown cooldown_ttl
          else (if truthy surface && ltb 0 surface_ttl
              then in_surface_block surface_ttl
              else (if enforce && not (is_within_business_hours c.hours local)
                  then outside_business_hours
                      (seconds_until_next_business_window c.hours default_local)
                  else allowed)))

  unfoldable pub blocked_count : String → List String → Store → ℕ
  blocked_count account [] w = 0
  blocked_count account (s ∷ rest) w =
      let n = blocked_count account rest w in
      if ltb 0 (redis_ttl (surface_blocked account s) w) then suc n else n

  -- The part of recordSurfaceFailure after the surface's own breaker is set.
  unfoldable pub cool_account : Config → String → ℕ → Store → Trip × Store
  unfolding blocked_count
  cool_account c account now w =
      let n = blocked_count account surfaces w in
      if leb c.account_cooldown_threshold n
      then ((
        account_scope n,
        redis_set_with_expire (account_cooldown account) c.account_cooldown_s now w,
      ))
      else (surface_scope, w)

  -- The part after the two guards.
  unfoldable pub count_failure :
      Config → (account surface : String) (now : ℕ) → Store → Trip × Store
  count_failure c account surface now w =
      let (count, w') =
        redis_incr_with_expire (surface_fail account surface) c.surface_fail_window_s now w in
      if ltb count c.surface_fail_threshold
      then (not_tripped count, w')
      else cool_account c account now
          (redis_set_with_expire (surface_blocked account surface) c.surface_cooldown_s now w')

  -- `posture` is the empty text where the caller gives none.
  unfoldable pub record_surface_failure :
      Config → (account surface posture : String) (now : ℕ) → Store → Trip × Store
  record_surface_failure c account surface posture now w =
      if not (truthy account) || not (truthy surface)
      then (not_counted, w)
      else (if truthy posture && not (includes hard_signals posture)
          then (not_counted, w)
          else count_failure c account surface now w)

  unfoldable pub del_all : List String → r.Server → r.Server
  del_all [] s = s
  del_all (key ∷ rest) s = del_all rest (r.del key s)

  -- The fallback deletes every key that names the account.
  unfoldable pub sweep : String → TextMap ℕ → TextMap ℕ
  sweep account [] = []
  sweep account ((key, n) ∷ rest) =
      let rest' = sweep account rest in
      if has_text key (template (":" ∷ account ∷ ":" ∷ []))
        || ends_with key (template (":" ∷ account ∷ []))
      then rest'
      else (key, n) ∷ rest'

  unfoldable pub clear_account_cooldown : String → Store → Store
  unfolding del_all sweep
  clear_account_cooldown account w =
      if r.up w.server
      then record w { server = del_all (cleared_keys account) w.server }
      else record w { mem_fallback = sweep account w.mem_fallback }
