-- ===== src/AntiBan/Breaker/Gate.antt =====
-- When the gate of an action opens.
use linkedin_hyper_v.Prelude.{ℕ, ◌≡◌, ◌↔◌, ◌⊎◌, String, Bool, true, false, arith, truthy}
use linkedin_hyper_v.Redis.{Redis}
use linkedin_hyper_v.AntiBan.BusinessHours.{is_within_business_hours}
use linkedin_hyper_v.AntiBan.Breaker.{
  Config, Store, allowed, gate_action, redis_ttl, account_cooldown, surface_blocked,
}

module _ (r : Redis) (c : Config) (account surface : String) (enforce : Bool)
    (local default_local : ℕ) where
  -- The gate opens exactly for a named account that is in no cooldown, at a surface that is not
  -- blocked (or at none), within business hours where these are enforced.
  pub gate_action-allowed_iff :
      (w : Store r)
      → (gate_action r c account surface enforce local default_local w ≡ allowed) ↔ (
          (truthy account ≡ true)
          × (redis_ttl r (account_cooldown account) w ≡ 0)
          × ((truthy surface ≡ false) ⊎ (redis_ttl r (surface_blocked account surface) w ≡ 0))
          × ((enforce ≡ false) ⊎ (is_within_business_hours c.hours local ≡ true)))
  unfolding gate_action
  gate_action-allowed_iff w = ground arith
