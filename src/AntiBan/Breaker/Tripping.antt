-- ===== src/AntiBan/Breaker/Tripping.antt =====
-- What a recorded failure does to the gate.
use linkedin_hyper_v.Prelude.{
  ℕ, suc, ◌+◌, ◌≤◌, ◌<◌, ◌≡◌, ◌≢◌, refl, String, Bool, true, false, ◌||◌, not, arith, truthy,
  includes, str_eq, eq_iff, if◌then◌else◌, map_get-map_set, map_get, prefix_differs,
}
use linkedin_hyper_v.Redis.{
  Redis, CounterLaws, TtlLaws, or_zero, incr_script_reply, up-incr_script, ttl-incr_script,
}
use linkedin_hyper_v.AntiBan.Breaker.{
  Config, Store, Trip, not_counted, not_tripped, account_scope, allowed, hard_signals, gate_action,
  redis_ttl, redis_incr_with_expire, redis_set_with_expire, account_cooldown, surface_blocked,
  surface_fail, cool_account, count_failure, record_surface_failure,
}

-- Keys of two families differ.
fail-ne-blocked : (a s b t : String) → str_eq (surface_fail a s) (surface_blocked b t) ≡ false
unfolding surface_fail surface_blocked
fail-ne-blocked a s b t = prefix_differs "antiban:f" "antiban:b" "ail:" "locked:" _ _ refl refl

fail-ne-cooldown : (a s b : String) → str_eq (surface_fail a s) (account_cooldown b) ≡ false
unfolding surface_fail account_cooldown
fail-ne-cooldown a s b =
    prefix_differs "antiban:f" "antiban:c" "ail:" "ooldown:account:" _ _ refl refl

module _ (r : Redis) (counters : CounterLaws r) (ttls : TtlLaws r) where
  -- How often the surface has failed within its window.
  unfoldable pub failures : String → Store r → ℕ
  failures key w =
      if r.up w.server then counters.count w.server key else or_zero (map_get w.mem_fallback key)

  redis_incr_reply :
      (k : String) (t now : ℕ) (w : Store r)
      → (redis_incr_with_expire r k t now w).0 ≡ suc (failures k w)
  unfolding redis_incr_with_expire failures
  redis_incr_reply k t now w = ground (arith, incr_script_reply r counters k t w.server)

  redis_ttl-incr :
      (k j : String) (t now : ℕ) (w : Store r)
      → str_eq k j ≡ false
      → redis_ttl r j (redis_incr_with_expire r k t now w).1 ≡ redis_ttl r j w
  unfolding redis_incr_with_expire redis_ttl
  redis_ttl-incr k j t now w h = ground (
    arith,
    ttl-incr_script r ttls k j t w.server h,
    up-incr_script r counters k t w.server,
    map_get-map_set w.mem_fallback k j (suc (or_zero (map_get w.mem_fallback k))),
    map_get-map_set w.mem_fallback k j (or_zero (map_get w.mem_fallback k) + 1),
  )

  -- A key that is set reads as blocked, and no block ends by setting one.
  redis_ttl-set :
      (k j : String) (t now : ℕ) (w : Store r)
      → 0 < t
      → (0 < redis_ttl r k (redis_set_with_expire r k t now w))
        × (0 < redis_ttl r j w → 0 < redis_ttl r j (redis_set_with_expire r k t now w))
  unfolding redis_set_with_expire redis_ttl
  redis_ttl-set k j t now w h = ground (
    arith,
    ttls.ttl-set_ex k k "1" t w.server,
    ttls.ttl-set_ex k j "1" t w.server,
    ttls.up-set_ex k "1" t w.server,
    map_get-map_set w.mem_fallback k j 1,
    map_get-map_set w.mem_fallback k k 1,
    eq_iff k k,
    eq_iff k j,
  )

  -- The gate reads two times to live.
  gate_action-shut :
      (c : Config) (a s : String) (enforce : Bool) (local default_local : ℕ) (w : Store r)
      → 0 < redis_ttl r (account_cooldown a) w
      → gate_action r c a s enforce local default_local w ≢ allowed
  unfolding gate_action
  gate_action-shut c a s enforce local default_local w h = ground arith

  gate_action-same :
      (c : Config) (a s : String) (enforce : Bool) (local default_local : ℕ) (v w : Store r)
      → redis_ttl r (account_cooldown a) v ≡ redis_ttl r (account_cooldown a) w
      → redis_ttl r (surface_blocked a s) v ≡ redis_ttl r (surface_blocked a s) w
      → gate_action r c a s enforce local default_local v
        ≡ gate_action r c a s enforce local default_local w
  unfolding gate_action
  gate_action-same c a s enforce local default_local v w p q = rw (p, q)

  cool_account-cools :
      (c : Config) (a : String) (now n : ℕ) (w : Store r)
      → 0 < c.account_cooldown_s
      → (cool_account r c a now w).0 ≡ account_scope n
      → 0 < redis_ttl r (account_cooldown a) (cool_account r c a now w).1
  unfolding cool_account
  cool_account-cools c a now n w h e =
      ground
        (arith, redis_ttl-set (account_cooldown a) (account_cooldown a) c.account_cooldown_s now w)

  abbrev pub is_quiet : Trip → Bool
  is_quiet not_counted = true
  is_quiet (not_tripped n) = true
  is_quiet _ = false

  cool_account-loud :
      (c : Config) (a : String) (now : ℕ) (w : Store r)
      → is_quiet (cool_account r c a now w).0 ≡ false
  unfolding cool_account
  cool_account-loud c a now w = ground arith

  module _ (c : Config) (account surface : String) (now : ℕ) where
    abbrev counted : Store r → Trip × Store r
    counted = count_failure r c account surface now

    count_failure-cools :
        (w : Store r) (n : ℕ)
        → 0 < c.account_cooldown_s
        → (counted w).0 ≡ account_scope n
        → 0 < redis_ttl r (account_cooldown account) (counted w).1
    unfolding count_failure
    count_failure-cools w n ac e = grind (arith, cool_account-cools)

    count_failure-quiet :
        (w : Store r) (key : String)
        → is_quiet (counted w).0 ≡ true
        → str_eq (surface_fail account surface) key ≡ false
        → redis_ttl r key (counted w).1 ≡ redis_ttl r key w
    unfolding count_failure
    count_failure-quiet w key e h = grind (arith, redis_ttl-incr, cool_account-loud)

  module _ (c : Config) (account surface posture : String) (now : ℕ) where
    abbrev recorded : Store r → Trip × Store r
    recorded w = record_surface_failure r c account surface posture now w

    -- A hard signal: no posture is named, or one of the four.
    abbrev pub is_hard : Bool
    is_hard = not (truthy posture) || includes hard_signals posture

    -- The hard failure that reaches the threshold shuts the surface: no call for it passes the
    -- gate, whatever the hour, provided that Redis answers both the record and the gate or neither.
    pub record_surface_failure-shuts :
        (w : Store r) (enforce : Bool) (local default_local : ℕ)
        → truthy account ≡ true
        → truthy surface ≡ true
        → is_hard ≡ true
        → 0 < c.surface_cooldown_s
        → 0 < c.account_cooldown_s
        → c.surface_fail_threshold ≤ suc (failures (surface_fail account surface) w)
        → gate_action r c account surface enforce local default_local (recorded w).1 ≢ allowed
    unfolding record_surface_failure count_failure cool_account gate_action
    record_surface_failure-shuts w enforce local default_local a s hard sc ac reached =
        grind (arith, redis_incr_reply, redis_ttl-set)

    -- When the failure cools the whole account down, no surface of it passes the gate.
    pub record_surface_failure-cools :
        (w : Store r) (n : ℕ) (other : String) (enforce : Bool) (local default_local : ℕ)
        → 0 < c.account_cooldown_s
        → (recorded w).0 ≡ account_scope n
        → gate_action r c account other enforce local default_local (recorded w).1 ≢ allowed
    unfolding record_surface_failure
    record_surface_failure-cools w n other enforce local default_local ac e =
        gate_action-shut c account other enforce local default_local (recorded w).1
          (ground (arith, count_failure-cools c account surface now w n ac))

    quiet_ttl :
        (w : Store r) (key : String)
        → is_quiet (recorded w).0 ≡ true
        → str_eq (surface_fail account surface) key ≡ false
        → redis_ttl r key (recorded w).1 ≡ redis_ttl r key w
    unfolding record_surface_failure
    quiet_ttl w key e h = ground (arith, count_failure-quiet c account surface now w key)

    -- A failure that is not counted, or that stays below the threshold, changes no verdict of the
    -- gate, for any account and surface.
    pub record_surface_failure-quiet :
        (w : Store r) (b other : String) (enforce : Bool) (local default_local : ℕ)
        → is_quiet (recorded w).0 ≡ true
        → gate_action r c b other enforce local default_local (recorded w).1
          ≡ gate_action r c b other enforce local default_local w
    record_surface_failure-quiet w b other enforce local default_local e =
        gate_action-same c b other enforce local default_local (recorded w).1 w
          (quiet_ttl w (account_cooldown b) e (fail-ne-cooldown account surface b))
          (quiet_ttl w (surface_blocked b other) e (fail-ne-blocked account surface b other))
