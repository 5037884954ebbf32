-- ===== src/AntiBan/Tests.antt =====
-- Runs of the anti-ban gates on a Redis in memory.
use linkedin_hyper_v.Prelude.{
  ℕ, ◌+◌, ◌*◌, ◌≤◌, ◌<◌, ◌≡◌, ◌≢◌, ◌⊎◌, ◌↔◌, refl, Bool, true, false, none, some, [], arith, truthy,
  eq_iff,
}
use linkedin_hyper_v.Redis.{incr_script}
use linkedin_hyper_v.Redis.Memory.{memory, memory_counters, memory_ttls, fresh}
use linkedin_hyper_v.AntiBan.BusinessHours.{
  Hours, is_within_business_hours, next_business_window, next_business_window_lem, day_ms, hour_ms,
}
use linkedin_hyper_v.AntiBan.Breaker.{
  Config, Store, allowed, gate_action, redis_ttl, account_cooldown, surface_blocked,
  record_surface_failure, count_failure, cool_account, blocked_count, surface_fail,
  redis_incr_with_expire, redis_set_with_expire,
}
use linkedin_hyper_v.AntiBan.Breaker.Gate.{gate_action-allowed_iff}
use linkedin_hyper_v.AntiBan.Breaker.Tripping.{
  record_surface_failure-shuts, record_surface_failure-cools,
}
use linkedin_hyper_v.AntiBan.Fingerprint.{Overrides}
use linkedin_hyper_v.AntiBan.Egress.{
  Env, Named, resolve_proxy_for_account, resolve_proxy_for_account_async, resolve_lem,
}

abbrev hours : Hours
hours = record { enabled = true; allow_weekends = false; start_hour = 9; end_hour = 18 }

-- Thresholds of one, so that one failure trips.
abbrev strict : Config
strict = record {
  surface_fail_window_s = 3600;
  surface_fail_threshold = 1;
  surface_cooldown_s = 21600;
  account_cooldown_s = 43200;
  account_cooldown_threshold = 1;
  hours = hours;
}

abbrev empty : Store memory
empty = record { server = fresh; mem_fallback = []; timers = [] }

-- Friday, 19:00.
abbrev friday_evening : ℕ
friday_evening = 5 * day_ms + 19 * hour_ms

next_business_window_example :
    (friday_evening < next_business_window hours friday_evening)
    × (next_business_window hours friday_evening ≤ friday_evening + 3 * day_ms)
    × (is_within_business_hours hours (next_business_window hours friday_evening) ≡ true)
next_business_window_example =
    next_business_window_lem hours friday_evening (omega arith) (omega arith)

gate_action-allowed_iff_example :
    (gate_action memory strict "ann" "inbox" false friday_evening friday_evening empty ≡ allowed)
    ↔ ((truthy "ann" ≡ true)
        × (redis_ttl memory (account_cooldown "ann") empty ≡ 0)
        × ((truthy "inbox" ≡ false) ⊎ (redis_ttl memory (surface_blocked "ann" "inbox") empty ≡ 0))
        × ((◌≡◌ {A = Bool} false false) ⊎ (is_within_business_hours hours friday_evening ≡ true)))
gate_action-allowed_iff_example =
    gate_action-allowed_iff memory strict "ann" "inbox" false friday_evening friday_evening empty

record_surface_failure-shuts_example :
    gate_action memory strict "ann" "inbox" false 0 0
      (record_surface_failure memory strict "ann" "inbox" "checkpoint" 0 empty).1
    ≢ allowed
record_surface_failure-shuts_example =
    record_surface_failure-shuts memory memory_counters memory_ttls strict "ann" "inbox"
      "checkpoint" 0 empty false 0 0 refl refl refl (omega arith) (omega arith) (omega arith)

record_surface_failure-cools_example :
    gate_action memory strict "ann" "posts" false 0 0
      (record_surface_failure memory strict "ann" "inbox" "checkpoint" 0 empty).1
    ≢ allowed
unfolding record_surface_failure count_failure cool_account blocked_count redis_ttl surface_blocked
    surface_fail redis_incr_with_expire redis_set_with_expire incr_script
record_surface_failure-cools_example =
    record_surface_failure-cools memory memory_counters memory_ttls strict "ann" "inbox"
      "checkpoint" 0 empty 1 "posts" false 0 0 (omega arith) refl

abbrev plain : Overrides
plain = record { timezone_id = ""; locale = ""; user_agent = ""; viewport = none }

abbrev pooled : Env
pooled = record {
  per_account = "pool";
  proxy_url = "http://p:1";
  proxy_pool_mode = "";
  require_proxy = true;
}

resolve_example :
    Named (resolve_proxy_for_account (λ s. s) pooled)
    × Named (resolve_proxy_for_account_async (λ s. s) pooled (some "http://q:2"))
resolve_example =
    resolve_lem (λ s. s) refl pooled (some "http://q:2") refl
      (λ e. ground (arith, eq_iff "http://q:2" "pool"))
