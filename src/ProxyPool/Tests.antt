-- ===== src/ProxyPool/Tests.antt =====
-- Runs of the proxy pool on a Redis in memory.
use linkedin_hyper_v.Prelude.{
  ◌≤◌, ◌≡◌, ◌≢◌, ◌⊎◌, refl, Bool, true, false, none, some, [], ◌∷◌, ◌++◌, arith, map_get, map_set,
}
use linkedin_hyper_v.Redis.Memory.{memory, memory_ttls, memory_sets, memory_set_laws, fresh}
use linkedin_hyper_v.ProxyPool.Candidates.{Syntax, Sources}
use linkedin_hyper_v.ProxyPool.Health.{
  Probe, answered, linkedin_status_ok, check_proxy, passes_gate, keep, refresh_loop,
  refresh_loop-keep, passes_gate-check_proxy,
}
use linkedin_hyper_v.ProxyPool.Choice.{
  Config, Store, pick, report_failure, in_cooldown, top_healthy, sticky, healthy_key, pick_new,
  first_free, assign_key, cooldown_key,
}
use linkedin_hyper_v.ProxyPool.Choice.Cooling.{PoolCall, after_calls, pick-report_failure}

abbrev config : Config
config = record {
  enabled = true;
  assign_ttl_s = 1800;
  cooldown_s = 3600;
  check_concurrency = 5;
  allow_hosting = false;
  sha = λ s. s;
}

abbrev one_proxy : Store memory memory_sets config
one_proxy = record { server = memory_sets.zadd healthy_key 90 "http://p:1" fresh; mem_healthy = [] }

abbrev good : Probe
good = record {
  playwright = true;
  context = true;
  ip = answered "203.0.113.7";
  geo = answered false;
  linkedin = answered 200;
  latency_ms = 850;
}

abbrev lenient : Syntax
lenient = record { trim = λ s. s; is_url = λ s. false; is_host_port = λ s. true }

abbrev twice : Sources
twice = record {
  pool_lines = "a:1" ∷ "a:1" ∷ "" ∷ [];
  file_lines = some ("b:2" ∷ []);
  url_lines = none;
}

given : (pick memory memory_sets config "ann" one_proxy).0 ≡ some "http://p:1"
unfolding pick pick_new sticky first_free top_healthy in_cooldown map_get map_set assign_key
    cooldown_key
given = refl

pick-report_failure_example :
    (pick memory memory_sets config "bob" (
      after_calls memory memory_sets config
        (PoolCall.picked "cid" ∷ PoolCall.reported "cid" "http://q:1" ∷ [])
        (report_failure memory memory_sets config "ann" "http://p:1" one_proxy))).0
    ≢ some "http://p:1"
pick-report_failure_example =
    pick-report_failure memory memory_sets config memory_ttls memory_set_laws "ann" "bob"
      "http://p:1" (PoolCall.picked "cid" ∷ PoolCall.reported "cid" "http://q:1" ∷ []) one_proxy
      refl (omega arith) refl

refresh_loop-keep_example :
    refresh_loop (λ url. check_proxy url good) false 4 2 ("a" ∷ "b" ∷ "c" ∷ []) []
    ≡ some ([] ++ keep (λ url. check_proxy url good) false ("a" ∷ "b" ∷ "c" ∷ []))
refresh_loop-keep_example =
    refresh_loop-keep (λ url. check_proxy url good) false 4 1 ("a" ∷ "b" ∷ "c" ∷ []) []
      (omega arith)

passes_gate-check_proxy_example :
    (70 ≤ (check_proxy "http://p:1" good).score)
    × ((check_proxy "http://p:1" good).score ≤ 100)
    × ((check_proxy "http://p:1" good).proxy_url ≡ "http://p:1")
    × (linkedin_status_ok good.linkedin ≡ true)
    × ((◌≡◌ {A = Bool} false true) ⊎ (good.geo ≢ answered true))
unfolding passes_gate check_proxy
passes_gate-check_proxy_example = passes_gate-check_proxy false "http://p:1" good refl
