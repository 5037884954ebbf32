-- ===== src/RateLimit/Tests.antt =====
-- Runs of the rate limiter on a Redis in memory.
use linkedin_hyper_v.Prelude.{◌-◌, ◌≤◌, ◌≡◌, refl, [], ◌∷◌, arith, eq_iff, map_get}
use linkedin_hyper_v.Redis.Memory.{memory, memory_counters, fresh}
use linkedin_hyper_v.Redis.{incr_script}
use linkedin_hyper_v.RateLimit.{
  Now, Quotas, Store, check_and_increment, check_only, incr_atomically, daily_key,
}
use linkedin_hyper_v.RateLimit.Counts.{count_of, IsClock}
use linkedin_hyper_v.RateLimit.Quota.{
  Call, is_ok, admitted, admitted-le-limit, check_only-check_and_increment,
}

abbrev noon : Now
noon = record { seconds = 43200; today = "2026-05-22"; hour = "2026-05-22T12" }

abbrev quotas : Quotas
quotas = record {
  limits = ("messagesSent", 25) ∷ ("inboxReads", 2) ∷ [];
  hourly_limits = ("messagesSent", 4) ∷ [];
}

abbrev empty : Store memory
empty = record { server = fresh; memory_counters = []; timers = [] }

abbrev read : Call
read = record { account = "ann"; action = "inboxReads"; now = noon }

noon-IsClock : IsClock noon
noon-IsClock = ground (arith, eq_iff noon.today "h:2026-05-22T12")

three_reads : admitted memory memory_counters quotas read (read ∷ read ∷ read ∷ []) empty ≡ 2
unfolding admitted check_and_increment incr_atomically map_get daily_key incr_script
three_reads = refl

admitted-le-limit_example :
    admitted memory memory_counters quotas read (read ∷ read ∷ read ∷ []) empty
    ≤ 2 - count_of memory memory_counters empty (daily_key "ann" "inboxReads" noon)
unfolding map_get
admitted-le-limit_example =
    admitted-le-limit memory memory_counters quotas read 2 (read ∷ read ∷ read ∷ []) empty refl

check_only-check_and_increment_example :
    is_ok (check_only memory quotas "ann" "messagesSent" noon empty)
    ≡ is_ok (check_and_increment memory quotas "ann" "messagesSent" noon empty).0
check_only-check_and_increment_example =
    check_only-check_and_increment memory memory_counters quotas "ann" "messagesSent" noon empty
      noon-IsClock
