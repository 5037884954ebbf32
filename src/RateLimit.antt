-- ===== src/RateLimit.antt =====
-- worker/src/rateLimit.js: daily and hourly quotas of each account and action, counted in Redis,
-- and in the process's memory while Redis does not answer. The environment's numbers, the clock
-- and its ISO texts are arguments.
pub mod Counts
pub mod Quota
mod Tests
use Prim.Native.String
use linkedin_hyper_v.Prelude.{
  ℕ, ◌+◌, ◌-◌, ◌*◌, ◌%◌, String, Bool, true, false, Option, none, some, List, [], ◌∷◌, map, ltb,
  leb, if◌then◌else◌, map_get, map_set, map_delete,
}
use linkedin_hyper_v.Prelude.Int.{ℤ, pos, negsuc}
use linkedin_hyper_v.Redis.{Redis, incr_script, or_zero}

-- `toPositiveInt`, given what `parseInt` answers (`none` is NaN).
pub to_positive_int : Option ℤ → ℕ → ℕ
to_positive_int (some (pos parsed)) fallback = if ltb 0 parsed then parsed else fallback
to_positive_int (some (negsuc n)) fallback = fallback
to_positive_int none fallback = fallback

-- `LIMITS` and `HOURLY_LIMITS`, by action.
pub record Quotas : Type 0 where
  pub limits : List (String × ℕ)
  pub hourly_limits : List (String × ℕ)

-- The tables of the source, given the parsed environment variables in the order of the tables.
pub record ParsedEnv : Type 0 where
  pub messages_sent : Option ℤ
  pub connect_requests : Option ℤ
  pub profile_views : Option ℤ
  pub search_queries : Option ℤ
  pub inbox_reads : Option ℤ

abbrev pub limits_of : ParsedEnv → List (String × ℕ)
unfolding to_positive_int
limits_of e =
    ("messagesSent", to_positive_int e.messages_sent 25)
    ∷ ("connectRequests", to_positive_int e.connect_requests 15)
    ∷ ("profileViews", to_positive_int e.profile_views 60)
    ∷ ("searchQueries", to_positive_int e.search_queries 40)
    ∷ ("inboxReads", to_positive_int e.inbox_reads 500)
    ∷ []

abbrev pub hourly_limits_of : ParsedEnv → List (String × ℕ)
unfolding to_positive_int
hourly_limits_of e =
    ("messagesSent", to_positive_int e.messages_sent 4)
    ∷ ("connectRequests", to_positive_int e.connect_requests 3)
    ∷ ("profileViews", to_positive_int e.profile_views 10)
    ∷ ("searchQueries", to_positive_int e.search_queries 6)
    ∷ ("inboxReads", to_positive_int e.inbox_reads 60)
    ∷ []

-- An instant: Unix seconds, `todayKey()` and `hourKey()`.
pub record Now : Type 0 where
  pub seconds : ℕ
  pub today : String
  pub hour : String

pub data Error : Type 0 where
  unknown_action : Error
  hourly_exceeded daily_exceeded : ℕ → ℕ → Error

pub record Usage : Type 0 where
  pub current : ℕ
  pub limit : ℕ
  pub remaining : ℕ

pub data Result {ℓ} (A : Type ℓ) : Type ℓ where
  ok : A → Result A
  threw : Error → Result A

-- `` `ratelimit:${accountId}:${action}:${todayKey()}` `` and its hourly sibling.
unfoldable pub daily_key : String → String → Now → String
daily_key account action now =
    String.◌++◌ "ratelimit:"
      (String.◌++◌ account (String.◌++◌ ":" (String.◌++◌ action (String.◌++◌ ":" now.today))))

pub hourly_key : String → String → Now → String
hourly_key account action now = String.◌++◌ "ratelimit:" (
    String.◌++◌ account
      (String.◌++◌ ":" (String.◌++◌ action (String.◌++◌ ":" (String.◌++◌ "h:" now.hour)))))

module _ (r : Redis) where
  -- Redis, `memoryCounters`, and the timers set to delete its entries: when, and which.
  pub record Store : Type 0 where
    pub server : r.Server
    pub memory_counters : List (String × ℕ)
    pub timers : List (ℕ × String)

  unfoldable pub incr_atomically : String → ℕ → Now → Store → ℕ × Store
  incr_atomically key ttl now w =
      if r.up w.server
      then (let (count, s) = incr_script r key ttl w.server in (count, record w { server = s }))
      else (let next = or_zero (map_get w.memory_counters key) + 1 in
          (
            next,
            record w {
              memory_counters = map_set w.memory_counters key next;
              timers = (now.seconds + ttl, key) ∷ w.timers;
            },
          ))

  -- A timer of the fallback runs.
  pub fire_timer : String → Store → Store
  fire_timer key w = record w { memory_counters = map_delete w.memory_counters key }

  pub read_count : String → Store → ℕ
  read_count key w =
      if r.up w.server
      then or_zero (r.get_count key w.server)
      else or_zero (map_get w.memory_counters key)

  module _ (quotas : Quotas) (account action : String) (now : Now) where
    unfoldable pub charge_daily : ℕ → Store → Result Usage × Store
    charge_daily limit w =
        let (current, w') =
          incr_atomically (daily_key account action now) (86400 - now.seconds % 86400 + 60) now w in
        if ltb limit current
        then (threw (daily_exceeded current limit), w')
        else (ok (record { current = current; limit = limit; remaining = limit - current }), w')

    charge_hourly : ℕ → Option ℕ → Store → Result Usage × Store
    unfolding charge_daily
    charge_hourly limit none w = charge_daily limit w
    charge_hourly limit (some hourly_limit) w =
        let (hourly_count, w') =
          incr_atomically (hourly_key account action now) (3600 - now.seconds % 3600 + 30) now w in
        if ltb hourly_limit hourly_count
        then (threw (hourly_exceeded hourly_count hourly_limit), w')
        else charge_daily limit w'

    unfoldable pub check_and_increment : Store → Result Usage × Store
    unfolding charge_hourly
    check_and_increment w = elim (map_get quotas.limits action) [
      | none ↦ (threw unknown_action, w)
      | some limit ↦ charge_hourly limit (map_get quotas.hourly_limits action) w
    ]

    check_daily : ℕ → Store → Result Usage
    check_daily limit w =
        let daily_count = read_count (daily_key account action now) w in
        if leb limit daily_count
        then threw (daily_exceeded daily_count limit)
        else ok (record { current = daily_count; limit = limit; remaining = limit - daily_count })

    check_hourly : ℕ → Option ℕ → Store → Result Usage
    unfolding check_daily
    check_hourly limit none w = check_daily limit w
    check_hourly limit (some hourly_limit) w =
        let hourly_count = read_count (hourly_key account action now) w in
        if leb hourly_limit hourly_count
        then threw (hourly_exceeded hourly_count hourly_limit)
        else check_daily limit w

    pub check_only : Store → Result Usage
    unfolding check_hourly
    check_only w = elim (map_get quotas.limits action) [
      | none ↦ threw unknown_action
      | some limit ↦ check_hourly limit (map_get quotas.hourly_limits action) w
    ]

  -- One entry of the object that `getLimits` answers.
  abbrev usage_of : String → Now → Store → String × ℕ → String × Usage
  usage_of account now w (action, limit) =
      let current = read_count (daily_key account action now) w in
      (action, record { current = current; limit = limit; remaining = limit - current })

  pub get_limits : Quotas → String → Now → Store → List (String × Usage)
  get_limits quotas account now w = map (usage_of account now w) quotas.limits
