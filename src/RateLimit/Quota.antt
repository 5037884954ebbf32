-- ===== src/RateLimit/Quota.antt =====
-- The quotas hold: what a call of checkAndIncrement or checkOnly does to the counters, and how
-- many calls a window admits.
use linkedin_hyper_v.Prelude.{
  ℕ, suc, ◌-◌, ◌≤◌, ◌≡◌, String, Bool, true, false, ◌&&◌, some, arith, List, [], ◌∷◌, if◌then◌else◌,
  str_eq, eq_iff, map_get, ltb,
}
use linkedin_hyper_v.Redis.{Redis, CounterLaws}
use linkedin_hyper_v.RateLimit.{
  Now, Quotas, Store, Usage, Result, ok, threw, hourly_exceeded, daily_key, hourly_key,
  charge_daily, charge_hourly, check_and_increment, check_daily, check_hourly, check_only,
}
use linkedin_hyper_v.RateLimit.Counts.{
  count_of, incr_atomically_reply, count_of-le, count_of_self, count_of_other, read_count_lem,
  IsClock, hourly_key-ne-daily_key,
}

abbrev pub is_ok {ℓ} : {A : Type ℓ} → Result A → Bool
is_ok (ok a) = true
is_ok (threw e) = false

abbrev pub is_hourly {ℓ} : {A : Type ℓ} → Result A → Bool
is_hourly (threw (hourly_exceeded c l)) = true
is_hourly _ = false

module _ (r : Redis) (laws : CounterLaws r) (quotas : Quotas) (account action : String)
    (now : Now) where
  abbrev day_count : Store r → ℕ
  day_count w = count_of r laws w (daily_key account action now)

  abbrev hour_count : Store r → ℕ
  hour_count w = count_of r laws w (hourly_key account action now)

  -- A charge of the day: the counter moves by one, and the charge passes exactly below the limit.
  charge_daily_lem :
      (limit : ℕ) (w : Store r)
      → (is_ok (charge_daily r quotas account action now limit w).0 ≡ ltb (day_count w) limit)
        × (day_count (charge_daily r quotas account action now limit w).1 ≡ suc (day_count w))
  unfolding charge_daily
  charge_daily_lem limit w = grind (arith, incr_atomically_reply r laws, count_of_self r laws)

  count_of-charge_daily :
      (limit : ℕ) (w : Store r) (k : String)
      → count_of r laws w k ≤ count_of r laws (charge_daily r quotas account action now limit w).1 k
  unfolding charge_daily
  count_of-charge_daily limit w k = grind (arith, count_of-le r laws)

  pub count_of-check_and_increment :
      (w : Store r) (k : String)
      → count_of r laws w k
        ≤ count_of r laws (check_and_increment r quotas account action now w).1 k
  unfolding check_and_increment charge_hourly
  count_of-check_and_increment w k = grind (arith, count_of-charge_daily, count_of-le r laws)

  -- An admitted call found its day's counter below the limit, and moved it.
  pub check_and_increment_admits :
      (limit : ℕ) (w : Store r)
      → map_get quotas.limits action ≡ some limit
      → is_ok (check_and_increment r quotas account action now w).0 ≡ true
      → (suc (day_count w) ≤ limit)
        × (suc (day_count w) ≤ day_count (check_and_increment r quotas account action now w).1)
  unfolding check_and_increment charge_hourly
  check_and_increment_admits limit w e h = grind (arith, charge_daily_lem, count_of-le r laws)

  -- checkOnly passes exactly when checkAndIncrement would at the same instant, for every action,
  -- with Redis answering or not.
  pub check_only-check_and_increment :
      (w : Store r)
      → IsClock now
      → is_ok (check_only r quotas account action now w)
        ≡ is_ok (check_and_increment r quotas account action now w).0
  unfolding check_and_increment check_only charge_hourly check_hourly check_daily
  check_only-check_and_increment w clock = grind (
    arith,
    charge_daily_lem,
    incr_atomically_reply r laws,
    read_count_lem r laws,
    count_of_other r laws,
    hourly_key-ne-daily_key account action now clock,
  )

  -- A call that the hourly quota refuses leaves the day's counter as it was; any other call for a
  -- known action moves it by one, also when the daily quota refuses it.
  pub check_and_increment_day :
      (limit : ℕ) (w : Store r)
      → map_get quotas.limits action ≡ some limit
      → IsClock now
      → day_count (check_and_increment r quotas account action now w).1 ≡ (
          if is_hourly (check_and_increment r quotas account action now w).0
          then day_count w
          else suc (day_count w))
  unfolding check_and_increment charge_hourly charge_daily
  check_and_increment_day limit w e clock = grind (
    arith,
    count_of_self r laws,
    count_of_other r laws,
    hourly_key-ne-daily_key account action now clock,
  )

-- A call of checkAndIncrement, as the worker's actions make it.
pub record Call : Type 0 where
  pub account : String
  pub action : String
  pub now : Now

module _ (r : Redis) (laws : CounterLaws r) (quotas : Quotas) where
  abbrev pub call : Call → Store r → Result Usage × Store r
  call c = check_and_increment r quotas c.account c.action c.now

  abbrev pub is_for : Call → Call → Bool
  is_for d c =
      str_eq d.account c.account && (str_eq d.action c.action && str_eq d.now.today c.now.today)

  -- How many calls for the account, action and day of `d` are admitted.
  unfoldable pub admitted : Call → List Call → Store r → ℕ
  admitted d [] w = 0
  admitted d (c ∷ cs) w =
      let rest = admitted d cs (call c w).1 in
      if is_for d c && is_ok (call c w).0 then suc rest else rest

  is_for-daily_key :
      (d c : Call)
      → is_for d c ≡ true
      → (daily_key c.account c.action c.now ≡ daily_key d.account d.action d.now)
        × (c.action ≡ d.action)
  unfolding daily_key
  is_for-daily_key d c h =
      ground (
        arith,
        eq_iff d.account c.account,
        eq_iff d.action c.action,
        eq_iff d.now.today c.now.today,
      )

  -- However calls of any accounts and actions follow one another, those admitted for one account,
  -- action and day are no more than the daily limit leaves, provided that Redis answers all of them or
  -- none of them: the counters of the process know nothing of those of Redis.
  pub admitted-le-limit :
      (d : Call) (limit : ℕ) (cs : List Call) (w : Store r)
      → map_get quotas.limits d.action ≡ some limit
      → admitted d cs w ≤ limit - count_of r laws w (daily_key d.account d.action d.now)
  unfolding admitted
  admitted-le-limit d limit [] w e = omega arith
  admitted-le-limit d limit (c ∷ cs) w e = ground (
    arith,
    admitted-le-limit d limit cs (call c w).1 e,
    is_for-daily_key d c,
    count_of-check_and_increment r laws quotas c.account c.action c.now w
        (daily_key d.account d.action d.now),
    check_and_increment_admits r laws quotas c.account c.action c.now limit w,
  )
