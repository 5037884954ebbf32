-- ===== src/Harvest/Scheduler/Tokens.antt =====
-- The token buckets hold.
use text.Mathlib.TextLemmas.{append_assoc}
use linkedin_hyper_v.Prelude.{
  refl, template, prefix_differs, ℕ, zero, suc, ◌-◌, ◌≤◌, ◌≡◌, String, true, false, [], ◌∷◌, arith,
  ltb, if◌then◌else◌, str_eq, eq_iff,
}
use linkedin_hyper_v.Redis.{
  Redis, CounterLaws, DecrLaws, incr_script, incr_script_reply, count-incr_script, up-incr_script,
}
use linkedin_hyper_v.Harvest.Scheduler.{
  Budget, token_available, window_key, consume_tokens, account_bucket,
}

global-ne-account :
    (account hour : String)
    → str_eq (window_key "harvest:bucket:global" hour) (window_key (account_bucket account) hour)
      ≡ false
unfolding window_key
global-ne-account account hour =
    rw (append_assoc "harvest:bucket:acct:" (template (account ∷ [])) (template (":" ∷ hour ∷ [])))
      (prefix_differs "harvest:bucket:g" "harvest:bucket:a" "lobal" "cct:" _ _ refl refl)

module _ (r : Redis) (laws : CounterLaws r) (decr : DecrLaws r laws) where
  open laws use {count}

  -- While Redis answers, a bucket grants a token exactly below its rate, and only a grant moves its
  -- counter; other counters stay.
  token_available_lem :
      (bucket hour : String) (per_hour : ℕ) (s : r.Server) (k : String)
      → r.up s ≡ true
      → ((token_available r bucket hour per_hour s).0
          ≡ ltb (count s (window_key bucket hour)) per_hour)
        × (r.up (token_available r bucket hour per_hour s).1 ≡ true)
        × (count (token_available r bucket hour per_hour s).1 k ≡ (
            if str_eq (window_key bucket hour) k
            then (if ltb (count s (window_key bucket hour)) per_hour
                then suc (count s k)
                else count s k)
            else count s k))
  unfolding token_available
  token_available_lem bucket hour per_hour s k u =
      let key = window_key bucket hour in
      let s' = (incr_script r key 3700 s).1 in
      ground (
        arith,
        incr_script_reply r laws key 3700 s,
        up-incr_script r laws key 3700 s,
        count-incr_script r laws key k 3700 s,
        count-incr_script r laws key key 3700 s,
        decr.count-decr key k s',
        decr.up-decr key s',
        eq_iff key k,
        eq_iff key key,
      )

  -- How many of a run of requests a bucket grants within one hour.
  unfoldable pub granted : (bucket hour : String) (per_hour rounds : ℕ) → r.Server → ℕ
  granted bucket hour per_hour zero s = 0
  granted bucket hour per_hour (suc n) s =
      let (ok, s') = token_available r bucket hour per_hour s in
      let rest = granted bucket hour per_hour n s' in if ok then suc rest else rest

  -- However often it is asked, a bucket grants no more tokens within an hour than its rate leaves,
  -- while Redis answers.
  pub granted-le :
      (bucket hour : String) (per_hour rounds : ℕ) (s : r.Server)
      → r.up s ≡ true
      → granted bucket hour per_hour rounds s ≤ per_hour - count s (window_key bucket hour)
  unfolding granted
  granted-le bucket hour per_hour zero s u = omega arith
  granted-le bucket hour per_hour (suc n) s u =
      let key = window_key bucket hour in
      ground (
        arith,
        token_available_lem bucket hour per_hour s key u,
        granted-le bucket hour per_hour n (token_available r bucket hour per_hour s).1,
        eq_iff key key,
      )

  -- While Redis answers, a task may proceed exactly if both buckets have a token left. A refusal by
  -- the account's bucket keeps the token taken from the global one: it is not given back.
  pub consume_tokens_lem :
      (b : Budget) (account hour : String) (s : r.Server)
      → r.up s ≡ true
      → ((consume_tokens r b account hour s).0 ≡ (
          if ltb (count s (window_key "harvest:bucket:global" hour)) b.global_ops_per_hour
          then ltb (count s (window_key (account_bucket account) hour)) b.account_ops_per_hour
          else false))
        × (count (consume_tokens r b account hour s).1 (window_key "harvest:bucket:global" hour) ≡ (
            if ltb (count s (window_key "harvest:bucket:global" hour)) b.global_ops_per_hour
            then suc (count s (window_key "harvest:bucket:global" hour))
            else count s (window_key "harvest:bucket:global" hour)))
  unfolding consume_tokens
  consume_tokens_lem b account hour s u =
      let differ = global-ne-account account hour in
      let global = window_key "harvest:bucket:global" hour in
      let own = window_key (account_bucket account) hour in
      let s₁ = (token_available r "harvest:bucket:global" hour b.global_ops_per_hour s).1 in
      ground (
        arith,
        token_available_lem "harvest:bucket:global" hour b.global_ops_per_hour s global u,
        token_available_lem "harvest:bucket:global" hour b.global_ops_per_hour s own u,
        token_available_lem (account_bucket account) hour b.account_ops_per_hour s₁ global,
        eq_iff global global,
        eq_iff own global,
        eq_iff global own,
      )
