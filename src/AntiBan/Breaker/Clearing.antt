-- ===== src/AntiBan/Breaker/Clearing.antt =====
-- An operator clears an account's cooldown.
use linkedin_hyper_v.Prelude.{
  ℕ, ◌≡◌, refl, String, Bool, true, false, ◌⊎◌, ◌||◌, List, [], ◌∷◌, ◌++◌, map, arith, truthy,
  includes, eq_iff,
}
use linkedin_hyper_v.Prelude.Int.{pos_part}
use linkedin_hyper_v.Redis.{Redis, TtlLaws}
use linkedin_hyper_v.AntiBan.BusinessHours.{is_within_business_hours}
use linkedin_hyper_v.AntiBan.Breaker.{
  Config, Store, allowed, gate_action, redis_ttl, account_cooldown, surface_blocked, surface_fail,
  surfaces, cleared_keys, del_all, clear_account_cooldown,
}

includes-append :
    (xs ys : List String) (k : String) → includes xs k ≡ true → includes (xs ++ ys) k ≡ true
includes-append [] ys k h = cc
includes-append (x ∷ xs) ys k h = ground (arith, includes-append xs ys k)

includes-map :
    (f : String → String) (xs : List String) (k : String)
    → includes xs k ≡ true
    → includes (map f xs) (f k) ≡ true
includes-map f [] k h = cc
includes-map f (x ∷ xs) k h = ground (arith, includes-map f xs k, eq_iff x k, eq_iff (f x) (f k))

cleared_keys-cooldown :
    (account : String) → includes (cleared_keys account) (account_cooldown account) ≡ true
cleared_keys-cooldown account =
    ground (arith, eq_iff (account_cooldown account) (account_cooldown account))

cleared_keys-blocked :
    (account s : String)
    → includes surfaces s ≡ true
    → includes (cleared_keys account) (surface_blocked account s) ≡ true
cleared_keys-blocked account s h =
    let found =
      includes-append (map (surface_blocked account) surfaces) (map (surface_fail account) surfaces)
        (surface_blocked account s) (includes-map (surface_blocked account) surfaces s h) in
    cons_true _ _ found
  where
    cons_true : (a b : Bool) → b ≡ true → (a || b) ≡ true
    cons_true a b e = ground arith

module _ (r : Redis) (ttls : TtlLaws r) where
  del_all-keeps :
      (keys : List String) (k : String) (s : r.Server)
      → pos_part (r.ttl k s) ≡ 0
      → pos_part (r.ttl k (del_all r keys s)) ≡ 0
  unfolding del_all
  del_all-keeps [] k s h = h
  del_all-keeps (key ∷ rest) k s h =
      del_all-keeps rest k (r.del key s) (ground (arith, ttls.ttl-del key k s))

  del_all-clears :
      (keys : List String) (k : String) (s : r.Server)
      → includes keys k ≡ true
      → pos_part (r.ttl k (del_all r keys s)) ≡ 0
  unfolding del_all
  del_all-clears [] k s h = cc
  del_all-clears (key ∷ rest) k s h = ground (
    arith,
    ttls.ttl-del key k s,
    del_all-keeps rest k (r.del key s),
    del_all-clears rest k (r.del key s),
  )

  up-del_all : (keys : List String) (s : r.Server) → r.up (del_all r keys s) ≡ r.up s
  unfolding del_all
  up-del_all [] s = refl
  up-del_all (key ∷ rest) s = ground (arith, up-del_all rest (r.del key s), ttls.up-del key s)

  clear_ttl :
      (account k : String) (w : Store r)
      → r.up w.server ≡ true
      → includes (cleared_keys account) k ≡ true
      → redis_ttl r k (clear_account_cooldown r account w) ≡ 0
  unfolding clear_account_cooldown redis_ttl
  clear_ttl account k w u h = ground (
    arith,
    del_all-clears (cleared_keys account) k w.server h,
    up-del_all (cleared_keys account) w.server,
  )

  -- After clearAccountCooldown, with Redis answering, only business hours keep an action of the
  -- account from passing the gate, at each of the known surfaces.
  pub gate_action-clear_account_cooldown :
      (c : Config) (account s : String) (enforce : Bool) (local default_local : ℕ) (w : Store r)
      → r.up w.server ≡ true
      → truthy account ≡ true
      → includes surfaces s ≡ true
      → (enforce ≡ false) ⊎ (is_within_business_hours c.hours local ≡ true)
      → gate_action r c account s enforce local default_local (clear_account_cooldown r account w)
        ≡ allowed
  unfolding gate_action
  gate_action-clear_account_cooldown c account s enforce local default_local w u a h hours =
      let cool = clear_ttl account (account_cooldown account) w u (cleared_keys-cooldown account) in
      let open_surface =
        clear_ttl account (surface_blocked account s) w u (cleared_keys-blocked account s h) in
      ground arith
