-- ===== src/ProxyPool/Choice/Laws.antt =====
-- Which proxy an account gets.
use linkedin_hyper_v.Prelude.{
  ◌≡◌, ◌≢◌, ◌↔◌, refl, String, true, false, none, some, List, [], ◌∷◌, arith, truthy, includes,
  str_eq, eq_iff, prefix_differs, all,
}
use linkedin_hyper_v.Redis.{Redis, TtlLaws, SortedSets, SortedSetLaws}
use linkedin_hyper_v.ProxyPool.Choice.{
  Config, Store, healthy_key, assign_key, cooldown_key, in_cooldown, top_healthy, sticky,
  first_free, pick, pick_new,
}

pub assign-ne-cooldown :
    (c : Config) (a p : String) → str_eq (assign_key a) (cooldown_key c p) ≡ false
unfolding assign_key cooldown_key
assign-ne-cooldown c a p =
    prefix_differs "proxypool:a" "proxypool:c" "ssign:" "ooldown:" _ _ refl refl

module _ (r : Redis) (z : SortedSets r) (c : Config) where
  first_free_lem :
      (ps : List String) (w : Store r z c) (p : String)
      → first_free r z c ps w ≡ some p
      → (in_cooldown r z c p w ≡ false) × (includes ps p ≡ true)
  unfolding first_free
  first_free_lem [] w p e = cc
  first_free_lem (q ∷ rest) w p e = ground (arith, first_free_lem rest w p, eq_iff q p)

  first_free-none :
      (ps : List String) (w : Store r z c)
      → (first_free r z c ps w ≡ none) ↔ (all (λ p. in_cooldown r z c p w) ps ≡ true)
  unfolding first_free
  first_free-none [] w = ground arith
  first_free-none (q ∷ rest) w = ground (arith, first_free-none rest w)

  sticky_lem :
      (a : String) (w : Store r z c) (p : String)
      → sticky r z c a w ≡ some p
      → (in_cooldown r z c p w ≡ false)
        × (r.up w.server ≡ true)
        × (r.get (assign_key a) w.server ≡ some p)
        × (z.zscore healthy_key p w.server ≢ none)
        × (truthy p ≡ true)
  unfolding sticky
  sticky_lem a w p e = ground arith

  -- No account is given a proxy that is cooling down.
  pub pick-free :
      (a : String) (w : Store r z c) (p : String)
      → (pick r z c a w).0 ≡ some p
      → in_cooldown r z c p w ≡ false
  unfolding pick
  pick-free a w p e = grind (arith, sticky_lem a w p, first_free_lem (top_healthy r z c w) w p)

  -- An enabled pool answers nothing exactly when the account's assignment cannot be kept and every
  -- proxy on top of the healthy set is cooling down.
  pub pick-none_iff :
      (a : String) (w : Store r z c)
      → c.enabled ≡ true
      → ((pick r z c a w).0 ≡ none) ↔ (
          (sticky r z c a w ≡ none)
          × (all (λ p. in_cooldown r z c p w) (top_healthy r z c w) ≡ true))
  unfolding pick
  pick-none_iff a w on = ground (arith, first_free-none (top_healthy r z c w) w)

  module _ (ttls : TtlLaws r) (laws : SortedSetLaws r z) where
    sticky_of :
        (a p : String) (w : Store r z c)
        → r.up w.server ≡ true
        → r.get (assign_key a) w.server ≡ some p
        → z.zscore healthy_key p w.server ≢ none
        → truthy p ≡ true
        → in_cooldown r z c p w ≡ false
        → sticky r z c a w ≡ some p
    unfolding sticky
    sticky_of a p w u g s t f = ground arith

    -- The proxy that a new assignment sets, and the one that an old assignment renews, can be kept.
    sticky-assign :
        (a p : String) (w : Store r z c)
        → r.up w.server ≡ true
        → truthy p ≡ true
        → first_free r z c (top_healthy r z c w) w ≡ some p
        → sticky r z c a (record w { server = r.set_ex (assign_key a) p c.assign_ttl_s w.server })
          ≡ some p
    unfolding in_cooldown top_healthy
    sticky-assign a p w u t e =
        let key = assign_key a in
        let found = first_free_lem (top_healthy r z c w) w p e in
        let up' = ttls.up-set_ex key p c.assign_ttl_s w.server in
        sticky_of a p _ (ground arith)
          (ground (arith, laws.get-set_ex key key p c.assign_ttl_s w.server, eq_iff key key))
          (rw (laws.zscore-set_ex key p healthy_key p c.assign_ttl_s w.server)
            (laws.zscore-zrevrange healthy_key p 20 w.server (ground arith)))
          t
          (ground (
            arith,
            ttls.ttl-set_ex key (cooldown_key c p) p c.assign_ttl_s w.server,
            assign-ne-cooldown c a p,
          ))

    sticky-renew :
        (a p : String) (w : Store r z c)
        → sticky r z c a w ≡ some p
        → sticky r z c a (record w { server = r.expire (assign_key a) c.assign_ttl_s w.server })
          ≡ some p
    unfolding in_cooldown
    sticky-renew a p w e =
        let key = assign_key a in
        let (free, up, got, scored, t) = sticky_lem a w p e in
        let up' = laws.up-expire key c.assign_ttl_s w.server in
        sticky_of a p _ (ground arith)
          (ground (arith, laws.get-expire key key c.assign_ttl_s w.server))
          (rw (laws.zscore-expire key healthy_key p c.assign_ttl_s w.server) scored) t
          (ground (
            arith,
            ttls.ttl-expire key (cooldown_key c p) c.assign_ttl_s w.server
                (assign-ne-cooldown c a p),
          ))

    -- With Redis answering, an account that asks again at once is given the same proxy.
    pub pick-pick :
        (a p : String) (w : Store r z c)
        → r.up w.server ≡ true
        → c.enabled ≡ true
        → truthy p ≡ true
        → (pick r z c a w).0 ≡ some p
        → (pick r z c a (pick r z c a w).1).0 ≡ some p
    unfolding pick pick_new
    pick-pick a p w u on t e = ground (arith, sticky-assign a p w u t, sticky-renew a p w)
