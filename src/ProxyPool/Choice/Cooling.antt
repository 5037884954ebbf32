-- ===== src/ProxyPool/Choice/Cooling.antt =====
-- That a reported proxy is not given out while it cools down.
use linkedin_hyper_v.Prelude.{
  ℕ, ◌≡◌, ◌≢◌, ◌<◌, String, true, false, Option, none, some, List, [], ◌∷◌, arith, truthy, str_eq,
  eq_iff, Bool-cases, inl, inr,
}
use linkedin_hyper_v.Redis.{Redis, TtlLaws, SortedSets, SortedSetLaws}
use linkedin_hyper_v.ProxyPool.Choice.{
  Config, Store, healthy_key, assign_key, cooldown_key, in_cooldown, top_healthy, sticky,
  first_free, assign, pick, pick_new, report_failure,
}
use linkedin_hyper_v.ProxyPool.Choice.Laws.{assign-ne-cooldown, pick-free}

-- A pick for an account, or a report of a proxy.
pub data PoolCall : Type 0 where
  picked : (account : String) → PoolCall
  reported : (account proxy_url : String) → PoolCall

module _ (r : Redis) (z : SortedSets r) (c : Config) where
  -- The state after a run of picks and reports.
  unfoldable pub after_calls : List PoolCall → Store r z c → Store r z c
  after_calls [] w = w
  after_calls (PoolCall.picked account ∷ rest) w = after_calls rest (pick r z c account w).1
  after_calls (PoolCall.reported account proxy_url ∷ rest) w =
      after_calls rest (report_failure r z c account proxy_url w)

  module _ (ttls : TtlLaws r) (laws : SortedSetLaws r z) where
    report_failure-cools :
        (a p : String) (w : Store r z c)
        → r.up w.server ≡ true
        → 0 < c.cooldown_s
        → truthy p ≡ true
        → in_cooldown r z c p (report_failure r z c a p w) ≡ true
    unfolding report_failure in_cooldown
    report_failure-cools a p w u h t =
        let key = cooldown_key c p in
        let set = r.set_ex key "1" c.cooldown_s w.server in
        let dropped = z.zrem healthy_key p set in
        ground (
          arith,
          ttls.ttl-set_ex key key "1" c.cooldown_s w.server,
          ttls.up-set_ex key "1" c.cooldown_s w.server,
          laws.ttl-zrem healthy_key p key set,
          laws.up-zrem healthy_key p set,
          ttls.ttl-del (assign_key a) key dropped,
          ttls.up-del (assign_key a) dropped,
          assign-ne-cooldown c a p,
          eq_iff key key,
        )

    -- A proxy that is cooling down, with Redis answering.
    abbrev Cools : String → Store r z c → Type 0
    Cools p w = (r.up w.server ≡ true) × (in_cooldown r z c p w ≡ true)

    report_failure-Cools :
        (a p : String) (w : Store r z c)
        → 0 < c.cooldown_s
        → truthy p ≡ true
        → r.up w.server ≡ true
        → Cools p (report_failure r z c a p w)
    unfolding in_cooldown
    report_failure-Cools a p w h t u =
        (ground (arith, report_failure-cools a p w u h t), report_failure-cools a p w u h t)

    set_ex-Cools :
        (key value p : String) (seconds : ℕ) (w : Store r z c)
        → str_eq key (cooldown_key c p) ≡ false
        → Cools p w
        → Cools p (record w { server = r.set_ex key value seconds w.server })
    unfolding in_cooldown
    set_ex-Cools key value p seconds w d (u, k) = (
      ground (arith, ttls.up-set_ex key value seconds w.server),
      ground (
        arith,
        ttls.up-set_ex key value seconds w.server,
        ttls.ttl-set_ex key (cooldown_key c p) value seconds w.server,
      ),
    )

    expire-Cools :
        (key p : String) (seconds : ℕ) (w : Store r z c)
        → str_eq key (cooldown_key c p) ≡ false
        → Cools p w
        → Cools p (record w { server = r.expire key seconds w.server })
    unfolding in_cooldown
    expire-Cools key p seconds w d (u, k) = (
      ground (arith, laws.up-expire key seconds w.server),
      ground (
        arith,
        laws.up-expire key seconds w.server,
        ttls.ttl-expire key (cooldown_key c p) seconds w.server d,
      ),
    )

    assign-Cools :
        (a p : String) (o : Option String) (w : Store r z c)
        → Cools p w
        → Cools p (assign r z c a o w).1
    assign-Cools a p none w h = h
    assign-Cools a p (some q) w h =
        rw h.0 (set_ex-Cools (assign_key a) q p c.assign_ttl_s w (assign-ne-cooldown c a p) h)

    pick_new-Cools :
        (a p : String) (o : Option String) (w : Store r z c)
        → Cools p w
        → Cools p (pick_new r z c a o w).1
    unfolding pick_new
    pick_new-Cools a p none w h = assign-Cools a p (first_free r z c (top_healthy r z c w) w) w h
    pick_new-Cools a p (some q) w h =
        expire-Cools (assign_key a) p c.assign_ttl_s w (assign-ne-cooldown c a p) h

    pick-Cools : (a p : String) (w : Store r z c) → Cools p w → Cools p (pick r z c a w).1
    unfolding pick
    pick-Cools a p w h = elim (Bool-cases c.enabled) [
      | inl on ↦ rw on (pick_new-Cools a p (sticky r z c a w) w h)
      | inr off ↦ rw off h
    ]

    report-Cools :
        (a q p : String) (w : Store r z c)
        → 0 < c.cooldown_s
        → Cools p w
        → Cools p (report_failure r z c a q w)
    unfolding report_failure in_cooldown
    report-Cools a q p w h d =
        let key = cooldown_key c p in
        let other = cooldown_key c q in
        let set = r.set_ex other "1" c.cooldown_s w.server in
        let dropped = z.zrem healthy_key q set in
        (
          ground (
            arith,
            ttls.up-set_ex other "1" c.cooldown_s w.server,
            laws.up-zrem healthy_key q set,
            ttls.up-del (assign_key a) dropped,
          ),
          ground (
            arith,
            ttls.ttl-set_ex other key "1" c.cooldown_s w.server,
            ttls.up-set_ex other "1" c.cooldown_s w.server,
            laws.ttl-zrem healthy_key q key set,
            laws.up-zrem healthy_key q set,
            ttls.ttl-del (assign_key a) key dropped,
            ttls.up-del (assign_key a) dropped,
            assign-ne-cooldown c a p,
          ),
        )

    after_calls-Cools :
        (p : String) (calls : List PoolCall) (w : Store r z c)
        → 0 < c.cooldown_s
        → Cools p w
        → Cools p (after_calls calls w)
    unfolding after_calls
    after_calls-Cools p [] w h k = k
    after_calls-Cools p (PoolCall.picked a ∷ rest) w h k =
        after_calls-Cools p rest (pick r z c a w).1 h (pick-Cools a p w k)
    after_calls-Cools p (PoolCall.reported a q ∷ rest) w h k =
        after_calls-Cools p rest (report_failure r z c a q w) h (report-Cools a q p w h k)

    -- A proxy that was reported while Redis answered is given to no account, whatever is picked and
    -- reported in the meantime, provided that Redis goes on answering, that no time passes, and that the
    -- cooldown is not 0 seconds.
    pub pick-report_failure :
        (a b p : String) (calls : List PoolCall) (w : Store r z c)
        → r.up w.server ≡ true
        → 0 < c.cooldown_s
        → truthy p ≡ true
        → (pick r z c b (after_calls calls (report_failure r z c a p w))).0 ≢ some p
    pick-report_failure a b p calls w u h t e =
        let end = after_calls calls (report_failure r z c a p w) in
        grind (
          arith,
          pick-free r z c b end p e,
          after_calls-Cools p calls (report_failure r z c a p w) h
              (report_failure-Cools a p w h t u),
        )
