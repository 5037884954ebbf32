-- ===== src/Harvest/Backfill/Run.antt =====
-- What a run leaves in the harvest state.
use linkedin_hyper_v.Prelude.{
  ℕ, ◌+◌, ◌<◌, ◌≡◌, refl, ◌∙◌, ap, String, Bool, true, false, Option, none, some, [], ◌∷◌, arith,
  lt→ltb, eq_iff, TextMap,
}
use linkedin_hyper_v.Redis.{Redis, Hashes, HashLaws, merged}
use linkedin_hyper_v.Harvest.State.{
  Script, ScriptLaws, Progress, spread, get, patch, key, is_eligible_now,
}
use linkedin_hyper_v.Harvest.State.Stored.{get-patch, up-patch, get-spread}
use linkedin_hyper_v.Harvest.Backfill.{
  Reply, Parts, Page, Outcome, first_fields, success_fields, failure_fields, cooldown_ms,
  phase_after, handler_of, settle, run_handler, run_once,
}
use linkedin_hyper_v.Harvest.Backfill.Fields.{
  Held, Advanced, spread-failure, spread-next, spread-date, spread-success,
}

module _ (js : Script) (laws : ScriptLaws js) (v : Parts) where
  module _ (r : Redis) (h : Hashes r) (hl : HashLaws r h) where
    hgetall-patch :
        (account surface : String) (fields : TextMap String) (s : r.Server)
        → r.up s ≡ true
        → h.hgetall (key account surface) (patch js r h account surface fields s)
          ≡ merged (h.hgetall (key account surface) s) fields
    unfolding patch
    hgetall-patch account surface fields s u = ground (
      arith,
      hl.hgetall-hset (key account surface) (key account surface) fields s,
      eq_iff (key account surface) (key account surface),
    )

    -- What is read back after the first patch of a run and a second one.
    get-second :
        (account surface : String) (st : Progress) (started : ℕ) (fields : TextMap String)
        (s : r.Server)
        → r.up s ≡ true
        → get js r h account surface (
            patch js r h account surface fields
              (patch js r h account surface (first_fields js v started st) s))
          ≡ spread js
              (merged
                (merged (h.hgetall (key account surface) s) (first_fields js v started st))
                fields)
              account
              surface
    get-second account surface st started fields s u =
        let s' = patch js r h account surface (first_fields js v started st) s in
        get-patch js r h hl account surface fields s'
          (up-patch js r h hl account surface (first_fields js v started st) s ∙ u)
        ∙ ap (λ raw. spread js (merged raw fields) account surface)
            (hgetall-patch account surface (first_fields js v started st) s u)

    -- The runs that stop are those whose request failed, and the others are settled.
    settle-stopped :
        (account surface : String) (finished : ℕ) (st : Progress) (reply : Reply Page)
        (s : r.Server) (w : v.World) (error : String) (b : Bool)
        → (settle js v r h account surface finished st reply s w).0 ≡ Outcome.stopped error b
        → (settle js v r h account surface finished st reply s w).1.0
          ≡ patch js r h account surface (failure_fields js v finished st b) s
    unfolding settle
    settle-stopped account surface finished st (Reply.answered res) s w error b e = cc
    settle-stopped account surface finished st (Reply.failed err) s w error b e = cc

    handler-stopped :
        (account surface : String) (finished : ℕ) (st : Progress)
        (handler : Option (String → Progress → v.World → Reply Page × v.World)) (s : r.Server)
        (w : v.World) (error : String) (b : Bool)
        → (run_handler js v r h account surface finished st handler s w).0 ≡ Outcome.stopped error b
        → (run_handler js v r h account surface finished st handler s w).1.0
          ≡ patch js r h account surface (failure_fields js v finished st b) s
    unfolding run_handler
    handler-stopped account surface finished st none s w error b e = cc
    handler-stopped account surface finished st (some handler) s w error b e =
        settle-stopped account surface finished st (handler account st w).0 s
          (handler account st w).1 error b e

    get-stopped :
        (account surface : String) (started finished : ℕ) (s : r.Server) (w : v.World)
        (error : String) (b : Bool)
        → r.up s ≡ true
        → (run_once js v r h account surface started finished s w).0 ≡ Outcome.stopped error b
        → let raw = h.hgetall (key account surface) s in
          get js r h account surface (run_once js v r h account surface started finished s w).1.0
          ≡ spread js
              (merged
                (merged raw (first_fields js v started (spread js raw account surface)))
                (failure_fields js v finished (spread js raw account surface) b))
              account
              surface
    unfolding run_once
    get-stopped account surface started finished s w error b u e =
        let st = get js r h account surface s in
        let s' = patch js r h account surface (first_fields js v started st) s in
        ap (get js r h account surface)
          (handler-stopped account surface finished st (handler_of js v surface) s' w error b e)
        ∙ (get-second account surface st started (failure_fields js v finished st b) s u
            ∙ ap
                (λ st'.
                  spread js
                    (merged
                      (merged (h.hgetall (key account surface) s) (first_fields js v started st'))
                      (failure_fields js v finished st' b))
                    account surface)
                (get-spread js r h account surface s u))

    pub run_once-Held :
        (account surface : String) (started finished : ℕ) (s : r.Server) (w : v.World)
        (error : String) (b : Bool)
        → r.up s ≡ true
        → (run_once js v r h account surface started finished s w).0 ≡ Outcome.stopped error b
        → Held
            (get js r h account surface s)
            (get js r h account surface
              (run_once js v r h account surface started finished s w).1.0)
            b
    run_once-Held account surface started finished s w error b u e =
        rw
          (
            get-stopped account surface started finished s w error b u e,
            get-spread js r h account surface s u,
          )
          (spread-failure js laws v (h.hgetall (key account surface) s) account surface started
            finished b)

    -- A date ahead keeps a surface from running, in each phase.
    eligible-ahead :
        (st : Progress) (t now : ℕ)
        → st.next_eligible_at ≡ js.iso t
        → now < t
        → is_eligible_now js st now ≡ false
    unfolding is_eligible_now
    eligible-ahead st t now e l =
        rw (e, laws.truthy-iso t, laws.time_of-iso t) (ground (arith, lt→ltb now t l))

    pub run_once-waits :
        (account surface : String) (started finished now : ℕ) (s : r.Server) (w : v.World)
        (error : String) (b : Bool)
        → r.up s ≡ true
        → (run_once js v r h account surface started finished s w).0 ≡ Outcome.stopped error b
        → now < finished + cooldown_ms js v b
        → is_eligible_now js
            (get js r h account surface
              (run_once js v r h account surface started finished s w).1.0)
            now
          ≡ false
    run_once-waits account surface started finished now s w error b u e l =
        let raw = h.hgetall (key account surface) s in
        let st = spread js raw account surface in
        eligible-ahead _ (finished + cooldown_ms js v b) now
          (ap (λ p. p.next_eligible_at)
              (get-stopped account surface started finished s w error b u e)
            ∙ spread-next js laws v (merged raw (first_fields js v started st)) st account surface
                finished b)
          l

    settle-progressed :
        (account surface : String) (finished : ℕ) (st : Progress) (reply : Reply Page)
        (s : r.Server) (w : v.World) (fetched total : ℕ) (phase : String)
        → (settle js v r h account surface finished st reply s w).0
          ≡ Outcome.progressed fetched total phase
        → (res : Page) × ((settle js v r h account surface finished st reply s w).1.0
            ≡ patch js r h account surface (success_fields js v finished res) s)
          × (res.fetched ≡ fetched)
          × (res.total ≡ total)
          × (phase_after js v res ≡ phase)
    unfolding settle
    settle-progressed account surface finished st (Reply.answered res) s w fetched total phase e =
        (res, refl, cc, cc, cc)
    settle-progressed account surface finished st (Reply.failed err) s w fetched total phase e = cc

    handler-progressed :
        (account surface : String) (finished : ℕ) (st : Progress)
        (handler : Option (String → Progress → v.World → Reply Page × v.World)) (s : r.Server)
        (w : v.World) (fetched total : ℕ) (phase : String)
        → (run_handler js v r h account surface finished st handler s w).0
          ≡ Outcome.progressed fetched total phase
        → (res : Page) × ((run_handler js v r h account surface finished st handler s w).1.0
            ≡ patch js r h account surface (success_fields js v finished res) s)
          × (res.fetched ≡ fetched)
          × (res.total ≡ total)
          × (phase_after js v res ≡ phase)
    unfolding run_handler
    handler-progressed account surface finished st none s w fetched total phase e = cc
    handler-progressed account surface finished st (some handler) s w fetched total phase e =
        settle-progressed account surface finished st (handler account st w).0 s
          (handler account st w).1 fetched total phase e

    pub run_once-Advanced :
        (account surface : String) (started finished : ℕ) (s : r.Server) (w : v.World)
        (fetched total : ℕ) (phase : String)
        → r.up s ≡ true
        → (run_once js v r h account surface started finished s w).0
          ≡ Outcome.progressed fetched total phase
        → Advanced
            (get js r h account surface
              (run_once js v r h account surface started finished s w).1.0)
            fetched
            total
            phase
    unfolding run_once
    run_once-Advanced account surface started finished s w fetched total phase u e =
        let st = get js r h account surface s in
        let s' = patch js r h account surface (first_fields js v started st) s in
        let raw = merged (h.hgetall (key account surface) s) (first_fields js v started st) in
        let (res, p, f, t, ph) =
          handler-progressed account surface finished st (handler_of js v surface) s' w fetched
            total phase e in
        let (f', t', ph', c) = spread-success js laws v raw account surface finished res in
        rw
          (ap (get js r h account surface) p
            ∙ get-second account surface st started (success_fields js v finished res) s u)
          (f' ∙ f, t' ∙ t, ph' ∙ ph, c)

    up-settle :
        (account surface : String) (finished : ℕ) (st : Progress) (reply : Reply Page)
        (s : r.Server) (w : v.World)
        → r.up (settle js v r h account surface finished st reply s w).1.0 ≡ r.up s
    unfolding settle
    up-settle account surface finished st (Reply.answered res) s w =
        up-patch js r h hl account surface _ s
    up-settle account surface finished st (Reply.failed err) s w =
        up-patch js r h hl account surface _ s

    up-handler :
        (account surface : String) (finished : ℕ) (st : Progress)
        (handler : Option (String → Progress → v.World → Reply Page × v.World)) (s : r.Server)
        (w : v.World)
        → r.up (run_handler js v r h account surface finished st handler s w).1.0 ≡ r.up s
    unfolding run_handler
    up-handler account surface finished st none s w = up-patch js r h hl account surface _ s
    up-handler account surface finished st (some handler) s w =
        up-settle account surface finished st (handler account st w).0 s (handler account st w).1

    pub up-run_once :
        (account surface : String) (started finished : ℕ) (s : r.Server) (w : v.World)
        → r.up (run_once js v r h account surface started finished s w).1.0 ≡ r.up s
    unfolding run_once
    up-run_once account surface started finished s w =
        let st = get js r h account surface s in
        let s' = patch js r h account surface (first_fields js v started st) s in
        up-handler account surface finished st (handler_of js v surface) s' w
        ∙ up-patch js r h hl account surface (first_fields js v started st) s

    -- A surface whose next date is patched does not run before that date.
    pub patch-waits :
        (account surface : String) (t now : ℕ) (s : r.Server)
        → r.up s ≡ true
        → now < t
        → is_eligible_now js
            (get js r h account surface
              (patch js r h account surface (("nextEligibleAt", js.iso t) ∷ []) s))
            now
          ≡ false
    patch-waits account surface t now s u l =
        eligible-ahead _ t now
          (ap (λ p. p.next_eligible_at)
              (get-patch js r h hl account surface (("nextEligibleAt", js.iso t) ∷ []) s u)
            ∙ spread-date js laws v (h.hgetall (key account surface) s) account surface t)
          l
