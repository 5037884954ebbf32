-- ===== src/Harvest/Runner.antt =====
-- worker/src/harvest/harvestRunner.js: the drip loop. The environment variable, the known accounts
-- and the clock are arguments; a tick is one step, as the flag `running` makes it.
use linkedin_hyper_v.Prelude.{
  ℕ, ◌+◌, ◌≤◌, ◌<◌, ◌≡◌, refl, ◌∙◌, min, String, Bool, true, false, Option, none, some, List, [],
  ◌∷◌, map, arith, if◌then◌else◌, str_eq,
}
use linkedin_hyper_v.Redis.{Redis, Hashes, HashLaws}
use linkedin_hyper_v.Harvest.State.{Script, ScriptLaws, get, get_all, patch, is_eligible_now}
use linkedin_hyper_v.Harvest.Scheduler.{
  Budget, World, Task, pick_next_task, consume_tokens, jitter_gap_ms,
}
use linkedin_hyper_v.Harvest.Backfill.{Parts, Outcome, run_once, cooldown_ms}
use linkedin_hyper_v.Harvest.Backfill.Run.{run_once-waits, up-run_once, patch-waits}

unfoldable pub enabled : (trim : String → String) → Option String → Bool
enabled trim none = false
enabled trim (some v) = str_eq (trim v) "1"

-- What a tick reads: the hour of the buckets, the instants of the run and of the gap's start, and
-- the rounded random gap with its bounds.
pub record Clock : Type 0 where
  pub hour : String
  pub started : ℕ
  pub finished : ℕ
  pub gap_start : ℕ
  pub rounded : ℕ
  pub min_gap_ms : ℕ
  pub max_gap_ms : ℕ

-- `Date.now() + jitterGapMs()`
unfoldable pub next_gap : Clock → ℕ
next_gap c = c.gap_start + jitter_gap_ms c.min_gap_ms c.max_gap_ms c.rounded

module _ (js : Script) (v : Parts) (r : Redis) (h : Hashes r) where
  unfoldable pub set_gap : Task → Clock → Outcome × (r.Server × v.World) → r.Server × v.World
  set_gap task c (Outcome.deferred, (s, w)) = (
    patch js r h task.account_id task.surface (("nextEligibleAt", js.iso (next_gap c)) ∷ []) s,
    w,
  )
  set_gap task c (Outcome.progressed fetched total phase, (s, w)) = (
    patch js r h task.account_id task.surface (("nextEligibleAt", js.iso (next_gap c)) ∷ []) s,
    w,
  )
  set_gap task c (Outcome.stopped error blocked, (s, w)) = (s, w)

  unfoldable pub dispatch : Task → Clock → r.Server → v.World → r.Server × v.World
  dispatch task c s w =
      set_gap task c (run_once js v r h task.account_id task.surface c.started c.finished s w)

  unfoldable pub try_task : Budget → Option Task → Clock → r.Server → v.World → r.Server × v.World
  try_task b none c s w = (s, w)
  try_task b (some task) c s w =
      let (granted, s') = consume_tokens r b task.account_id c.hour s in
      if granted then dispatch task c s' w else (s', w)

  -- The flag after the tick, with the server and the database.
  unfoldable pub tick :
      Budget
      → World
      → List String
      → Clock
      → (running : Bool) → r.Server
      → v.World
      → Bool × (r.Server × v.World)
  tick b world accounts c true s w = (true, (s, w))
  tick b world accounts c false s w = (
    false,
    try_task b (pick_next_task js world (map (λ a. (a, get_all js r h a s)) accounts)) c s w,
  )

  module _ (laws : ScriptLaws js) (hl : HashLaws r h) where
    set_gap-waits :
        (task : Task) (c : Clock) (now : ℕ) (run : Outcome × (r.Server × v.World))
        → r.up run.1.0 ≡ true
        → c.finished ≤ c.gap_start
        → c.min_gap_ms ≤ c.max_gap_ms
        → now < c.finished + min c.min_gap_ms 900000
        → ((error : String) (b : Bool)
            → run.0 ≡ Outcome.stopped error b
            → is_eligible_now js (get js r h task.account_id task.surface run.1.0) now ≡ false)
        → is_eligible_now js (get js r h task.account_id task.surface (set_gap task c run).0) now
          ≡ false
    unfolding set_gap next_gap jitter_gap_ms
    set_gap-waits task c now (Outcome.deferred, (s, w)) u f m l stopped =
        patch-waits js laws v r h hl task.account_id task.surface (next_gap c) now s u
          (ground arith)
    set_gap-waits task c now (Outcome.progressed fetched total phase, (s, w)) u f m l stopped =
        patch-waits js laws v r h hl task.account_id task.surface (next_gap c) now s u
          (ground arith)
    set_gap-waits task c now (Outcome.stopped error b, (s, w)) u f m l stopped =
        stopped error b refl

    -- Whatever the run comes to, its surface waits the shortest gap or the shortest cooldown.
    pub dispatch-waits :
        (task : Task) (c : Clock) (now : ℕ) (s : r.Server) (w : v.World)
        → r.up s ≡ true
        → c.finished ≤ c.gap_start
        → c.min_gap_ms ≤ c.max_gap_ms
        → now < c.finished + min c.min_gap_ms 900000
        → is_eligible_now js (get js r h task.account_id task.surface (dispatch task c s w).0) now
          ≡ false
    unfolding dispatch
    dispatch-waits task c now s w u f m l =
        set_gap-waits task c now
          (run_once js v r h task.account_id task.surface c.started c.finished s w)
          (up-run_once js laws v r h hl task.account_id task.surface c.started c.finished s w ∙ u) f
          m l
          (λ error b e.
            run_once-waits js laws v r h hl task.account_id task.surface c.started c.finished now s
              w error b u e (cooldown-least b))
      where
        cooldown-least : (b : Bool) → now < c.finished + cooldown_ms js v b
        cooldown-least true = ground arith
        cooldown-least false = ground arith
