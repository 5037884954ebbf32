-- ===== src/Harvest/Tests.antt =====
-- Runs of the backfill on a Redis in memory.
use linkedin_hyper_v.Prelude.{
  ℕ, ◌-◌, ◌≤◌, ◌≡◌, refl, true, false, none, some, List, [], ◌∷◌, arith, take, drop,
}
use linkedin_hyper_v.Redis.Memory.{
  memory, memory_counters, memory_decr, memory_hashes, memory_hash_laws, fresh,
}
use linkedin_hyper_v.Harvest.State.Strokes.{js, laws}
use linkedin_hyper_v.Harvest.State.{defaults, coerce, get, patch, is_eligible_now}
use linkedin_hyper_v.Harvest.Scheduler.{
  Budget, Task, World, consume_tokens, window_key, pick_next_task,
}
use linkedin_hyper_v.Harvest.Scheduler.Tokens.{granted, granted-le, consume_tokens_lem}
use linkedin_hyper_v.Harvest.Scheduler.Choice.{Chosen, pick_next_task-Chosen}
use linkedin_hyper_v.Harvest.Runner.{Clock, dispatch, dispatch-waits}
use linkedin_hyper_v.Harvest.Backfill.Fields.{Held}
use linkedin_hyper_v.Harvest.Backfill.Run.{run_once-Held}
use linkedin_hyper_v.Harvest.Backfill.{
  Reply, Response, Parts, Outcome, run_once, run_handler, settle, handler_of, backfill_invitations,
  backfill_connections, store_connections, connections_page, elements_of, upsert_connections,
  parse_start, invitations_page, is_blocked,
}

-- An account of three connections, read by two; the invitations are answered with an error.
abbrev ring : List ℕ
ring = 7 ∷ 8 ∷ 9 ∷ []

abbrev response : List ℕ → Reply (Response ℕ)
response xs =
    Reply.answered record { elements = none; data_elements = some xs; total = 0; data_total = 3 }

abbrev parts : Parts
parts = record {
  Element = ℕ;
  Item = ℕ;
  Row = ℕ;
  World = List ℕ;
  get_connections = λ count start. response (take count (drop start ring));
  get_invitations = λ count. Reply.failed record { code = ""; message = "HTTP 403" };
  get_conversations = λ count. Reply.answered [];
  upsert_connection = λ a x w. (true, x ∷ w);
  normalize_conversation = λ a x. some x;
  upsert_conversation = λ x w. x ∷ w;
  publish_progress = λ a s f t p w. w;
  page = 2;
  lower = λ t. t;
}

refused :
    (run_once js parts memory memory_hashes "ann" "invitations" 1 2 fresh []).0
    ≡ Outcome.stopped "HTTP 403" true
unfolding run_once run_handler settle handler_of backfill_invitations invitations_page is_blocked
    get patch coerce
refused = refl

run_once-Held_example :
    Held
      (get js memory memory_hashes "ann" "invitations" fresh)
      (get js memory memory_hashes "ann" "invitations"
        (run_once js parts memory memory_hashes "ann" "invitations" 1 2 fresh []).1.0)
      true
run_once-Held_example =
    run_once-Held js laws parts memory memory_hashes memory_hash_laws "ann" "invitations" 1 2 fresh
      [] "HTTP 403" true refl refused

first_page :
    (run_once js parts memory memory_hashes "ann" "connections" 1 2 fresh []).0
    ≡ Outcome.progressed 2 3 "backfilling"
unfolding run_once run_handler settle handler_of backfill_connections store_connections
    connections_page elements_of upsert_connections parse_start get patch coerce
first_page = refl

abbrev idle_world : World
idle_world = record { now = 5; within_business_hours = λ a. true; gate_allows = λ a s. true }

abbrev idle_task : Task
idle_task = record {
  account_id = "ann";
  surface = "connections";
  weight = 0;
  state = defaults "ann" "connections";
}

abbrev clock : Clock
clock = record {
  hour = "2026-01-05T09";
  started = 1;
  finished = 2;
  gap_start = 3;
  rounded = 50;
  min_gap_ms = 90000;
  max_gap_ms = 2400000;
}

dispatch-waits_example :
    is_eligible_now js
      (get js memory memory_hashes "ann" "connections"
        (dispatch js parts memory memory_hashes idle_task clock fresh []).0)
      90001
    ≡ false
dispatch-waits_example =
    dispatch-waits js parts memory memory_hashes laws memory_hash_laws idle_task clock 90001 fresh
      [] refl (omega arith) (omega arith) (omega arith)

granted-le_example :
    granted memory memory_counters memory_decr "harvest:bucket:global" "9" 20 50 fresh ≤ 20 - 0
granted-le_example =
    granted-le memory memory_counters memory_decr "harvest:bucket:global" "9" 20 50 fresh refl

abbrev budget : Budget
budget = record { global_ops_per_hour = 20; account_ops_per_hour = 0 }

consume_tokens_example :
    ((consume_tokens memory budget "ann" "9" fresh).0 ≡ false)
    × (memory_counters.count
          (consume_tokens memory budget "ann" "9" fresh).1
          (window_key "harvest:bucket:global" "9")
        ≡ 1)
consume_tokens_example =
    consume_tokens_lem memory memory_counters memory_decr budget "ann" "9" fresh refl

pick_next_task-Chosen_example :
    Chosen js idle_world
      (pick_next_task js idle_world (("ann", defaults "ann" "posts" ∷ []) ∷ []))
      (("ann", defaults "ann" "posts" ∷ []) ∷ [])
pick_next_task-Chosen_example =
    pick_next_task-Chosen js idle_world (("ann", defaults "ann" "posts" ∷ []) ∷ [])
