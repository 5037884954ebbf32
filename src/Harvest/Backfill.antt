-- ===== src/Harvest/Backfill.antt =====
-- worker/src/harvest/backfillOrchestrator.js: one page of one surface. The requests of VoyagerClient,
-- the mapper's reading of conversations, and the effects on the database and the event bus, which
-- belong to other modules, are arguments; so are the two instants that a run reads from the clock.
pub mod Fields
pub mod Run
use linkedin_hyper_v.Prelude.{
  ℕ, ◌+◌, ◌*◌, ◌==◌, String, Bool, true, false, ◌||◌, Option, none, some, List, [], ◌∷◌, length,
  ltb, if◌then◌else◌, truthy, str_eq, has_text, template, TextMap,
}
use linkedin_hyper_v.Redis.{Redis, Hashes, or_zero}
use linkedin_hyper_v.Harvest.State.{Script, Progress, get, patch}

-- A rejected promise: the code and the message of the error.
pub record Failure : Type 0 where
  pub code : String
  pub message : String

pub data Reply (A : Type 0) : Type 0 where
  failed : Failure → Reply A
  answered : A → Reply A

-- What is read of a response: `elements`, `data.elements`, `paging.total` and `data.paging.total`,
-- a missing total being 0.
pub record Response (Element : Type 0) : Type 0 where
  pub elements : Option (List Element)
  pub data_elements : Option (List Element)
  pub total : ℕ
  pub data_total : ℕ

-- The other modules that a run calls. `upsert_connection` normalizes and stores, and says whether
-- it threw; `normalize_conversation` is `none` where it throws.
pub record Parts : Type 1 where
  pub Element : Type 0
  pub Item : Type 0
  pub Row : Type 0
  pub World : Type 0
  pub get_connections : (count start : ℕ) → Reply (Response Element)
  pub get_invitations : (count : ℕ) → Reply (Response Element)
  pub get_conversations : (count : ℕ) → Reply (List Item)
  pub upsert_connection : String → Element → World → Bool × World
  pub normalize_conversation : String → Item → Option Row
  pub upsert_conversation : Row → World → World
  pub publish_progress : String → String → (fetched total : ℕ) → String → World → World
  pub page : ℕ
  pub lower : String → String

pub record Page : Type 0 where
  pub written : ℕ
  pub fetched : ℕ
  pub total : ℕ
  pub next_cursor : String
  pub last_page : Bool

-- `a || b` of lists that may be missing, and of numbers.
abbrev or_elements : {A : Type 0} → Option (List A) → Option (List A) → List A
or_elements (some xs) other = xs
or_elements none (some xs) = xs
or_elements none none = []

abbrev or_number : ℕ → ℕ → ℕ
or_number a b = if a == 0 then b else a

unfoldable pub elements_of : {E : Type 0} → Response E → List E
elements_of json = or_elements json.elements json.data_elements

unfoldable pub parse_start : Script → String → ℕ
parse_start js cursor = or_zero (js.start_of cursor)

-- `start=${n}`
abbrev pub start_cursor : Script → ℕ → String
start_cursor js n = template ("start=" ∷ js.show n ∷ [])

pub data Outcome : Type 0 where
  deferred : Outcome
  progressed : (fetched total : ℕ) (phase : String) → Outcome
  stopped : (error : String) (blocked : Bool) → Outcome

module _ (js : Script) (v : Parts) where
  unfoldable pub upsert_connections : String → List v.Element → v.World → ℕ × v.World
  upsert_connections account [] w = (0, w)
  upsert_connections account (el ∷ rest) w =
      let (stored, w') = v.upsert_connection account el w in
      let (written, w'') = upsert_connections account rest w' in
      (if stored then written + 1 else written, w'')

  unfoldable pub connections_page : Progress → Response v.Element → ℕ → Page
  connections_page state json written =
      let elements = elements_of json in
      let start = parse_start js state.cursor in
      let last_page = ltb (length elements) v.page in
      record {
        written = written;
        fetched = state.fetched + length elements;
        total = or_number json.total (or_number json.data_total state.total_estimate);
        next_cursor = if last_page then state.cursor else start_cursor js (start + v.page);
        last_page = last_page;
      }

  -- The page, or the failure of the request, which leaves the database.
  unfoldable pub store_connections :
      String → Progress → Reply (Response v.Element) → v.World → Reply Page × v.World
  store_connections account state (failed err) w = (failed err, w)
  store_connections account state (answered json) w =
      let (written, w') = upsert_connections account (elements_of json) w in
      (answered (connections_page state json written), w')

  unfoldable pub backfill_connections : String → Progress → v.World → Reply Page × v.World
  backfill_connections account state w =
      store_connections account state (v.get_connections v.page (parse_start js state.cursor)) w

  unfoldable pub invitations_page : Progress → Reply (Response v.Element) → Reply Page
  invitations_page state (failed err) = failed err
  invitations_page state (answered json) = answered record {
    written = length (elements_of json);
    fetched = state.fetched + length (elements_of json);
    total = length (elements_of json);
    next_cursor = "";
    last_page = true;
  }

  unfoldable pub backfill_invitations : String → Progress → v.World → Reply Page × v.World
  backfill_invitations account state w = (invitations_page state (v.get_invitations v.page), w)

  -- A rejected upsert of a conversation is swallowed, and counted as written.
  abbrev upsert_row : Option v.Row → v.World → ℕ × v.World
  upsert_row none w = (0, w)
  upsert_row (some row) w = (1, v.upsert_conversation row w)

  unfoldable pub upsert_conversations : String → List v.Item → v.World → ℕ × v.World
  upsert_conversations account [] w = (0, w)
  upsert_conversations account (it ∷ rest) w =
      let (one, w') = upsert_row (v.normalize_conversation account it) w in
      let (written, w'') = upsert_conversations account rest w' in (one + written, w'')

  unfoldable pub conversations_page : Progress → List v.Item → ℕ → Page
  conversations_page state items written =
      let last_page = ltb (length items) v.page in
      record {
        written = written;
        fetched = state.fetched + length items;
        total = or_number state.total_estimate (length items);
        next_cursor =
            if last_page then "" else start_cursor js (parse_start js state.cursor + v.page);
        last_page = last_page;
      }

  unfoldable pub store_conversations :
      String → Progress → Reply (List v.Item) → v.World → Reply Page × v.World
  store_conversations account state (failed err) w = (failed err, w)
  store_conversations account state (answered items) w =
      let (written, w') = upsert_conversations account items w in
      (answered (conversations_page state items written), w')

  unfoldable pub backfill_conversations : String → Progress → v.World → Reply Page × v.World
  backfill_conversations account state w =
      store_conversations account state (v.get_conversations v.page) w

  -- `HANDLERS[surface]`
  unfoldable pub handler_of : String → Option (String → Progress → v.World → Reply Page × v.World)
  handler_of surface =
      if str_eq surface "connections"
      then some backfill_connections
      else (if str_eq surface "invitations"
          then some backfill_invitations
          else (if str_eq surface "conversations" then some backfill_conversations else none))

  unfoldable pub is_blocked : Failure → Bool
  is_blocked err =
      let message = v.lower err.message in
      str_eq err.code "BLOCKED"
      || (has_text message "401"
          || (has_text message "403" || (has_text message "999" || has_text message "redirect")))

  abbrev pub first_fields : (started : ℕ) → Progress → TextMap String
  first_fields started state =
      ("lastRunAt", js.iso started)
      ∷ ("phase", if str_eq state.phase "idle" then "backfilling" else state.phase)
      ∷ []

  abbrev pub phase_after : Page → String
  phase_after res = if res.last_page then "caught_up" else "backfilling"

  abbrev pub success_fields : (finished : ℕ) → Page → TextMap String
  success_fields finished res =
      ("cursor", res.next_cursor)
      ∷ ("fetched", js.show res.fetched)
      ∷ ("totalEstimate", js.show res.total)
      ∷ ("phase", phase_after res)
      ∷ ("lastSuccessAt", js.iso finished)
      ∷ ("consecutiveFailures", js.show 0)
      ∷ ("completedAt", if res.last_page then js.iso finished else "")
      ∷ []

  -- 48 hours, or 15 minutes.
  abbrev pub cooldown_ms : Bool → ℕ
  cooldown_ms blocked = if blocked then 172800000 else 900000

  abbrev pub failure_fields : (finished : ℕ) → Progress → Bool → TextMap String
  failure_fields finished state blocked =
      ("phase", if blocked then "blocked" else state.phase)
      ∷ ("consecutiveFailures", js.show (state.consecutive_failures + 1))
      ∷ ("nextEligibleAt", js.iso (finished + cooldown_ms blocked))
      ∷ []

  module _ (r : Redis) (h : Hashes r) where
    unfoldable pub settle :
        (account surface : String) (finished : ℕ)
        → Progress
        → Reply Page
        → r.Server
        → v.World
        → Outcome × (r.Server × v.World)
    settle account surface finished state (answered res) s w = (
      progressed res.fetched res.total (phase_after res),
      (
        patch js r h account surface (success_fields finished res) s,
        v.publish_progress account surface res.fetched res.total (phase_after res) w,
      ),
    )
    settle account surface finished state (failed err) s w = (
      stopped err.message (is_blocked err),
      (patch js r h account surface (failure_fields finished state (is_blocked err)) s, w),
    )

    unfoldable pub run_handler :
        (account surface : String) (finished : ℕ)
        → Progress
        → Option (String → Progress → v.World → Reply Page × v.World)
        → r.Server
        → v.World
        → Outcome × (r.Server × v.World)
    run_handler account surface finished state none s w = (
      deferred,
      (patch js r h account surface (("phase", "caught_up") ∷ ("nextEligibleAt", "") ∷ []) s, w),
    )
    run_handler account surface finished state (some handler) s w =
        let (reply, w') = handler account state w in
        settle account surface finished state reply s w'

    unfoldable pub run_once :
        (account surface : String) (started finished : ℕ)
        → r.Server
        → v.World
        → Outcome × (r.Server × v.World)
    run_once account surface started finished s w =
        let state = get js r h account surface s in
        let s' = patch js r h account surface (first_fields started state) s in
        run_handler account surface finished state (handler_of surface) s' w
