-- ===== src/ConnectSessions.antt =====
-- worker/src/connectSessions.js: the sessions in which an account is connected by hand, in Redis and
-- in the process's own map. The clock, the environment, the random identifier and the JSON printer
-- are arguments.
pub mod Laws
mod Tests
use linkedin_hyper_v.Prelude.{
  ℕ, ◌+◌, ◌/◌, max, String, Bool, true, false, ◌&&◌, not, Option, none, some, List, [], ◌∷◌, ltb,
  ◌==◌, if◌then◌else◌, truthy, or_text, str_eq, includes, template, TextMap, map_get, map_set,
}
use linkedin_hyper_v.Redis.{Redis}
use linkedin_hyper_v.Harvest.State.{Script}

pub record Session : Type 0 where
  pub connect_id : String
  pub account_id : String
  pub status : String
  pub login_url : String
  pub browser_url : String
  pub message : String
  pub current_url : String
  pub sync_queued : Bool
  pub created_at : String
  pub updated_at : String
  pub expires_at : String

-- The fields that callers of `updateConnectSession` patch; the other fields stay.
pub record Patch : Type 0 where
  pub status : Option String
  pub current_url : Option String
  pub message : Option String
  pub sync_queued : Option Bool

-- `print` is `JSON.stringify` and `read` is `JSON.parse`, `none` where it throws; `browser` is
-- `getBrowserUrl()`; `timeout` is the parsed variable, `none` for NaN.
pub record Config : Type 0 where
  pub js : Script
  pub print : Session → String
  pub read : String → Option Session
  pub browser : String
  pub timeout : Option ℕ

abbrev login_url : String
login_url = "https://www.linkedin.com/login"

abbrev or_default : Option ℕ → ℕ
or_default none = 300000
or_default (some n) = if n == 0 then 300000 else n

-- `Math.max(60_000, parseInt(...) || 300_000)`, and the seconds rounded up.
unfoldable pub connect_session_ttl_ms : Config → ℕ
connect_session_ttl_ms c = max 60000 (or_default c.timeout)

unfoldable pub connect_session_ttl_seconds : Config → ℕ
connect_session_ttl_seconds c = (connect_session_ttl_ms c + 999) / 1000

-- `getBrowserUrl`, by the trimmed variable without its last slashes.
unfoldable pub get_browser_url : (base : String) (production : Bool) → String
get_browser_url base production =
    let root = or_text base (if production then "/novnc" else "http://127.0.0.1:6080") in
    template (root ∷ "/vnc.html?autoconnect=1&resize=scale&view_only=0" ∷ [])

unfoldable pub with_derived_urls : Config → Session → Session
with_derived_urls c session = record session { browser_url = or_text session.browser_url c.browser }

unfoldable pub make_key : String → String
make_key connect_id = template ("connect:session:" ∷ connect_id ∷ [])

abbrev pub is_terminal : String → Bool
is_terminal status = includes ("connected" ∷ "failed" ∷ "expired" ∷ []) status

abbrev pub is_past : Option ℕ → ℕ → Bool
is_past none now = false
is_past (some t) now = ltb t now

abbrev pub expired_at : Config → (now : ℕ) → Session → Session
expired_at c now session = record session {
  status = "expired";
  message = or_text session.message "The LinkedIn connect session expired before login completed.";
  updated_at = c.js.iso now;
}

unfoldable pub normalize_session : Config → (now : ℕ) → Session → Session
normalize_session c now session =
    if is_past (c.js.time_of session.expires_at) now && not (is_terminal session.status)
    then expired_at c now session
    else session

abbrev given_or {ℓ} : {A : Type ℓ} → Option A → A → A
given_or none a = a
given_or (some b) a = b

unfoldable pub patched : Config → (now : ℕ) → Patch → Session → Session
patched c now p session = record session {
  status = given_or p.status session.status;
  current_url = given_or p.current_url session.current_url;
  message = given_or p.message session.message;
  sync_queued = given_or p.sync_queued session.sync_queued;
  updated_at = c.js.iso now;
}

-- A lookup: an error of `JSON.parse`, no session, or a session.
pub data Lookup : Type 0 where
  threw : Lookup
  missing : Lookup
  found : Session → Lookup

abbrev pub of_parsed : Option Session → Lookup
of_parsed none = threw
of_parsed (some session) = found session

abbrev pub of_memory : Option Session → Lookup
of_memory none = missing
of_memory (some session) = found session

module _ (r : Redis) (c : Config) where
  -- Redis and `memorySessions`.
  pub record Store : Type 0 where
    pub server : r.Server
    pub memory_sessions : TextMap Session

  unfoldable pub persist_session : Session → Store → Store
  persist_session session w = record {
    server =
        if r.up w.server
        then r.set_ex (make_key session.connect_id) (c.print session)
            (connect_session_ttl_seconds c) w.server
        else w.server;
    memory_sessions = map_set w.memory_sessions session.connect_id session;
  }

  unfoldable pub new_session : (connect_id account_id : String) (now : ℕ) → Session
  new_session connect_id account_id now = record {
    connect_id = connect_id;
    account_id = account_id;
    status = "waiting_for_login";
    login_url = login_url;
    browser_url = c.browser;
    message = "Open the worker-controlled LinkedIn browser and finish signing in.";
    current_url = login_url;
    sync_queued = false;
    created_at = c.js.iso now;
    updated_at = c.js.iso now;
    expires_at = c.js.iso (now + connect_session_ttl_ms c);
  }

  unfoldable pub create_connect_session :
      (connect_id account_id : String) (now : ℕ) → Store → Session × Store
  create_connect_session connect_id account_id now w =
      let session = new_session connect_id account_id now in
      (with_derived_urls c session, persist_session session w)

  abbrev pub of_raw : Option String → Option Session → Lookup
  of_raw none session = of_memory session
  of_raw (some raw) session = if truthy raw then of_parsed (c.read raw) else of_memory session

  -- What is stored; a rejected `GET` reads the map.
  unfoldable pub stored : String → Store → Lookup
  stored connect_id w =
      of_raw (if r.up w.server then r.get (make_key connect_id) w.server else none)
        (map_get w.memory_sessions connect_id)

  abbrev pub settle : (now : ℕ) → Lookup → Store → Lookup × Store
  settle now threw w = (threw, w)
  settle now missing w = (missing, w)
  settle now (found session) w =
      let normalized = normalize_session c now session in
      (
        found (with_derived_urls c normalized),
        if str_eq normalized.status "expired" then persist_session normalized w else w,
      )

  unfoldable pub get_connect_session : (connect_id : String) (now : ℕ) → Store → Lookup × Store
  get_connect_session connect_id now w = settle now (stored connect_id w) w

  abbrev write : (now : ℕ) → Patch → Lookup × Store → Lookup × Store
  write now p (threw, w) = (threw, w)
  write now p (missing, w) = (missing, w)
  write now p (found existing, w) =
      let next = patched c now p existing in
      (found (with_derived_urls c next), persist_session next w)

  unfoldable pub update_connect_session :
      (connect_id : String) (now : ℕ) → Patch → Store → Lookup × Store
  update_connect_session connect_id now p w = write now p (get_connect_session connect_id now w)
