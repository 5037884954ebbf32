-- ===== src/SyncPosture.antt =====
-- worker/src/syncPosture.js: what a failed sync says of an account, what is written about it to
-- Redis and the database, and what is read back. Texts in lower case, the clock's texts and the
-- answers of Redis and the database are arguments; the writes are a list of calls.
pub mod Laws
mod Tests
use linkedin_hyper_v.Prelude.{
  ℕ, ◌*◌, String, Bool, true, false, ◌&&◌, ◌||◌, Option, none, some, List, [], ◌∷◌, ◌++◌, any,
  if◌then◌else◌, truthy, or_text, includes, has_text, template, str_eq,
}

abbrev pub blocked_statuses : List String
blocked_statuses = "blocked" ∷ "checkpoint" ∷ "expired" ∷ "automation_warning" ∷ []

abbrev pub warning_patterns : List String
warning_patterns =
    "automated behavior" ∷ "automation" ∷ "using automation" ∷ "unusual activity"
    ∷ "temporarily restricted" ∷ "restricted your account" ∷ "suspicious activity" ∷ "we noticed"
    ∷ []

-- Of a text in lower case.
unfoldable pub is_automation_warning_text : String → Bool
is_automation_warning_text lower = any (has_text lower) warning_patterns

-- An error: its code in upper case, its message, the message and the diagnostics' sample in lower
-- case, and the first of the three URLs that is set.
pub record Failure : Type 0 where
  pub code : String
  pub message : String
  pub lower : String
  pub sample_lower : String
  pub warning_url : String

pub record Backoffs : Type 0 where
  pub automation_warning : ℕ
  pub expired : ℕ
  pub checkpoint : ℕ
  pub blocked : ℕ

-- The defaults of the environment variables, in minutes.
abbrev pub default_backoffs : Backoffs
default_backoffs = record {
  automation_warning = 10080;
  expired = 720;
  checkpoint = 1440;
  blocked = 2880;
}

pub record Verdict : Type 0 where
  pub posture : String
  pub coverage : String
  pub retryable : Bool
  pub backoff_minutes : ℕ
  pub reason : String
  pub warning_url : Option String

abbrev hard : String → ℕ → String → Verdict
hard posture backoff reason = record {
  posture = posture;
  coverage = "blocked";
  retryable = false;
  backoff_minutes = backoff;
  reason = reason;
  warning_url = none;
}

abbrev soft : ℕ → String → Verdict
soft backoff reason = record {
  posture = "degraded";
  coverage = "stale";
  retryable = true;
  backoff_minutes = backoff;
  reason = reason;
  warning_url = none;
}

unfoldable pub is_warning : Failure → Bool
is_warning f =
    str_eq f.code "AUTOMATION_WARNING"
    || (str_eq f.code "RESTRICTED"
        || (is_automation_warning_text f.lower || is_automation_warning_text f.sample_lower))

unfoldable pub is_expired : Failure → Bool
is_expired f =
    str_eq f.code "SESSION_EXPIRED"
    || (str_eq f.code "NO_SESSION" || str_eq f.code "COOKIES_MISSING")

unfoldable pub is_checkpoint : Failure → Bool
is_checkpoint f =
    str_eq f.code "CHECKPOINT_INCOMPLETE"
    || (has_text f.lower "/checkpoint" || has_text f.lower "/challenge")

unfoldable pub is_redirected : Failure → Bool
is_redirected f =
    has_text f.lower "err_too_many_redirects"
    || (has_text f.lower "too many redirects" || has_text f.lower "/authwall")

-- `/timeout|network|navigation|closed/i`, on the text in lower case.
unfoldable pub is_transient : Failure → Bool
is_transient f = any (has_text f.lower) ("timeout" ∷ "network" ∷ "navigation" ∷ "closed" ∷ [])

unfoldable pub classify_sync_failure : Backoffs → Failure → Verdict
classify_sync_failure b f =
    if is_warning f
    then record (hard "automation_warning" b.automation_warning
        (or_text f.message "LinkedIn flagged possible automation or unusual activity.")) {
          warning_url = some f.warning_url;
        }
    else (if is_expired f
        then hard "expired" b.expired (or_text f.message "LinkedIn session is expired.")
        else (if is_checkpoint f
            then hard "checkpoint" b.checkpoint
                (or_text f.message "LinkedIn checkpoint is required.")
            else (if is_redirected f
                then hard "blocked" b.blocked
                    (or_text f.message "LinkedIn redirected to a blocked or logged-out state.")
                else (if is_transient f then soft 10 f.message else soft 20 f.message))))

pub record Fields : Type 0 where
  pub reason : String
  pub surface : String
  pub lane : String
  pub error_code : String
  pub warning_url : String
  pub next_allowed_at : String

-- The hash written to Redis; the fields' `|| ''` changes no text.
pub record Payload : Type 0 where
  pub posture : String
  pub fields : Fields
  pub updated_at : String

-- The calls that setSyncPosture makes, in order. Each is caught, so none stops the next.
pub data Write : Type 0 where
  hset : String → Payload → Write
  expire : String → ℕ → Write
  del : String → Write
  update_session_status : String → String → Write
  -- The account, the reachability, its time, and the warning URL or null.
  update_live_reachability : String → String → String → Option String → Write
  verified : String → String → Write

abbrev pub posture_key : String → String
posture_key account = template ("sync:posture:" ∷ account ∷ [])

pub is_blocked_posture : String → Bool
is_blocked_posture posture = includes blocked_statuses posture

unfoldable pub session_status : String → Option String
session_status posture =
    if includes blocked_statuses posture
    then some (
        if str_eq posture "blocked"
        then "expired"
        else (if str_eq posture "automation_warning" then "restricted" else posture))
    else (if str_eq posture "healthy" then some "connected" else none)

unfoldable pub live_reachability : String → Option String
live_reachability posture =
    if includes blocked_statuses posture
    then some (if str_eq posture "expired" then "login_redirect" else posture)
    else (if str_eq posture "healthy"
        then some "reachable"
        else (if str_eq posture "degraded" then some "unknown" else none))

abbrev or_null : String → Option String
or_null s = if truthy s then some s else none

abbrev status_writes : String → Option String → List Write
status_writes account none = []
status_writes account (some status) = update_session_status account status ∷ []

abbrev reach_writes : String → String → String → Option String → List Write
reach_writes account now url none = []
reach_writes account now url (some reach) =
    update_live_reachability account reach now (or_null url) ∷ []

pub set_sync_posture :
    (account posture : String) → Fields → (now : String) → Option Payload × List Write
unfolding session_status live_reachability
set_sync_posture account posture fields now =
    if truthy account && truthy posture
    then (let payload : Payload = record { posture = posture; fields = fields; updated_at = now } in
        (
          some payload,
          hset (posture_key account) payload
              ∷ expire (posture_key account) (7 * 24 * 60 * 60)
              ∷ (status_writes account (session_status posture)
                  ++ reach_writes account now fields.warning_url (live_reachability posture)),
        ))
    else (none, [])

abbrev no_fields : String → Fields
no_fields reason = record {
  reason = reason;
  surface = "";
  lane = "";
  error_code = "";
  warning_url = "";
  next_allowed_at = "";
}

pub clear_sync_posture : (account reason now : String) → Option Payload × List Write
unfolding set_sync_posture
clear_sync_posture account reason now =
    if truthy account
    then (let (payload, writes) = set_sync_posture account "healthy" (no_fields reason) now in
        (payload, del (posture_key account) ∷ verified account now ∷ writes))
    else (none, [])

-- The posture that getSyncPosture answers, given the posture in the hash that Redis answers (the
-- empty text if it answers none or fails) and the account's session status in the database (the
-- empty text if there is none).
unfoldable pub get_sync_posture : (account redis_posture status : String) → String
get_sync_posture account redis_posture status =
    if truthy account
    then (if truthy redis_posture
        then redis_posture
        else (if includes ("expired" ∷ "checkpoint" ∷ "blocked" ∷ "restricted" ∷ []) status
            then (if str_eq status "checkpoint"
                then "checkpoint"
                else (if str_eq status "restricted" then "automation_warning" else "expired"))
            else "healthy"))
    else "healthy"
