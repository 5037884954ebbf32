-- ===== src/Credentials.antt =====
-- worker/src/auth/credentialStore.js: the encrypted credentials of an account, and their public
-- status. The cipher, JSON, `toLowerCase` and the clock's texts are arguments.
mod Laws
use linkedin_hyper_v.Prelude.{
  ℕ, ◌/◌, String, Bool, true, false, ◌&&◌, ◌||◌, not, Option, none, some, [], ◌∷◌, if◌then◌else◌,
  truthy, or_text, str_eq, has_text, template, TextMap, map_get,
}
use linkedin_hyper_v.Redis.{Redis, Hashes}

-- What `save` encrypts.
pub record Credentials : Type 0 where
  pub email : String
  pub password : String
  pub captured_at : String

-- `key_is_set` says whether SESSION_ENCRYPTION_KEY is; `encrypt` prints and encrypts, `decrypt` is
-- `none` where it or `JSON.parse` throws.
pub record Config : Type 0 where
  pub key_is_set : Bool
  pub encrypt : Credentials → String
  pub decrypt : String → Option Credentials
  pub lower : String → String
  pub ttl_seconds : ℕ

abbrev pub key_for : String → String
key_for account = template ("credentials:" ∷ account ∷ [])

abbrev pub meta_key_for : String → String
meta_key_for account = template ("credentials:meta:" ∷ account ∷ [])

pub data Saved : Type 0 where
  threw : String → Saved
  saved : (ttl_days : ℕ) → Saved

abbrev pub meta_fields : (now consent_source : String) → TextMap String
meta_fields now consent_source =
    ("has", "1")
    ∷ ("capturedAt", now)
    ∷ ("consentSource", consent_source)
    ∷ ("lastUsedAt", "")
    ∷ ("lastError", "")
    ∷ ("needsPasswordUpdate", "0")
    ∷ []

-- `lastError: ok ? '' : String(error || 'unknown')` and the fields beside it.
abbrev pub used_fields : Config → (now : String) (ok : Bool) (error : String) → TextMap String
used_fields c now ok error =
    ("lastUsedAt", now)
    ∷ ("lastError", if ok then "" else or_text error "unknown")
    ∷ (
      "needsPasswordUpdate",
      if ok then "0" else (if has_text (c.lower error) "wrong password" then "1" else "0"),
    )
    ∷ []

pub record Status : Type 0 where
  pub has_stored_credentials : Bool
  pub captured_at : Option String
  pub last_used_at : Option String
  pub last_error : Option String
  pub needs_password_update : Bool

-- `text || null`, and `text === '1'`, of a field that may be missing.
abbrev pub or_null : Option String → Option String
or_null none = none
or_null (some text) = if truthy text then some text else none

abbrev pub is_one : Option String → Bool
is_one none = false
is_one (some text) = str_eq text "1"

unfoldable pub status_of : TextMap String → Status
status_of meta = record {
  has_stored_credentials = is_one (map_get meta "has");
  captured_at = or_null (map_get meta "capturedAt");
  last_used_at = or_null (map_get meta "lastUsedAt");
  last_error = or_null (map_get meta "lastError");
  needs_password_update = is_one (map_get meta "needsPasswordUpdate");
}

module _ (r : Redis) (h : Hashes r) (c : Config) where
  unfoldable pub store : (account now consent_source : String) → Credentials → r.Server → r.Server
  store account now consent_source creds s = r.expire (meta_key_for account) c.ttl_seconds (
      h.hset (meta_key_for account) (meta_fields now consent_source)
        (r.set_ex (key_for account) (c.encrypt creds) c.ttl_seconds s))

  unfoldable pub save :
      (account now consent_source email password : String) → r.Server → Saved × r.Server
  save account now consent_source email password s =
      if not (truthy account)
      then (threw "save: accountId required", s)
      else (if not (truthy email) || not (truthy password)
          then (threw "save: email and password required", s)
          else (if not c.key_is_set
              then (threw "SESSION_ENCRYPTION_KEY is not set", s)
              else (if r.up s
                  then (
                    saved (c.ttl_seconds / 86400),
                    store account now consent_source
                        record { email = email; password = password; captured_at = now } s,
                  )
                  else (threw "Redis does not answer", s))))

  abbrev decrypted : Option String → Option Credentials
  decrypted none = none
  decrypted (some blob) = if truthy blob && c.key_is_set then c.decrypt blob else none

  unfoldable pub load : (account : String) → r.Server → Option Credentials
  load account s =
      if truthy account
      then decrypted (if r.up s then r.get (key_for account) s else none)
      else none

  unfoldable pub status : (account : String) → r.Server → Status
  status account s = status_of (if r.up s then h.hgetall (meta_key_for account) s else [])

  unfoldable pub mark_used :
      (account now : String) (ok : Bool) (error : String) → r.Server → r.Server
  mark_used account now ok error s =
      if r.up s then h.hset (meta_key_for account) (used_fields c now ok error) s else s

  unfoldable pub remove : (account : String) → r.Server → r.Server
  remove account s = if r.up s then r.del (meta_key_for account) (r.del (key_for account) s) else s
