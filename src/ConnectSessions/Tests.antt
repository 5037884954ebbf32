-- ===== src/ConnectSessions/Tests.antt =====
-- Runs of the connect sessions on a Redis in memory. Sessions are printed field by field, each
-- character after a mark, and read back.
use Prim.Native.Char.{Char, code}
use Prim.Native.String.{[] as empty, ◌∷◌ as ◌∷ᵗ◌, count}
use text.Mathlib.TextLemmas.{length-cons}
use linkedin_hyper_v.Prelude.{
  ◌+◌, ◌≡◌, ◌≢◌, refl, ap, String, Bool, true, false, Option, none, some, [], ◌∷◌, arith, ltb, ◌==◌,
  if◌then◌else◌, truthy, eq_iff, map_get,
}
use linkedin_hyper_v.Redis.Memory.{memory, memory_texts, fresh}
use linkedin_hyper_v.Harvest.State.Strokes.{js, laws}
use linkedin_hyper_v.ConnectSessions.{
  Session, Patch, Config, Store, found, connect_session_ttl_ms, with_derived_urls, expired_at,
  new_session, create_connect_session, stored, get_connect_session,
}
use linkedin_hyper_v.ConnectSessions.Laws.{
  ConfigLaws, reads, get_connect_session-reads, get-create_connect_session,
}

frame : String → String → String
frame empty rest = "." ∷ᵗ rest
frame (c ∷ᵗ text) rest = "+" ∷ᵗ (c ∷ᵗ frame text rest)

unframe : String → String × String
unframe empty = (empty, empty)
unframe (mark ∷ᵗ empty) = (empty, empty)
unframe (mark ∷ᵗ (c ∷ᵗ text)) =
    let inner = unframe text in
    if code mark == 43 then (c ∷ᵗ inner.0, inner.1) else (empty, c ∷ᵗ text)

unframe-frame : (text rest : String) → unframe (frame text rest) ≡ (text, rest)
unfolding frame unframe
unframe-frame empty empty = refl
unframe-frame empty (c ∷ᵗ rest) = refl
unframe-frame (c ∷ᵗ text) rest = ap (λ p. (c ∷ᵗ p.0, p.1)) (unframe-frame text rest)

print : Session → String
print s = frame s.connect_id (
    frame s.account_id (
      frame s.status (
        frame s.login_url (
          frame s.browser_url (
            frame s.message (
              frame s.current_url (
                frame (if s.sync_queued then "1" else "")
                  (frame s.created_at (frame s.updated_at (frame s.expires_at empty))))))))))

read : String → Option Session
read t₀ =
    let (connect_id, t₁) = unframe t₀ in
    let (account_id, t₂) = unframe t₁ in
    let (status, t₃) = unframe t₂ in
    let (login_url, t₄) = unframe t₃ in
    let (browser_url, t₅) = unframe t₄ in
    let (message, t₆) = unframe t₅ in
    let (current_url, t₇) = unframe t₆ in
    let (queued, t₈) = unframe t₇ in
    let (created_at, t₉) = unframe t₈ in
    let (updated_at, t₁₀) = unframe t₉ in
    let (expires_at, t₁₁) = unframe t₁₀ in
    some record {
      connect_id = connect_id;
      account_id = account_id;
      status = status;
      login_url = login_url;
      browser_url = browser_url;
      message = message;
      current_url = current_url;
      sync_queued = truthy queued;
      created_at = created_at;
      updated_at = updated_at;
      expires_at = expires_at;
    }

truthy-flag : (b : Bool) → truthy (if b then "1" else "") ≡ b
truthy-flag true = refl
truthy-flag false = refl

read-print : (session : Session) → read (print session) ≡ some session
unfolding read print
read-print session = simp (unframe-frame, truthy-flag)

truthy-cons : (c : Char) (text : String) → truthy (c ∷ᵗ text) ≡ true
truthy-cons c text = ground (arith, eq_iff (c ∷ᵗ text) "", not-empty)
  where
    not-empty : (c ∷ᵗ text) ≢ ""
    not-empty e = omega (arith, length-cons c text, ap count e)

truthy-frame : (text rest : String) → truthy (frame text rest) ≡ true
unfolding frame
truthy-frame empty rest = truthy-cons "." rest
truthy-frame (c ∷ᵗ text) rest = truthy-cons "+" (c ∷ᵗ frame text rest)

truthy-print : (session : Session) → truthy (print session) ≡ true
unfolding print
truthy-print session = truthy-frame session.connect_id _

abbrev config : Config
config = record { js = js; print = print; read = read; browser = "/novnc/vnc.html"; timeout = none }

abbrev config_laws : ConfigLaws config
config_laws = record { read-print = read-print; truthy-print = truthy-print }

abbrev start : Store memory config
start = record { server = fresh; memory_sessions = [] }

-- A session that has ended, as it is kept while Redis does not answer.
abbrev ended : Session
ended = record (new_session memory config "c1" "ann" 5) { status = "connected" }

abbrev kept : Store memory config
kept = record { server = record fresh { answers = false }; memory_sessions = ("c1", ended) ∷ [] }

kept-ended : stored memory config "c1" kept ≡ found ended
unfolding stored map_get
kept-ended = refl

get_connect_session-reads_example :
    (get_connect_session memory config "c1" 900000
      (reads memory memory_texts config config_laws "c1" (7 ∷ 400000 ∷ []) kept)).0
    ≡ found (with_derived_urls config ended)
unfolding new_session
get_connect_session-reads_example =
    get_connect_session-reads memory memory_texts config config_laws "c1" (7 ∷ 400000 ∷ []) 900000
      ended kept kept-ended refl refl

get-create_connect_session_example :
    (get_connect_session memory config "c1" 400000
      (create_connect_session memory config "c1" "ann" 5 start).1).0
    ≡ (if ltb (5 + connect_session_ttl_ms config) 400000
        then found (
            with_derived_urls config
              (expired_at config 400000 (new_session memory config "c1" "ann" 5)))
        else found (create_connect_session memory config "c1" "ann" 5 start).0)
get-create_connect_session_example =
    get-create_connect_session memory memory_texts config config_laws laws "c1" "ann" 5 400000 start

abbrev failing : Patch
failing = record {
  status = some "failed";
  current_url = none;
  message = some "Signed out.";
  sync_queued = none;
}
