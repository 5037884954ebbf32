-- ===== src/ConnectSessions/Laws.antt =====
-- What is read back of a connect session.
use linkedin_hyper_v.Prelude.{
  ℕ, ◌+◌, ◌≡◌, ◌∙◌, refl, inl, inr, sym, ap, String, true, false, ◌&&◌, not, some, List, [], ◌∷◌,
  arith, ltb, if◌then◌else◌, truthy, str_eq, eq_iff, map_get-map_set, Bool-cases,
}
use linkedin_hyper_v.Redis.{Redis, TextLaws}
use linkedin_hyper_v.Harvest.State.{ScriptLaws}
use linkedin_hyper_v.ConnectSessions.{
  Session, Patch, Config, Store, found, connect_session_ttl_ms, connect_session_ttl_seconds,
  make_key, with_derived_urls, is_terminal, is_past, expired_at, normalize_session, patched,
  persist_session, new_session, create_connect_session, stored, get_connect_session,
  update_connect_session,
}

-- What is relied on of `JSON`: a printed session reads back, and is no empty text.
pub record ConfigLaws (c : Config) : Type 0 where
  pub read-print : (session : Session) → c.read (c.print session) ≡ some session
  pub truthy-print : (session : Session) → truthy (c.print session) ≡ true

connect_id-normalize :
    (c : Config) (now : ℕ) (session : Session)
    → (normalize_session c now session).connect_id ≡ session.connect_id
unfolding normalize_session
connect_id-normalize c now session =
    elim (Bool-cases
      (is_past (c.js.time_of session.expires_at) now && not (is_terminal session.status))) [
        | inl up ↦ rw up refl
        | inr runs ↦ rw runs refl
      ]

-- A session that is not expired is as it was.
normalize-same :
    (c : Config) (now : ℕ) (session : Session)
    → str_eq (normalize_session c now session).status "expired" ≡ false
    → session ≡ normalize_session c now session
unfolding normalize_session
normalize-same c now session h =
    elim (Bool-cases
      (is_past (c.js.time_of session.expires_at) now && not (is_terminal session.status))) [
        | inl up ↦ absurd (expired-no up)
        | inr runs ↦ rw runs refl
      ]
  where
    expired-no :
        (is_past (c.js.time_of session.expires_at) now && not (is_terminal session.status)) ≡ true
        → ⊥
    expired-no up = cc

normalize-terminal :
    (c : Config) (now : ℕ) (session : Session)
    → is_terminal session.status ≡ true
    → normalize_session c now session ≡ session
unfolding normalize_session
normalize-terminal c now session h =
    rw h (elim (Bool-cases (is_past (c.js.time_of session.expires_at) now)) [
      | inl past ↦ rw past refl
      | inr ahead ↦ rw ahead refl
    ])

module _ (r : Redis) (texts : TextLaws r) (c : Config) (laws : ConfigLaws c) where
  -- Whether Redis answers or not, a session that is persisted is what is stored.
  stored-persist_session :
      (session : Session) (w : Store r c)
      → stored r c session.connect_id (persist_session r c session w) ≡ found session
  unfolding stored persist_session
  stored-persist_session session w = ground (
    arith,
    texts.get-set_ex (make_key session.connect_id) (make_key session.connect_id) (c.print session)
        (connect_session_ttl_seconds c) w.server,
    texts.up-set_ex (make_key session.connect_id) (c.print session) (connect_session_ttl_seconds c)
        w.server,
    eq_iff (make_key session.connect_id) (make_key session.connect_id),
    eq_iff session.connect_id session.connect_id,
    map_get-map_set w.memory_sessions session.connect_id session.connect_id session,
    laws.read-print session,
    laws.truthy-print session,
  )

  stored-named :
      (connect_id : String) (session : Session) (w : Store r c)
      → session.connect_id ≡ connect_id
      → stored r c connect_id (persist_session r c session w) ≡ found session
  stored-named connect_id session w same =
      ap (λ k. stored r c k (persist_session r c session w)) (sym same)
      ∙ stored-persist_session session w

  -- The session that is answered, when one is stored.
  get-stored :
      (connect_id : String) (now : ℕ) (session : Session) (w : Store r c)
      → stored r c connect_id w ≡ found session
      → (get_connect_session r c connect_id now w).0
        ≡ found (with_derived_urls c (normalize_session c now session))
  unfolding get_connect_session
  get-stored connect_id now session w h = rw h refl

  -- A read leaves the session as it was, but for its expiry.
  stored-get_connect_session :
      (connect_id : String) (now : ℕ) (session : Session) (w : Store r c)
      → stored r c connect_id w ≡ found session
      → session.connect_id ≡ connect_id
      → stored r c connect_id (get_connect_session r c connect_id now w).1
        ≡ found (normalize_session c now session)
  unfolding get_connect_session
  stored-get_connect_session connect_id now session w h same =
      rw h (elim (Bool-cases (str_eq (normalize_session c now session).status "expired")) [
        | inl expired ↦ rw expired (
            stored-named connect_id (normalize_session c now session) w
              (connect_id-normalize c now session ∙ same))
        | inr runs ↦ rw runs (h ∙ ap found (normalize-same c now session runs))
      ])

  -- The store after reads of one session at several times.
  abbrev pub reads : String → List ℕ → Store r c → Store r c
  reads connect_id [] w = w
  reads connect_id (now ∷ rest) w =
      reads connect_id rest (get_connect_session r c connect_id now w).1

  stored-reads :
      (connect_id : String) (times : List ℕ) (session : Session) (w : Store r c)
      → stored r c connect_id w ≡ found session
      → session.connect_id ≡ connect_id
      → is_terminal session.status ≡ true
      → stored r c connect_id (reads connect_id times w) ≡ found session
  stored-reads connect_id [] session w h same ended = h
  stored-reads connect_id (now ∷ rest) session w h same ended =
      stored-reads connect_id rest session (get_connect_session r c connect_id now w).1
        (stored-get_connect_session connect_id now session w h same
          ∙ ap found (normalize-terminal c now session ended))
        same ended

  -- A session that has ended is answered as the first read finds it stored, however often it is read,
  -- provided that its key does not run out in between and that Redis answers all of the reads or none.
  pub get_connect_session-reads :
      (connect_id : String) (times : List ℕ) (now : ℕ) (session : Session) (w : Store r c)
      → stored r c connect_id w ≡ found session
      → session.connect_id ≡ connect_id
      → is_terminal session.status ≡ true
      → (get_connect_session r c connect_id now (reads connect_id times w)).0
        ≡ found (with_derived_urls c session)
  get_connect_session-reads connect_id times now session w h same ended =
      get-stored connect_id now session (reads connect_id times w)
        (stored-reads connect_id times session w h same ended)
      ∙ ap (λ s. found (with_derived_urls c s)) (normalize-terminal c now session ended)

  stored-create :
      (connect_id account_id : String) (now : ℕ) (w : Store r c)
      → stored r c connect_id (create_connect_session r c connect_id account_id now w).1
        ≡ found (new_session r c connect_id account_id now)
  unfolding create_connect_session new_session
  stored-create connect_id account_id now w =
      stored-persist_session (new_session r c connect_id account_id now) w

  -- A new session is answered as it was created until its time is up, and as expired from then on.
  pub get-create_connect_session :
      (js : ScriptLaws c.js) (connect_id account_id : String) (now later : ℕ) (w : Store r c)
      → (get_connect_session r c connect_id later
          (create_connect_session r c connect_id account_id now w).1).0
        ≡ (if ltb (now + connect_session_ttl_ms c) later
            then found (
                with_derived_urls c
                  (expired_at c later (new_session r c connect_id account_id now)))
            else found (create_connect_session r c connect_id account_id now w).0)
  unfolding create_connect_session normalize_session new_session
  get-create_connect_session js connect_id account_id now later w =
      get-stored connect_id later (new_session r c connect_id account_id now)
        (create_connect_session r c connect_id account_id now w).1
        (stored-create connect_id account_id now w)
      ∙ rw (js.time_of-iso (now + connect_session_ttl_ms c))
          (elim (Bool-cases (ltb (now + connect_session_ttl_ms c) later)) [
            | inl up ↦ rw up refl
            | inr runs ↦ rw runs refl
          ])

  -- What an update leaves is the session that was stored, expired if its time is up, and patched.
  pub stored-update_connect_session :
      (connect_id : String) (now : ℕ) (p : Patch) (session : Session) (w : Store r c)
      → stored r c connect_id w ≡ found session
      → session.connect_id ≡ connect_id
      → stored r c connect_id (update_connect_session r c connect_id now p w).1
        ≡ found (patched c now p (with_derived_urls c (normalize_session c now session)))
  unfolding update_connect_session patched with_derived_urls
  stored-update_connect_session connect_id now p session w h same =
      rw (get-stored connect_id now session w h) (
        stored-named connect_id
          (patched c now p (with_derived_urls c (normalize_session c now session)))
          (get_connect_session r c connect_id now w).1 (connect_id-normalize c now session ∙ same))
