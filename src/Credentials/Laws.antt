-- ===== src/Credentials/Laws.antt =====
-- The status after a use.
use linkedin_hyper_v.Prelude.{
  ◌≡◌, refl, String, Bool, true, false, if◌then◌else◌, str_eq, eq_iff, has_text, TextMap,
  map_get-map_set,
}
use linkedin_hyper_v.Redis.{Redis, Hashes, HashLaws, merged}
use linkedin_hyper_v.Credentials.{
  Config, Status, meta_key_for, used_fields, status_of, status, mark_used,
}

module _ (c : Config) where
  -- A use changes neither whether there are credentials nor when they were captured, and asks for a
  -- new password exactly if it failed with a message of a wrong one.
  abbrev pub UsedStatus : (ok : Bool) (error : String) → Status → Status → Type 0
  UsedStatus ok error old new =
      (new.has_stored_credentials ≡ old.has_stored_credentials)
      × (new.captured_at ≡ old.captured_at)
      × (new.needs_password_update
          ≡ (if ok then false else has_text (c.lower error) "wrong password"))

  status_of-used :
      (meta : TextMap String) (now : String) (ok : Bool) (error : String)
      → UsedStatus ok error (status_of meta) (status_of (merged meta (used_fields c now ok error)))
  unfolding status_of
  status_of-used meta now ok error =
      simp (map_get-map_set) (refl, refl, flag ok (has_text (c.lower error) "wrong password"))
    where
      flag :
          (b w : Bool)
          → str_eq (if b then "0" else (if w then "1" else "0")) "1" ≡ (if b then false else w)
      flag true w = refl
      flag false true = refl
      flag false false = refl

  pub status-mark_used :
      (r : Redis) (h : Hashes r) (laws : HashLaws r h) (account now : String) (ok : Bool)
      (error : String) (s : r.Server)
      → r.up s ≡ true
      → UsedStatus ok error
          (status r h c account s)
          (status r h c account (mark_used r h c account now ok error s))
  unfolding status mark_used
  status-mark_used r h laws account now ok error s u =
      rw
        (
          u,
          laws.up-hset (meta_key_for account) (used_fields c now ok error) s,
          u,
          laws.hgetall-hset (meta_key_for account) (meta_key_for account)
              (used_fields c now ok error) s,
          (eq_iff (meta_key_for account) (meta_key_for account)).1 refl,
        )
        (status_of-used (h.hgetall (meta_key_for account) s) now ok error)
