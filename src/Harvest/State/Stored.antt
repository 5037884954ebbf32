-- ===== src/Harvest/State/Stored.antt =====
-- What is read back after a patch.
use linkedin_hyper_v.Prelude.{◌≡◌, refl, String, true, [], ◌∷◌, TextMap, map_get, eq_iff, arith}
use linkedin_hyper_v.Redis.{Redis, Hashes, HashLaws, merged}
use linkedin_hyper_v.Harvest.State.{Script, coerce, spread, get, patch, key}

coerce-spread :
    (js : Script) (raw : TextMap String) (account surface : String)
    → coerce js raw account surface ≡ spread js raw account surface
unfolding coerce spread map_get
coerce-spread js [] account surface = refl
coerce-spread js (field ∷ fields) account surface = refl

-- While Redis answers, a patch sets its fields and leaves the others.
pub get-patch :
    (js : Script) (r : Redis) (h : Hashes r) (laws : HashLaws r h) (account surface : String)
    (fields : TextMap String) (s : r.Server)
    → r.up s ≡ true
    → get js r h account surface (patch js r h account surface fields s)
      ≡ spread js (merged (h.hgetall (key account surface) s) fields) account surface
unfolding get patch
get-patch js r h laws account surface fields s u = ground (
  arith,
  laws.up-hset (key account surface) fields s,
  laws.hgetall-hset (key account surface) (key account surface) fields s,
  eq_iff (key account surface) (key account surface),
  coerce-spread js (merged (h.hgetall (key account surface) s) fields) account surface,
)

pub up-patch :
    (js : Script) (r : Redis) (h : Hashes r) (laws : HashLaws r h) (account surface : String)
    (fields : TextMap String) (s : r.Server)
    → r.up (patch js r h account surface fields s) ≡ r.up s
unfolding patch
up-patch js r h laws account surface fields s =
    ground (arith, laws.up-hset (key account surface) fields s)

pub get-spread :
    (js : Script) (r : Redis) (h : Hashes r) (account surface : String) (s : r.Server)
    → r.up s ≡ true
    → get js r h account surface s ≡ spread js (h.hgetall (key account surface) s) account surface
unfolding get
get-spread js r h account surface s u =
    ground (arith, coerce-spread js (h.hgetall (key account surface) s) account surface)
