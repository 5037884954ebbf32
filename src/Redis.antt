-- ===== src/Redis.antt =====
-- The Redis server, a service that the worker calls (worker/src/redisClient.js hands out the
-- connection). Nothing of it is defined here: its commands are the fields of a record, and what
-- the worker relies on of them, as Redis documents it, is a record of laws.
pub mod Memory
use linkedin_hyper_v.Prelude.{
  ℕ, ◌+◌, ◌-◌, [], ◌∷◌, TextMap, map_set, ◌≡◌, String, Bool, true, false, ◌≢◌, List, includes,
  Option, none, some, if◌then◌else◌, str_eq, ◌==◌, arith,
}
use linkedin_hyper_v.Prelude.Int.{ℤ, pos, pos_part}

-- The commands on text and counter keys. `up` says whether a command sent now is answered; if it
-- is not, the client's promise is rejected. `get_count` is `GET` of a counter, read as a number.
pub record Redis : Type 1 where
  pub Server : Type 0
  pub up : Server → Bool
  pub incr : String → Server → ℕ × Server
  pub decr : String → Server → Server
  pub expire : String → ℕ → Server → Server
  pub get_count : String → Server → Option ℕ
  pub get : String → Server → Option String
  pub set_ex : String → String → ℕ → Server → Server
  pub ttl : String → Server → ℤ
  pub del : String → Server → Server

-- `v ? parseInt(v, 10) || 0 : 0`
abbrev pub or_zero : Option ℕ → ℕ
or_zero none = 0
or_zero (some n) = n

-- The Lua script that three modules send: `INCR`, and `EXPIRE` on the first increment. Redis runs
-- a script as one step.
unfoldable pub incr_script : (r : Redis) → String → ℕ → r.Server → ℕ × r.Server
incr_script r key ttl s =
    let (count, s') = r.incr key s in
    if count == 1 then (count, r.expire key ttl s') else (count, s')

-- What is relied on of counters while no key runs out: `INCR` answers the old count plus one and
-- touches its key only, `EXPIRE` leaves the counts, and the connection is as it was.
pub record CounterLaws (r : Redis) : Type 0 where
  pub count : r.Server → String → ℕ
  pub incr_reply : (k : String) (s : r.Server) → (r.incr k s).0 ≡ count s k + 1
  pub count-incr :
      (k j : String) (s : r.Server)
      → count (r.incr k s).1 j ≡ (if str_eq k j then count s k + 1 else count s j)
  pub count-expire : (k j : String) (t : ℕ) (s : r.Server) → count (r.expire k t s) j ≡ count s j
  pub count-get : (k : String) (s : r.Server) → or_zero (r.get_count k s) ≡ count s k
  pub up-incr : (k : String) (s : r.Server) → r.up (r.incr k s).1 ≡ r.up s
  pub up-expire : (k : String) (t : ℕ) (s : r.Server) → r.up (r.expire k t s) ≡ r.up s

-- What is relied on of keys with a time to live: `SET … EX t` gives its key the time `t` and
-- touches no other, `DEL` takes its key's time away, and counting touches no other key's time.
pub record TtlLaws (r : Redis) : Type 0 where
  pub ttl-set_ex :
      (k j v : String) (t : ℕ) (s : r.Server)
      → r.ttl j (r.set_ex k v t s) ≡ (if str_eq k j then pos t else r.ttl j s)
  pub ttl-del :
      (k j : String) (s : r.Server)
      → pos_part (r.ttl j (r.del k s)) ≡ (if str_eq k j then 0 else pos_part (r.ttl j s))
  pub ttl-incr :
      (k j : String) (s : r.Server) → str_eq k j ≡ false → r.ttl j (r.incr k s).1 ≡ r.ttl j s
  pub ttl-expire :
      (k j : String) (t : ℕ) (s : r.Server)
      → str_eq k j ≡ false
      → r.ttl j (r.expire k t s) ≡ r.ttl j s
  pub up-set_ex : (k v : String) (t : ℕ) (s : r.Server) → r.up (r.set_ex k v t s) ≡ r.up s
  pub up-del : (k : String) (s : r.Server) → r.up (r.del k s) ≡ r.up s

module _ (r : Redis) (laws : CounterLaws r) where
  open laws use {count, incr_reply, count-incr, count-expire, up-incr, up-expire}

  pub incr_script_reply :
      (k : String) (t : ℕ) (s : r.Server) → (incr_script r k t s).0 ≡ count s k + 1
  unfolding incr_script
  incr_script_reply k t s = ground (arith, incr_reply k s)

  pub count-incr_script :
      (k j : String) (t : ℕ) (s : r.Server)
      → count (incr_script r k t s).1 j ≡ (if str_eq k j then count s k + 1 else count s j)
  unfolding incr_script
  count-incr_script k j t s = ground (arith, count-expire k j t (r.incr k s).1, count-incr k j s)

  pub up-incr_script : (k : String) (t : ℕ) (s : r.Server) → r.up (incr_script r k t s).1 ≡ r.up s
  unfolding incr_script
  up-incr_script k t s = ground (arith, up-expire k t (r.incr k s).1, up-incr k s)

pub ttl-incr_script :
    (r : Redis) (ttls : TtlLaws r) (k j : String) (t : ℕ) (s : r.Server)
    → str_eq k j ≡ false
    → r.ttl j (incr_script r k t s).1 ≡ r.ttl j s
unfolding incr_script
ttl-incr_script r ttls k j t s h =
    ground (arith, ttls.ttl-incr k j s h, ttls.ttl-expire k j t (r.incr k s).1 h)

-- The commands on sorted sets, and what is relied on of them: they touch no key's time to live and
-- no text, members of a range have a score, and the commands on keys leave the scores.
pub record SortedSets (r : Redis) : Type 0 where
  pub zadd : String → ℕ → String → r.Server → r.Server
  pub zrem : String → String → r.Server → r.Server
  pub zscore : String → String → r.Server → Option ℕ
  -- `ZREVRANGE key 0 (n - 1)`
  pub zrevrange : String → ℕ → r.Server → List String

pub record SortedSetLaws (r : Redis) (z : SortedSets r) : Type 0 where
  pub ttl-zrem : (k m j : String) (s : r.Server) → r.ttl j (z.zrem k m s) ≡ r.ttl j s
  pub up-zrem : (k m : String) (s : r.Server) → r.up (z.zrem k m s) ≡ r.up s
  pub get-set_ex :
      (k j v : String) (t : ℕ) (s : r.Server)
      → r.get j (r.set_ex k v t s) ≡ (if str_eq k j then some v else r.get j s)
  pub get-expire : (k j : String) (t : ℕ) (s : r.Server) → r.get j (r.expire k t s) ≡ r.get j s
  pub up-expire : (k : String) (t : ℕ) (s : r.Server) → r.up (r.expire k t s) ≡ r.up s
  pub zscore-set_ex :
      (k v key m : String) (t : ℕ) (s : r.Server)
      → z.zscore key m (r.set_ex k v t s) ≡ z.zscore key m s
  pub zscore-expire :
      (k key m : String) (t : ℕ) (s : r.Server) → z.zscore key m (r.expire k t s) ≡ z.zscore key m s
  pub zscore-zrevrange :
      (key m : String) (n : ℕ) (s : r.Server)
      → includes (z.zrevrange key n s) m ≡ true
      → z.zscore key m s ≢ none

-- What is relied on of texts: `SET … EX` sets the text of its key and no other, and the connection
-- is as it was.
pub record TextLaws (r : Redis) : Type 0 where
  pub get-set_ex :
      (k j v : String) (t : ℕ) (s : r.Server)
      → r.get j (r.set_ex k v t s) ≡ (if str_eq k j then some v else r.get j s)
  pub up-set_ex : (k v : String) (t : ℕ) (s : r.Server) → r.up (r.set_ex k v t s) ≡ r.up s

-- `DECR` takes one from its key's count.
pub record DecrLaws (r : Redis) (laws : CounterLaws r) : Type 0 where
  pub count-decr :
      (k j : String) (s : r.Server)
      → laws.count (r.decr k s) j ≡ (if str_eq k j then laws.count s k - 1 else laws.count s j)
  pub up-decr : (k : String) (s : r.Server) → r.up (r.decr k s) ≡ r.up s

-- The commands on hashes: `HSET` sets the named fields of its key and leaves the other fields and
-- keys.
pub record Hashes (r : Redis) : Type 0 where
  pub hset : String → TextMap String → r.Server → r.Server
  pub hgetall : String → r.Server → TextMap String

-- A hash after some of its fields are set.
abbrev pub merged : TextMap String → TextMap String → TextMap String
merged raw [] = raw
merged raw (field ∷ fields) = merged (map_set raw field.0 field.1) fields

pub record HashLaws (r : Redis) (h : Hashes r) : Type 0 where
  pub hgetall-hset :
      (k j : String) (fields : TextMap String) (s : r.Server)
      → h.hgetall j (h.hset k fields s)
        ≡ (if str_eq k j then merged (h.hgetall k s) fields else h.hgetall j s)
  pub up-hset :
      (k : String) (fields : TextMap String) (s : r.Server) → r.up (h.hset k fields s) ≡ r.up s
