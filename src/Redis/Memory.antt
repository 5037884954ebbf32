-- ===== src/Redis/Memory.antt =====
-- A Redis server in memory, whose keys do not run out while it is watched: it shows that the laws
-- can hold, and the witnesses run on it.
use linkedin_hyper_v.Prelude.{
  ℕ, zero, suc, ◌≢◌, List, [], ◌∷◌, TextMap, map_get, map_set, map_delete, includes, ◌+◌, ◌-◌, ◌≡◌,
  refl, String, Bool, true, false, Option, none, some, if◌then◌else◌, str_eq, arith,
}
use linkedin_hyper_v.Prelude.Int.{ℤ, pos, negsuc, pos_part}
use linkedin_hyper_v.Redis.{
  Redis, CounterLaws, TtlLaws, SortedSets, SortedSetLaws, DecrLaws, Hashes, HashLaws, TextLaws,
  merged,
}

pub record Server : Type 0 where
  pub answers : Bool
  pub counts : String → ℕ
  pub values : String → Option String
  pub ttls : String → ℤ
  pub sets : String → TextMap ℕ
  pub hashes : String → TextMap String

abbrev update {ℓ} : {A : Type ℓ} → (String → A) → String → A → String → A
update f k a j = if str_eq k j then a else f j

abbrev pub memory : Redis
memory = record {
  Server = Server;
  up = λ s. s.answers;
  incr = λ k s. (s.counts k + 1, record s { counts = update s.counts k (s.counts k + 1) });
  decr = λ k s. record s { counts = update s.counts k (s.counts k - 1) };
  expire = λ k t s. record s { ttls = update s.ttls k (pos t) };
  get_count = λ k s. some (s.counts k);
  get = λ k s. s.values k;
  set_ex =
      λ k v t s. record s { values = update s.values k (some v); ttls = update s.ttls k (pos t) };
  ttl = λ k s. s.ttls k;
  del = λ k s. record s {
    counts = update s.counts k 0;
    values = update s.values k none;
    ttls = update s.ttls k (negsuc 1);
    hashes = update s.hashes k [];
  };
}

abbrev pub memory_counters : CounterLaws memory
memory_counters = record {
  count = λ s k. s.counts k;
  incr_reply = λ k s. refl;
  count-incr = λ k j s. refl;
  count-expire = λ k j t s. refl;
  count-get = λ k s. refl;
  up-incr = λ k s. refl;
  up-expire = λ k t s. refl;
}

pub memory_ttl_del :
    (k j : String) (s : Server)
    → pos_part (memory.ttl j (memory.del k s)) ≡ (if str_eq k j then 0 else pos_part (s.ttls j))
memory_ttl_del k j s = ground arith

pub memory_ttl_expire :
    (k j : String) (t : ℕ) (s : Server)
    → str_eq k j ≡ false
    → memory.ttl j (memory.expire k t s) ≡ s.ttls j
memory_ttl_expire k j t s h = ground arith

-- A server that answers, with no key set.
abbrev pub fresh : Server
fresh = record {
  answers = true;
  counts = λ k. 0;
  values = λ k. none;
  ttls = λ k. negsuc 1;
  sets = λ k. [];
  hashes = λ k. [];
}

abbrev pub memory_ttls : TtlLaws memory
memory_ttls = record {
  ttl-set_ex = λ k j v t s. refl;
  ttl-del = λ k j s. memory_ttl_del k j s;
  ttl-incr = λ k j s h. refl;
  ttl-expire = λ k j t s h. memory_ttl_expire k j t s h;
  up-set_ex = λ k v t s. refl;
  up-del = λ k s. refl;
}

-- Sorted sets, which a range lists in the order of insertion.
abbrev members : TextMap ℕ → ℕ → List String
members [] n = []
members (e ∷ rest) zero = []
members (e ∷ rest) (suc n) = e.0 ∷ members rest n

abbrev pub memory_sets : SortedSets memory
memory_sets = record {
  zadd = λ k n m s. record s { sets = update s.sets k (map_set (s.sets k) m n) };
  zrem = λ k m s. record s { sets = update s.sets k (map_delete (s.sets k) m) };
  zscore = λ k m s. map_get (s.sets k) m;
  zrevrange = λ k n s. members (s.sets k) n;
}

pub members_lem :
    (set : TextMap ℕ) (n : ℕ) (m : String)
    → includes (members set n) m ≡ true
    → map_get set m ≢ none
unfolding map_get
members_lem [] n m h = cc
members_lem (e ∷ rest) zero m h = cc
members_lem (e ∷ rest) (suc n) m h = ground (arith, members_lem rest n m)

abbrev pub memory_set_laws : SortedSetLaws memory memory_sets
memory_set_laws = record {
  ttl-zrem = λ k m j s. refl;
  up-zrem = λ k m s. refl;
  get-set_ex = λ k j v t s. refl;
  get-expire = λ k j t s. refl;
  up-expire = λ k t s. refl;
  zscore-set_ex = λ k v key m t s. refl;
  zscore-expire = λ k key m t s. refl;
  zscore-zrevrange = λ key m n s h. members_lem (s.sets key) n m h;
}

abbrev pub memory_decr : DecrLaws memory memory_counters
memory_decr = record { count-decr = λ k j s. refl; up-decr = λ k s. refl }

abbrev pub memory_hashes : Hashes memory
memory_hashes = record {
  hset = λ k fields s. record s { hashes = update s.hashes k (merged (s.hashes k) fields) };
  hgetall = λ k s. s.hashes k;
}

abbrev pub memory_hash_laws : HashLaws memory memory_hashes
memory_hash_laws = record { hgetall-hset = λ k j fields s. refl; up-hset = λ k fields s. refl }

abbrev pub memory_texts : TextLaws memory
memory_texts = record { get-set_ex = λ k j v t s. refl; up-set_ex = λ k v t s. refl }
