-- ===== src/Proxy/Redisproxy/Examples.antt =====
-- The pool over a small store.
use go_dota.Base.{
  ℕ, suc, ◌+◌, ◌-◌, ◌≡◌, ◌≢◌, refl, ap, ◌∙◌, Bool, true, ◌&&◌, Option, none, some, [], ◌∷◌, String,
  Map, keys, get, delete, put, get-put, get-delete, take, length, leb, nat_beq, nat_eq, string_eq,
  ◌==◌, All, if◌then◌else◌, arith, beq_refl, Bool-cases, inl, inr, eq_iff,
}
use go_dota.Base.Int.{ℤ, pos, negsuc}
use go_dota.Proxy.Redisproxy.{
  Key, set, leased, limiter, cooldown, lease, stats, cooldown_entry, Redis, Config, acquire_script,
  unleased, pick_from, lease_out, nth,
}
use go_dota.Proxy.Redisproxy.Laws.{ZsetLaws, in_range, unless_in_range, is_some}
use go_dota.Proxy.Redisproxy.Leasing.{begins, acquires, IsOut, leased_alone}
use go_dota.Proxy.Redisproxy.Limit.{CounterLaws}

abbrev code : Key → ℕ × String
code set = (0, "")
code leased = (1, "")
code limiter = (2, "")
code cooldown = (3, "")
code (lease token) = (4, token)
code (stats url) = (5, url)
code (cooldown_entry url) = (6, url)

abbrev same_key : Key → Key → Bool
same_key k j = nat_beq (code k).0 (code j).0 && (code k).1 == (code j).1

same_key_refl : (k : Key) → same_key k k ≡ true
same_key_refl k = ground (arith, eq_iff (code k).1 (code k).1)

-- Sorted sets, strings, and the counter of the limiter.
record Store : Type 0 where
  sets : Key → Map String ℤ
  strings : Key → Option String
  count : ℕ

add_int : ℤ → ℤ → ℤ
add_int (pos a) (pos b) = pos (a + b)
add_int (pos a) (negsuc b) = if leb (suc b) a then pos (a - suc b) else negsuc (b - a)
add_int (negsuc a) (pos b) = if leb (suc a) b then pos (b - suc a) else negsuc (a - b)
add_int (negsuc a) (negsuc b) = negsuc (suc (a + b))

or_zero : Option ℤ → ℤ
or_zero none = pos 0
or_zero (some n) = n

prune : ℕ → Map String ℤ → Map String ℤ
unfolding delete
prune max [] = []
prune max ((j, e) ∷ m) =
    let rest = prune max m in if in_range max e then delete rest j else (j, e) ∷ rest

abbrev at_key : Store → Key → (Map String ℤ → Map String ℤ) → Store
at_key s k f = record s { sets = λ j. if same_key k j then f (s.sets j) else s.sets j }

abbrev small : Redis Store
small = record {
  zremrangebyscore = λ s k max. at_key s k (prune max);
  zrevrange = λ s k n. take n (keys (s.sets k));
  zrange = λ s k. keys (s.sets k);
  zrangebyscore = λ s k max n. take n (keys (s.sets k));
  zscore = λ s k u. get (s.sets k) u;
  zadd = λ s k e u. at_key s k (λ m. put m u e);
  zadd_nx = λ s k e u. at_key s k (λ m. elim (get m u) [ none ↦ put m u e | some x ↦ m ]);
  zincrby = λ s k d u. at_key s k (λ m. put m u (add_int (or_zero (get m u)) d));
  zrem = λ s k u. at_key s k (λ m. delete m u);
  zcard = λ s k. length (s.sets k);
  set_ex = λ s k v ttl. record s { strings = λ j. if same_key k j then some v else s.strings j };
  get = λ s k. s.strings k;
  del = λ s k. record s { strings = λ j. if same_key k j then none else s.strings j };
  exists = λ s k. true;
  incr = λ s k. (record s { count = suc s.count }, suc s.count);
  pexpire = λ s k ms. s;
  hincrby = λ s k f. (s, 1);
  hset = λ s k f v. s;
}

there :
    (s : Store) (k : Key) (f : Map String ℤ → Map String ℤ) → (at_key s k f).sets k ≡ f (s.sets k)
there s k f = rw (same_key_refl k) refl

get-prune :
    (max : ℕ) (m : Map String ℤ) (u : String) → get (prune max m) u ≡ unless_in_range max (get m u)
unfolding prune get
get-prune max [] u = refl
get-prune max ((j, e) ∷ m) u = elim (Bool-cases (in_range max e)) [
  | inl out ↦ rw out (ground (arith, get-prune max m u, get-delete (prune max m) j u))
  | inr kept ↦ ground (arith, get-prune max m u)
]

small-ZsetLaws : ZsetLaws small
small-ZsetLaws = record {
  zscore-zremrangebyscore =
      λ s k max u. ap (λ m. get m u) (there s k (prune max)) ∙ get-prune max (s.sets k) u;
  zscore-zadd =
      λ s k e u v. ap (λ m. get m v) (there s k (λ m. put m u e)) ∙ get-put (s.sets k) u e v;
  zscore-zrem =
      λ s k u v. ap (λ m. get m v) (there s k (λ m. delete m u)) ∙ get-delete (s.sets k) u v;
  is_some-zincrby = λ s k d u.
      ap (λ m. is_some (get m u)) (there s k (λ m. put m u (add_int (or_zero (get m u)) d)))
      ∙ ground (arith, get-put (s.sets k) u (add_int (or_zero (get (s.sets k) u)) d) u, beq_refl u);
  zscore-set_ex = λ s k j v ttl u ne. refl;
  zscore-del = λ s k j u ne. refl;
}

two_sets : Key → Map String ℤ
two_sets set = ("a", pos 100) ∷ ("b", pos 100) ∷ []
two_sets leased = []
two_sets limiter = []
two_sets cooldown = []
two_sets (lease token) = []
two_sets (stats url) = []
two_sets (cooldown_entry url) = []

abbrev two : Store
two = record { sets = two_sets; strings = λ k. none; count = 0 }

abbrev first : Store
first = (acquire_script small two 1000 30 "t1" 0).0

first-IsOut : IsOut small small-ZsetLaws "a" 1030 first
unfolding acquire_script unleased pick_from lease_out nth get put delete prune two_sets
first-IsOut = refl

abbrev second_call : Store × Option String
second_call = acquire_script small first 1020 30 "t2" 0

-- A second call is granted the other proxy.
leased_alone_example :
    IsOut small small-ZsetLaws "a" 1030 second_call.0
    × All (λ pick. pick ≢ some "a") (second_call.1 ∷ [])
leased_alone_example =
    leased_alone small small-ZsetLaws
      (acquires (begins first) 1020 30 "t2" 0 (omega arith) (omega arith)) first-IsOut

small-CounterLaws : CounterLaws small Store.count
small-CounterLaws = record {
  counter-incr = λ s. refl;
  incr-counter = λ s. refl;
  counter-pexpire = λ s ms. refl;
}

abbrev cfg : Config
cfg = record {
  rate_limit = record { rate_per_sec = pos 0; burst = pos 0; window = pos 0 };
  ranking = record { failure_penalty = pos 5; success_boost = pos 1; initial_weight = pos 100 };
  max_failures = 3;
}
