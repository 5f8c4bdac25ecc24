-- ===== src/Queue/Redisstreams/Examples.antt =====
-- A small store that meets the assumptions on Redis, runs on it, and the theorems at it.
use go_dota.Base.{
  ℕ, suc, ◌<◌, ◌≡◌, ◌≢◌, refl, Bool, true, false, Option, none, some, List, [], ◌∷◌, arith, ◌⊎◌,
  inl, ◌==◌, nat_eq, if◌then◌else◌, string_eq,
}
use go_dota.Base.Int.{pos}
use go_dota.Json.{Blob, invalid, json, obj, field, end, num}
use go_dota.Queue.{Task, tasks, backoff, jittered, should_dlq}
use go_dota.Queue.Redisstreams.{
  Config, AsyncRetryConfig, DeadLetter, Message, Redis, as_string, decimal, wrap,
  extract_original_payload, extract_retry_count,
}
use go_dota.Queue.Redisstreams.Store.{RetryEnv, store_of, pop, retry, mature}
use go_dota.Queue.Redisstreams.Delivery.{RedisLaws, Kept, retry-Kept}

record Entry : Type 0 where
  id : ℕ
  payload : Blob
  count : ℕ

-- `next` is the number of the next entry.
record Toy : Type 0 where
  entries : List Entry
  held : List ℕ
  dlq : List DeadLetter
  zset : List Blob
  next : ℕ

abbrev without : ℕ → List Entry → List Entry
without i [] = []
without i (e ∷ es) = let rest = without i es in if e.id == i then rest else e ∷ rest

abbrev without_id : ℕ → List ℕ → List ℕ
without_id i [] = []
without_id i (j ∷ js) = let rest = without_id i js in if j == i then rest else j ∷ rest

abbrev message_of : Entry → Message
message_of e = record {
  id = e.id;
  payload = some (as_string e.payload);
  retry = some (decimal e.count);
}

abbrev first_message : List Entry → List Message
first_message [] = []
first_message (e ∷ es) = message_of e ∷ []

abbrev toy_zadd : Bool → Toy → Blob → Option Toy
toy_zadd true s m = none
toy_zadd false s m = some (record s { zset = m ∷ s.zset })

-- Where it is `refusing`, the sorted set takes nothing.
abbrev toy : Bool → Redis Toy
toy refusing = record {
  xadd = λ s p n. some (record s {
    entries = record { id = s.next; payload = p; count = n } ∷ s.entries;
    next = suc s.next;
  });
  xadd_dlq = λ s d. some (record s { dlq = d ∷ s.dlq });
  xack = λ s i. some (record s { held = without_id i s.held });
  xdel = λ s i. some (record s { entries = without i s.entries });
  xreadgroup = λ s n. some (s, first_message s.entries);
  zadd = λ s n m. toy_zadd refusing s m;
  zrem = λ s m. some (record s { zset = [] });
}

abbrev HasEntry : ℕ → Blob → List Entry → Type 0
HasEntry i p [] = ⊥
HasEntry i p (e ∷ es) = ((e.id ≡ i) × (e.payload ≡ p)) ⊎ HasEntry i p es

abbrev Has : {A : Type 0} → A → List A → Type 0
Has a [] = ⊥
Has a (x ∷ xs) = (x ≡ a) ⊎ Has a xs

without-HasEntry :
    (i j : ℕ) (p : Blob) (es : List Entry) → j ≢ i → HasEntry i p es → HasEntry i p (without j es)
without-HasEntry i j p [] ne h = h
without-HasEntry i j p (e ∷ es) ne h = ground (arith, without-HasEntry i j p es ne)

toy-RedisLaws : RedisLaws (toy false)
toy-RedisLaws = record {
  InStream = λ s i p. HasEntry i p s.entries;
  Dead = λ s d. Has d s.dlq;
  Delayed = λ s m. Has m s.zset;
  Held = λ s i. (i < s.next) × Has i s.held;
  xadd_adds = λ s s' p n e. (s.next, ground arith, λ j h. ground arith);
  dlq_adds = λ s s' d e. ground arith;
  zadd_adds = λ s s' n m e. ground arith;
  xack_stream = λ s s' i j p e ne h. ground arith;
  xdel_stream = λ s s' i j p e ne h. ground (arith, without-HasEntry i j p s.entries ne h);
  xack_dead = λ s s' j d e h. ground arith;
  xdel_dead = λ s s' j d e h. ground arith;
  xack_delayed = λ s s' j m e h. ground arith;
}

abbrev cfg : Config
cfg = record {
  has_dlq_stream = true;
  has_group = true;
  policy = record { max_retries = 3; max_backoff = 0 };
  delete_on_ack = true;
}

abbrev async : AsyncRetryConfig
async = record { has_key = true; max_retries = 0 }

abbrev env : RetryEnv
env = record { rand = 0; now = 100_000_000_000; cancelled = false }

abbrev doc : Blob
doc = json (obj (field "match_id" (num (pos 7)) end))

abbrev marked : Blob
marked = json (obj (field "retry_count" (num (pos 1)) (field "match_id" (num (pos 7)) end)))

abbrev task : Task Blob
task = record { id = 1; payload = doc; retry_count = 0 }

abbrev store : Toy
store = record {
  entries = record { id = 1; payload = doc; count = 0 } ∷ [];
  held = 1 ∷ [];
  dlq = [];
  zset = [];
  next = 2;
}

pop_runs : (pop (toy false) cfg store 5).1 ≡ tasks (task ∷ [])
unfolding pop
pop_runs = refl

-- A retry without the sorted set adds the payload again, and deletes the old entry.
sync_retry_runs :
    store_of (retry (toy false) cfg (record async { has_key = false }) store task "boom" env)
    ≡ record store {
      entries = record { id = 2; payload = doc; count = 1 } ∷ [];
      held = [];
      next = 3;
    }
unfolding retry store_of should_dlq backoff jittered
sync_retry_runs = refl

dead_letter_runs :
    (store_of (retry (toy false) cfg async store (record task { retry_count = 3 }) "boom" env)).dlq
    ≡ record { payload = some doc; retry_count = 4; reason = "boom" } ∷ []
unfolding retry store_of should_dlq
dead_letter_runs = refl

async_retry_runs : (store_of (retry (toy false) cfg async store task "boom" env)).zset ≡ marked ∷ []
unfolding retry store_of should_dlq wrap
async_retry_runs = refl

matured_runs :
    (mature
      (toy false)
      cfg
      (record store { entries = []; zset = marked ∷ [] })
      (marked ∷ [])).entries
    ≡ record { id = 2; payload = marked; count = 1 } ∷ []
unfolding mature extract_original_payload extract_retry_count
matured_runs = refl

retry-Kept_example :
    Kept
      (toy false)
      toy-RedisLaws
      cfg
      task
      (store_of (retry (toy false) cfg async store task "boom" env))
unfolding toy-RedisLaws
retry-Kept_example =
    retry-Kept (toy false) toy-RedisLaws cfg async store task "boom" env refl
      (λ s n m. (record s { zset = m ∷ s.zset }, refl)) (omega arith, inl refl)

abbrev broken_bytes : Blob
broken_bytes = invalid (111 ∷ 255 ∷ []) "o?"
