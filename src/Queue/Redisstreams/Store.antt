-- ===== src/Queue/Redisstreams/Store.antt =====
-- The operations of internal/queue/redisstreams/queue.go on the store.
use go_dota.Base.{
  ℕ, ◌+◌, ◌/◌, Bool, ◌&&◌, Option, none, some, List, [], ◌∷◌, ◌++◌, ltb, nat_eq, ◌==◌,
  if◌then◌else◌, String,
}
use go_dota.Json.{Blob}
use go_dota.Queue
use go_dota.Queue.{Task, Popped, should_dlq, backoff, second}
use go_dota.Queue.Redisstreams.{
  Config, AsyncRetryConfig, DeadLetter, Message, Redis, Returned, Decoding, decoded, undecodable,
  decode_message, Wrapped, wrapped, panics, wrap, extract_retry_count, extract_original_payload,
}

-- What Retry meets: the random number and the clock of the backoff, and whether the context ends
-- while it sleeps.
pub record RetryEnv : Type 0 where
  pub rand : ℕ
  pub now : ℕ
  pub cancelled : Bool

-- `crashed` is a panic, which nothing on this path recovers.
pub data Outcome (S : Type 0) : Type 0 where
  done : S → Option String → Outcome S
  crashed : S → Outcome S

-- The store that a retry leaves, also where it panics.
unfoldable pub store_of : {S : Type 0} → Outcome S → S
store_of (done s e) = s
store_of (crashed s) = s

module _ {S : Type 0} (redis : Redis S) (cfg : Config) where
  unfoldable pub or_keep : S → Option S → S
  or_keep s none = s
  or_keep s (some s') = s'

  unfoldable pub acked : S → ℕ → Option S → Returned S
  unfolding or_keep
  acked s id none = (s, some "xack")
  acked s id (some s') =
      if cfg.delete_on_ack then (or_keep s' (redis.xdel s' id), none) else (s', none)

  unfoldable pub ack : S → ℕ → Returned S
  unfolding acked
  ack s id = acked s id (redis.xack s id)

  unfoldable pub ack_unless_empty : S → ℕ → Returned S
  unfolding ack
  ack_unless_empty s id = if id == 0 then (s, none) else ack s id

  unfoldable pub after_dead_letter : S → ℕ → Option S → Returned S
  unfolding ack_unless_empty
  after_dead_letter s id none = (s, some "xadd dlq")
  after_dead_letter s id (some s') = ack_unless_empty s' id

  unfoldable pub route_dlq : S → ℕ → DeadLetter → Returned S
  unfolding after_dead_letter
  route_dlq s id letter =
      if cfg.has_dlq_stream
      then after_dead_letter s id (redis.xadd_dlq s letter)
      else ack_unless_empty s id

  unfoldable pub after_requeue : S → ℕ → Option S → Returned S
  unfolding ack
  after_requeue s id none = (s, some "xadd requeue")
  after_requeue s id (some s') = ack s' id

  unfoldable pub requeue : S → Task Blob → Returned S
  unfolding after_requeue
  requeue s t = after_requeue s t.id (redis.xadd s t.payload t.retry_count)

  unfoldable pub error_of : Option S → Option String
  error_of none = some "schedule async retry"
  error_of (some s') = none

  unfoldable pub first_error : Option String → Option String → Option String
  first_error none e = e
  first_error (some e) _ = some e

  -- A pipeline sends its commands together: each is carried out, whatever became of the others,
  -- and the first error comes back.
  unfoldable pub pipe_schedule : S → ℕ → Blob → ℕ → Returned S
  unfolding or_keep error_of first_error
  pipe_schedule s score member id =
      let added = redis.zadd s score member in
      let s' = or_keep s added in
      if id == 0
      then (s', error_of added)
      else let out = redis.xack s' id in
        (or_keep s' out, first_error (error_of added) (error_of out))

  -- The delay of an asynchronous retry: one second, where the backoff is nothing.
  unfoldable pub delay : Task Blob → RetryEnv → ℕ
  delay t env = let d = backoff cfg.policy t.retry_count env.rand in if d == 0 then second else d

  unfoldable pub letter_of : Task Blob → String → DeadLetter
  letter_of t reason = record {
    payload = some t.payload;
    retry_count = t.retry_count;
    reason = reason;
  }

  unfoldable pub returned_of : Returned S → Outcome S
  returned_of r = done r.0 r.1

  unfoldable pub schedule_wrapped : S → Task Blob → RetryEnv → Wrapped → Outcome S
  unfolding pipe_schedule returned_of delay
  schedule_wrapped s t env (wrapped member) =
      returned_of (pipe_schedule s ((env.now + delay t env) / second) member t.id)
  schedule_wrapped s t env panics = crashed s

  unfoldable pub schedule_async_retry : AsyncRetryConfig → S → Task Blob → RetryEnv → Outcome S
  unfolding schedule_wrapped route_dlq letter_of
  schedule_async_retry async s t env =
      if ltb 0 async.max_retries && ltb async.max_retries t.retry_count
      then returned_of (route_dlq s t.id (letter_of t "max retries exceeded"))
      else schedule_wrapped s t env (wrap t.payload t.retry_count)

  unfoldable pub retry_sleeping : S → Task Blob → RetryEnv → Returned S
  unfolding requeue
  retry_sleeping s t env =
      if ltb 0 (backoff cfg.policy t.retry_count env.rand) && env.cancelled
      then (s, some "context")
      else requeue s t

  unfoldable pub retry : AsyncRetryConfig → S → Task Blob → String → RetryEnv → Outcome S
  unfolding schedule_async_retry retry_sleeping
  retry async s t reason env =
      let t' = record t { retry_count = t.retry_count + 1 } in
      if should_dlq cfg.policy t'.retry_count
      then returned_of (route_dlq s t'.id (letter_of t' reason))
      else if async.has_key
      then schedule_async_retry async s t' env
      else returned_of (retry_sleeping s t' env)

  unfoldable pub receive_one : S → Message → Decoding → S × List (Task Blob)
  unfolding route_dlq
  receive_one s m (decoded t) = (s, t ∷ [])
  receive_one s m (undecodable reason) =
      ((route_dlq s m.id (record { payload = none; retry_count = 0; reason = reason })).0, [])

  -- The messages that were read: one that cannot be decoded goes to the dead letters.
  unfoldable pub receive : S → List Message → S × List (Task Blob)
  unfolding receive_one decode_message
  receive s [] = (s, [])
  receive s (m ∷ ms) =
      let (s', ts) = receive_one s m (decode_message m) in
      let (s'', us) = receive s' ms in (s'', ts ++ us)

  unfoldable pub popped_of : S × List (Task Blob) → S × Popped Blob
  popped_of (s, []) = (s, Queue.empty)
  popped_of (s, t ∷ ts) = (s, Queue.tasks (t ∷ ts))

  unfoldable pub read : S → Option (S × List Message) → S × Popped Blob
  unfolding popped_of receive
  read s none = (s, Queue.failed "xreadgroup")
  read s (some (s', msgs)) = popped_of (receive s' msgs)

  unfoldable pub pop : S → ℕ → S × Popped Blob
  unfolding read
  pop s batch =
      if cfg.has_group
      then read s (redis.xreadgroup s (if batch == 0 then 1 else batch))
      else (s, Queue.failed "Consumer and Group required for Pop")

  -- RecoverStale, given what XAUTOCLAIM answered: the messages, or an error.
  unfoldable pub recover_stale : S → Option (List Message) → S × Option (List (Task Blob))
  unfolding receive
  recover_stale s none = (s, none)
  recover_stale s (some msgs) =
      if cfg.has_group then (let (s', ts) = receive s msgs in (s', some ts)) else (s, none)

  -- matureAsyncRetries, given the members whose time has come: both commands of a member are
  -- carried out, whatever becomes of the other.
  unfoldable pub mature : S → List Blob → S
  unfolding or_keep
  mature s [] = s
  mature s (m ∷ ms) =
      let s' = or_keep s (redis.xadd s (extract_original_payload m) (extract_retry_count m)) in
      mature (or_keep s' (redis.zrem s' m)) ms
