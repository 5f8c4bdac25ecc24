-- ===== src/Queue/Redisstreams/Delivery.antt =====
-- No retry of internal/queue/redisstreams/queue.go loses its task, as long as Redis carries out
-- what it does not refuse; and the pipeline of the asynchronous retry that can lose one.
use go_dota.Base.{
  ℕ, ◌+◌, ◌≡◌, ◌≢◌, refl, sym, ◌/◌, ◌∙◌, true, Option, none, some, arith, String, inl, inr, ◌⊎◌,
  ◌&&◌, ltb, nat_eq, ◌==◌, if_ind,
}
use go_dota.Json.{Blob}
use go_dota.Queue.{Task, should_dlq, second}
use go_dota.Queue.Redisstreams.{
  Config, AsyncRetryConfig, DeadLetter, Redis, Returned, Wrapped, wrapped, panics, wrap,
}
use go_dota.Queue.Redisstreams.Store.{
  RetryEnv, Outcome, store_of, done, or_keep, acked, ack, ack_unless_empty, after_dead_letter,
  route_dlq, letter_of, after_requeue, requeue, retry_sleeping, pipe_schedule, schedule_wrapped,
  retry, delay,
}

-- What the code relies on: a command that succeeds adds what it is given, under an ID that no
-- entry had, and leaves the other entries alone.
pub record RedisLaws {S : Type 0} (redis : Redis S) : Type 1 where
  pub InStream : S → ℕ → Blob → Type 0
  pub Dead : S → DeadLetter → Type 0
  pub Delayed : S → Blob → Type 0
  pub Held : S → ℕ → Type 0
  pub xadd_adds :
      (s s' : S) (p : Blob) (n : ℕ)
      → redis.xadd s p n ≡ some s'
      → (i : ℕ) × InStream s' i p × ((j : ℕ) → Held s j → j ≢ i)
  pub dlq_adds : (s s' : S) (d : DeadLetter) → redis.xadd_dlq s d ≡ some s' → Dead s' d
  pub zadd_adds : (s s' : S) (n : ℕ) (m : Blob) → redis.zadd s n m ≡ some s' → Delayed s' m
  pub xack_stream :
      (s s' : S) (i j : ℕ) (p : Blob)
      → redis.xack s j ≡ some s'
      → j ≢ i
      → InStream s i p
      → InStream s' i p
  pub xdel_stream :
      (s s' : S) (i j : ℕ) (p : Blob)
      → redis.xdel s j ≡ some s'
      → j ≢ i
      → InStream s i p
      → InStream s' i p
  pub xack_dead :
      (s s' : S) (j : ℕ) (d : DeadLetter) → redis.xack s j ≡ some s' → Dead s d → Dead s' d
  pub xdel_dead :
      (s s' : S) (j : ℕ) (d : DeadLetter) → redis.xdel s j ≡ some s' → Dead s d → Dead s' d
  pub xack_delayed :
      (s s' : S) (j : ℕ) (m : Blob) → redis.xack s j ≡ some s' → Delayed s m → Delayed s' m

module _ {S : Type 0} (redis : Redis S) (laws : RedisLaws redis) (cfg : Config) where
  open laws use {InStream, Dead, Delayed, Held}

  -- Where the task of a retry is afterwards.
  pub data Kept (t : Task Blob) (s : S) : Type 0 where
    queued : (i : ℕ) → InStream s i t.payload → Kept t s
    dead :
        (n : ℕ) (reason : String)
        → Dead s (record { payload = some t.payload; retry_count = n; reason = reason })
        → Kept t s
    delayed : (n : ℕ) (m : Blob) → wrap t.payload n ≡ wrapped m → Delayed s m → Kept t s
    held : Held s t.id → Kept t s

  module _ (P : S → Type 0) (j : ℕ)
      (xack_keeps : (s s' : S) → redis.xack s j ≡ some s' → P s → P s')
      (xdel_keeps : (s s' : S) → redis.xdel s j ≡ some s' → P s → P s') where
    deleted-keeps : (s : S) (o : Option S) → redis.xdel s j ≡ o → P s → P (or_keep redis cfg s o)
    unfolding or_keep
    deleted-keeps s none e h = h
    deleted-keeps s (some s') e h = xdel_keeps s s' e h

    acked-keeps : (s : S) (o : Option S) → redis.xack s j ≡ o → P s → P (acked redis cfg s j o).0
    unfolding acked
    acked-keeps s none e h = h
    acked-keeps s (some s') e h =
        if_ind (λ (r : Returned S). P r.0) cfg.delete_on_ack _ _
          (λ _. deleted-keeps s' (redis.xdel s' j) refl (xack_keeps s s' e h))
          (λ _. xack_keeps s s' e h)

    ack-keeps : (s : S) → P s → P (ack redis cfg s j).0
    unfolding ack
    ack-keeps s h = acked-keeps s (redis.xack s j) refl h

    ack_unless_empty-keeps : (s : S) → P s → P (ack_unless_empty redis cfg s j).0
    unfolding ack_unless_empty
    ack_unless_empty-keeps s h =
        if_ind (λ (r : Returned S). P r.0) (j == 0) _ _ (λ _. h) (λ _. ack-keeps s h)

  ack-stream :
      (s : S) (i j : ℕ) (p : Blob) → j ≢ i → InStream s i p → InStream (ack redis cfg s j).0 i p
  ack-stream s i j p ne =
      ack-keeps (λ s. InStream s i p) j (λ s s' e h. laws.xack_stream s s' i j p e ne h)
        (λ s s' e h. laws.xdel_stream s s' i j p e ne h) s

  dead-after :
      (s : S) (j : ℕ) (d : DeadLetter) (o : Option S)
      → redis.xadd_dlq s d ≡ o
      → ((o ≡ none) × ((after_dead_letter redis cfg s j o).0 ≡ s))
        ⊎ Dead (after_dead_letter redis cfg s j o).0 d
  unfolding after_dead_letter
  dead-after s j d none e = inl (refl, refl)
  dead-after s j d (some s') e = inr (
      ack_unless_empty-keeps (λ s. Dead s d) j (λ s s' e h. laws.xack_dead s s' j d e h)
        (λ s s' e h. laws.xdel_dead s s' j d e h) s' (laws.dlq_adds s s' d e))

  route_dlq-Kept :
      (s : S) (t u : Task Blob) (reason : String)
      → cfg.has_dlq_stream ≡ true
      → u.payload ≡ t.payload
      → Held s t.id
      → Kept t (route_dlq redis cfg s t.id (letter_of redis cfg u reason)).0
  unfolding route_dlq letter_of
  route_dlq-Kept s t u reason c p h =
      let d = letter_of redis cfg u reason in
      rw c (elim (dead-after s t.id d (redis.xadd_dlq s d) refl) [
        | inl (e, same) ↦ held (rw same h)
        | inr gone ↦ dead u.retry_count reason (rw (← p) gone)
      ])

  requeue-Kept :
      (s : S) (t u : Task Blob)
      → u.payload ≡ t.payload
      → u.id ≡ t.id
      → Held s t.id
      → Kept t (requeue redis cfg s u).0
  unfolding requeue after_requeue
  requeue-Kept s t u p k h = requeued (redis.xadd s u.payload u.retry_count) refl
    where
      requeued :
          (o : Option S)
          → redis.xadd s u.payload u.retry_count ≡ o
          → Kept t (after_requeue redis cfg s u.id o).0
      requeued none e = held h
      requeued (some s') e =
          let (i, there, fresh) = laws.xadd_adds s s' u.payload u.retry_count e in
          queued i (rw (← p) (ack-stream s' i u.id u.payload (λ q. fresh t.id h (sym k ∙ q)) there))

  retry_sleeping-Kept :
      (s : S) (t u : Task Blob) (env : RetryEnv)
      → u.payload ≡ t.payload
      → u.id ≡ t.id
      → Held s t.id
      → Kept t (retry_sleeping redis cfg s u env).0
  unfolding retry_sleeping
  retry_sleeping-Kept s t u env p k h =
      if_ind (λ (r : Returned S). Kept t r.0) (ltb 0 _ && env.cancelled) _ _ (λ _. held h)
        (λ _. requeue-Kept s t u p k h)

  kept-Delayed :
      (s : S) (j : ℕ) (m : Blob) (o : Option S)
      → redis.xack s j ≡ o
      → Delayed s m
      → Delayed (or_keep redis cfg s o) m
  unfolding or_keep
  kept-Delayed s j m none e h = h
  kept-Delayed s j m (some s') e h = laws.xack_delayed s s' j m e h

  -- The pipeline keeps the task, if the sorted set takes the member.
  pipe_schedule-Delayed :
      (s s' : S) (n : ℕ) (m : Blob) (id : ℕ)
      → redis.zadd s n m ≡ some s'
      → Delayed (pipe_schedule redis cfg s n m id).0 m
  unfolding pipe_schedule
  pipe_schedule-Delayed s s' n m id e =
      let there = laws.zadd_adds s s' n m e in
      rw e (
        if_ind (λ (r : Returned S). Delayed r.0 m) (id == 0) _ _ (λ _. there)
          (λ _. kept-Delayed s' id m (redis.xack s' id) refl there))

  schedule_wrapped-Kept :
      (s : S) (t u : Task Blob) (env : RetryEnv) (x : Wrapped)
      → ((s : S) (n : ℕ) (m : Blob) → (s' : S) × (redis.zadd s n m ≡ some s'))
      → wrap t.payload u.retry_count ≡ x
      → Held s t.id
      → Kept t (store_of (schedule_wrapped redis cfg s u env x))
  unfolding schedule_wrapped store_of
  schedule_wrapped-Kept s t u env panics accepts e h = held h
  schedule_wrapped-Kept s t u env (wrapped m) accepts e h =
      let n = (env.now + delay redis cfg u env) / second in
      let (s', ok) = accepts s n m in
      delayed u.retry_count m e (pipe_schedule-Delayed s s' n m u.id ok)

  -- A retry keeps a task that the group holds, whichever other commands Redis refuses and whether
  -- or not the context ends meanwhile: the task is in the stream again, in the dead letters, in the
  -- sorted set, or still held by the group. It is so where there is a stream for the dead letters,
  -- and where the sorted set refuses nothing.
  pub retry-Kept :
      (async : AsyncRetryConfig) (s : S) (t : Task Blob) (reason : String) (env : RetryEnv)
      → cfg.has_dlq_stream ≡ true
      → ((s : S) (n : ℕ) (m : Blob) → (s' : S) × (redis.zadd s n m ≡ some s'))
      → Held s t.id
      → Kept t (store_of (retry redis cfg async s t reason env))
  unfolding retry store_of
  retry-Kept async s t reason env c accepts h =
      let t' = record t { retry_count = t.retry_count + 1 } in
      if_ind K (should_dlq cfg.policy t'.retry_count) _ _
        (λ _. route_dlq-Kept s t t' reason c refl h)
        (λ _.
          if_ind K async.has_key _ _
            (λ _.
              if_ind K (ltb 0 async.max_retries && ltb async.max_retries t'.retry_count) _ _
                (λ _. route_dlq-Kept s t t' "max retries exceeded" c refl h)
                (λ _.
                  schedule_wrapped-Kept s t t' env (wrap t.payload t'.retry_count) accepts refl h))
            (λ _. retry_sleeping-Kept s t t' env refl refl h))
    where
      K : Outcome S → Type 0
      K o = Kept t (store_of o)

-- The pipeline of the asynchronous retry is no transaction: where the sorted set refuses the
-- member, the task has an ID, and its acknowledgement goes through, an error comes back and the
-- store is the one that the acknowledgement alone leaves: the task is nowhere.
pub schedule_loses :
    {S : Type 0} (redis : Redis S) (cfg : Config) (s s' : S) (t : Task Blob) (env : RetryEnv)
    (m : Blob)
    → t.id ≢ 0
    → ((n : ℕ) → redis.zadd s n m ≡ none)
    → redis.xack s t.id ≡ some s'
    → schedule_wrapped redis cfg s t env (wrapped m) ≡ done s' (some "schedule async retry")
unfolding schedule_wrapped
schedule_loses redis cfg s s' t env m ne refused ok = rw (refused, ok) (ground arith)
