-- ===== src/Queue/Inmem/Retries.antt =====
-- The limit on retries (internal/queue/inmem/queue.go, internal/queue/queue.go).
use go_dota.Base.{
  ℕ, suc, ◌+◌, ◌-◌, ◌≤◌, ◌<◌, ◌≡◌, refl, some, List, [], ◌∷◌, Map, values, get, delete, put, take,
  arith, nat_eq, All, All-append, All-take, All-drop, if_ind,
}
use go_dota.Queue.{Task, RetryPolicy, should_dlq}
use go_dota.Queue.Inmem.{Queue, new, push, lend, take_batch, ack, retry}
use go_dota.Queue.Inmem.Conservation.{Step, pushed, taken, acked, retried, Reach, here, next}

module _ {P : Type 0} where
  abbrev pub IsLive : RetryPolicy → Task P → Type 0
  IsLive p t = 0 < p.max_retries → t.retry_count ≤ p.max_retries

  abbrev pub IsDead : RetryPolicy → Task P → Type 0
  IsDead p t = (0 < p.max_retries) × (p.max_retries < t.retry_count)

-- Within the limit are the tasks that wait or are in flight, and past it are the dead ones.
pub record IsLimited {P : Type 0} (p : RetryPolicy) (q : Queue P) : Type 0 where
  pub same_policy : q.policy ≡ p
  pub waiting_live : All (IsLive p) q.pending
  pub lent_live : All (IsLive p) (values q.in_flight)
  pub dead : All (IsDead p) q.dlq

module _ {P : Type 0} (F : Task P → Type 0) where
  All-delete : (m : Map ℕ (Task P)) (k : ℕ) → All F (values m) → All F (values (delete m k))
  unfolding delete
  All-delete [] k h = tt
  All-delete ((j, t) ∷ m) k h = ground (arith, All-delete m k h.1)

  All-lend :
      (m : Map ℕ (Task P)) (ts : List (Task P))
      → All F (values m)
      → All F ts
      → All F (values (lend m ts))
  unfolding lend put
  All-lend m [] h k = h
  All-lend m (t ∷ ts) h k = All-lend (put m t.id t) ts (k.0, All-delete m t.id h) k.1

module _ {P : Type 0} (p : RetryPolicy) where
  Step-IsLimited :
      {q r : Queue P} {ins outs : List P} → Step q ins outs r → IsLimited p q → IsLimited p r
  unfolding push take_batch ack retry
  Step-IsLimited {q} (pushed x) h = record {
    same_policy = h.same_policy;
    waiting_live = All-append (IsLive p) q.pending _ h.waiting_live (omega arith, tt);
    lent_live = h.lent_live;
    dead = h.dead;
  }
  Step-IsLimited {q} (taken n) h = record {
    same_policy = h.same_policy;
    waiting_live = All-drop (IsLive p) n q.pending h.waiting_live;
    lent_live =
        All-lend (IsLive p) q.in_flight (take n q.pending) h.lent_live
          (All-take (IsLive p) n q.pending h.waiting_live);
    dead = h.dead;
  }
  Step-IsLimited {q} (acked t e) h = record {
    same_policy = h.same_policy;
    waiting_live = h.waiting_live;
    lent_live = All-delete (IsLive p) q.in_flight t.id h.lent_live;
    dead = h.dead;
  }
  Step-IsLimited {q} (retried t s e x) h =
      if_ind (IsLimited p) (should_dlq q.policy (t.retry_count + 1)) _ _
        (λ c. record {
          same_policy = h.same_policy;
          waiting_live = h.waiting_live;
          lent_live = All-delete (IsLive p) q.in_flight t.id h.lent_live;
          dead = All-append (IsDead p) q.dlq _ h.dead (ground (arith, h.same_policy), tt);
        })
        (λ c. record {
          same_policy = h.same_policy;
          waiting_live =
              All-append (IsLive p) q.pending _ h.waiting_live (ground (arith, h.same_policy), tt);
          lent_live = All-delete (IsLive p) q.in_flight t.id h.lent_live;
          dead = h.dead;
        })

  -- After any history from an empty queue, the counts of the tasks that wait or are in flight are
  -- within the policy, and those of the dead ones are past it.
  pub Reach-IsLimited : {q : Queue P} {ins outs : List P} → Reach (new p) ins outs q → IsLimited p q
  unfolding new
  Reach-IsLimited here = record { same_policy = refl; waiting_live = tt; lent_live = tt; dead = tt }
  Reach-IsLimited (next before st) = Step-IsLimited st (Reach-IsLimited before)

  -- A history from an empty queue, with how many tasks were pushed and how many retried. A task is
  -- retried as it was lent, or with a higher count.
  pub data Tries : Queue P → ℕ → ℕ → Type 0 where
    starts : Tries (new p) 0 0
    pushes : {q : Queue P} {n r : ℕ} (x : P) → Tries q n r → Tries (push q x) (suc n) r
    takes : {q : Queue P} {n r : ℕ} (batch : ℕ) → Tries q n r → Tries (take_batch q batch) n r
    acks :
        {q : Queue P} {n r : ℕ} (t : Task P)
        → get q.in_flight t.id ≡ some t
        → Tries q n r
        → Tries (ack q t.id) n r
    retries :
        {q : Queue P} {n r : ℕ} (t s : Task P)
        → get q.in_flight t.id ≡ some s
        → s.payload ≡ t.payload
        → s.retry_count ≤ t.retry_count
        → Tries q n r
        → Tries (retry q t) n (suc r)

  -- How often a task may still be retried.
  abbrev left : Task P → ℕ
  left t = p.max_retries + 1 - t.retry_count
