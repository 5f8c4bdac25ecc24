-- ===== src/Queue/Inmem/Conservation.antt =====
-- The in-memory queue (internal/queue/inmem/queue.go) neither loses nor copies a task. Tasks are
-- counted by weights: two collections are the same up to order if every weight of the payloads
-- gives them one total.
use go_dota.Base.{
  ℕ, zero, suc, ◌+◌, ◌<◌, ◌≡◌, refl, ap, some, List, [], ◌∷◌, ◌++◌, Map, values, get, delete, put,
  take, drop, arith, HasUniqueKeys, nat_eq, IsFresh, delete_fresh, nat_beq_iff,
}
use go_dota.Queue.{Task, RetryPolicy}
use go_dota.Queue.Inmem.{Queue, new, push, lend, take_batch, ack, retry}
use go_dota.Queue.Inmem.Identity.{
  Ascending, Lent, Lent-delete, IsWellFormed, new-IsWellFormed, push-IsWellFormed,
  take_batch-IsWellFormed, ack-IsWellFormed, Lent-mono, retry-IsWellFormed,
}

module _ {P : Type 0} where
  abbrev pub total : (P → ℕ) → List P → ℕ
  total w [] = 0
  total w (p ∷ ps) = w p + total w ps

  abbrev pub weigh : (Task P → ℕ) → List (Task P) → ℕ
  weigh w [] = 0
  weigh w (t ∷ ts) = w t + weigh w ts

  abbrev pub weigh_all : (Task P → ℕ) → Queue P → ℕ
  weigh_all w q = weigh w q.pending + weigh w (values q.in_flight) + weigh w q.dlq

  -- The weight of all that the queue holds: pending, in flight or dead.
  unfoldable pub weight : (P → ℕ) → Queue P → ℕ
  weight w q = weigh_all (λ t. w t.payload) q

  pub weigh-append :
      (w : Task P → ℕ) (xs ys : List (Task P)) → weigh w (xs ++ ys) ≡ weigh w xs + weigh w ys
  weigh-append w [] ys = omega arith
  weigh-append w (x ∷ xs) ys = omega (arith, weigh-append w xs ys)

  pub weigh-delete :
      (w : Task P → ℕ) (m : Map ℕ (Task P)) (k : ℕ) (t : Task P)
      → HasUniqueKeys m
      → get m k ≡ some t
      → weigh w (values m) ≡ w t + weigh w (values (delete m k))
  unfolding get delete
  weigh-delete w [] k t u h = ground arith
  weigh-delete w ((j, s) ∷ m) k t u h =
      ground (arith, nat_beq_iff j k, delete_fresh m k, weigh-delete w m k t u.1)

  IsFresh-above : (lo k : ℕ) (m : Map ℕ (Task P)) → Lent lo m → lo < k → IsFresh m k
  unfolding get
  IsFresh-above lo k [] l h = refl
  IsFresh-above lo k ((j, t) ∷ m) l h = ground (arith, IsFresh-above lo k m l.2 h)

  pub weigh-lend :
      (w : Task P → ℕ) (n lo hi : ℕ) (ts : List (Task P)) (m : Map ℕ (Task P))
      → Ascending lo ts hi
      → Lent lo m
      → weigh w (drop n ts) + weigh w (values (lend m (take n ts)))
        ≡ weigh w ts + weigh w (values m)
  unfolding lend put
  weigh-lend w zero lo hi ts m a l = refl
  weigh-lend w (suc n) lo hi [] m a l = refl
  weigh-lend w (suc n) lo hi (t ∷ ts) m a l =
      let l' : Lent t.id (put m t.id t) =
        (omega arith, refl, Lent-delete t.id t.id m (Lent-mono lo t.id m (omega arith) l)) in
      omega (
        arith,
        weigh-lend w n t.id hi ts (put m t.id t) a.1 l',
        ap (λ (r : Map ℕ (Task P)). weigh w (values r))
            (delete_fresh m t.id (IsFresh-above lo t.id m l a.0)),
      )

-- What a client may do with a task that it was handed. The second and third argument hold the
-- payloads that the step brings in and takes out.
pub data Step {P : Type 0} (q : Queue P) : List P → List P → Queue P → Type 0 where
  pushed : (p : P) → Step q (p ∷ []) [] (push q p)
  taken : (n : ℕ) → Step q [] [] (take_batch q n)
  acked : (t : Task P) → get q.in_flight t.id ≡ some t → Step q [] (t.payload ∷ []) (ack q t.id)
  retried :
      (t s : Task P)
      → get q.in_flight t.id ≡ some s
      → s.payload ≡ t.payload
      → Step q [] [] (retry q t)

pub data Reach {P : Type 0} (q : Queue P) : List P → List P → Queue P → Type 0 where
  here : Reach q [] [] q
  next :
      {ins outs ins' outs' : List P} {r s : Queue P}
      → Reach q ins outs r
      → Step r ins' outs' s
      → Reach q (ins' ++ ins) (outs' ++ outs) s

module _ {P : Type 0} where
  pub Step-IsWellFormed :
      {q r : Queue P} {ins outs : List P} → Step q ins outs r → IsWellFormed q → IsWellFormed r
  Step-IsWellFormed {q} (pushed p) h = push-IsWellFormed q p h
  Step-IsWellFormed {q} (taken n) h = take_batch-IsWellFormed q n h
  Step-IsWellFormed {q} (acked t e) h = ack-IsWellFormed q t.id h
  Step-IsWellFormed {q} (retried t s e p) h = retry-IsWellFormed q t h

  -- One step changes the weight by what it brings in and takes out.
  pub Step-weight :
      {q r : Queue P} {ins outs : List P} (w : P → ℕ)
      → Step q ins outs r
      → IsWellFormed q
      → weight w r + total w outs ≡ weight w q + total w ins
  unfolding weight push take_batch ack retry
  Step-weight {q} w (pushed p) h = omega (
    arith,
    weigh-append (λ t. w t.payload) q.pending
        (record { id = suc q.seq; payload = p; retry_count = 0 } ∷ []),
  )
  Step-weight {q} w (taken n) h = omega (
    arith,
    weigh-lend (λ t. w t.payload) n h.split q.seq q.pending q.in_flight h.waiting_ascend
        h.lent_below,
  )
  Step-weight {q} w (acked t e) h =
      omega (arith, weigh-delete (λ t. w t.payload) q.in_flight t.id t h.unique e)
  Step-weight {q} w (retried t s e p) h = ground (
    arith,
    ap w p,
    weigh-delete (λ t. w t.payload) q.in_flight t.id s h.unique e,
    weigh-append (λ t. w t.payload) q.pending
        (record { id = suc q.seq; payload = t.payload; retry_count = t.retry_count + 1 } ∷ []),
    weigh-append (λ t. w t.payload) q.dlq
        (record { id = t.id; payload = t.payload; retry_count = t.retry_count + 1 } ∷ []),
  )

  pub total-append : (w : P → ℕ) (xs ys : List P) → total w (xs ++ ys) ≡ total w xs + total w ys
  total-append w [] ys = omega arith
  total-append w (x ∷ xs) ys = omega (arith, total-append w xs ys)

  -- Every history keeps the queue well formed: the IDs that wait ascend and are at most `seq`, no ID
  -- is in flight twice, and all that is in flight is older than all that waits.
  pub Reach-IsWellFormed :
      {q r : Queue P} {ins outs : List P} → Reach q ins outs r → IsWellFormed q → IsWellFormed r
  Reach-IsWellFormed here h = h
  Reach-IsWellFormed (next before st) h = Step-IsWellFormed st (Reach-IsWellFormed before h)

  Reach-weight :
      {q r : Queue P} {ins outs : List P} (w : P → ℕ)
      → Reach q ins outs r
      → IsWellFormed q
      → weight w r + total w outs ≡ weight w q + total w ins
  Reach-weight w here h = omega arith
  Reach-weight w (next {ins = i} {outs = o} {ins' = i'} {outs' = o'} before st) h = omega (
    arith,
    Reach-weight w before h,
    Step-weight w st (Reach-IsWellFormed before h),
    total-append w i' i,
    total-append w o' o,
  )

  -- After any history from an empty queue, what it holds and what was acknowledged is, up to
  -- order and with its multiplicity, what was pushed.
  pub conservation :
      (p : RetryPolicy) {q : Queue P} {ins outs : List P} (w : P → ℕ)
      → Reach (new p) ins outs q
      → weight w q + total w outs ≡ total w ins
  unfolding weight new
  conservation p w h = omega (arith, Reach-weight w h (new-IsWellFormed p))
