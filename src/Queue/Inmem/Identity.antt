-- ===== src/Queue/Inmem/Identity.antt =====
-- No two tasks of the in-memory queue have one ID (internal/queue/inmem/queue.go).
use go_dota.Base.{
  ℕ, zero, suc, ◌+◌, ◌≤◌, ◌<◌, ◌≡◌, refl, List, [], ◌∷◌, ◌++◌, Map, delete, put, take, drop, length,
  arith, HasUniqueKeys, put-HasUniqueKeys, delete-HasUniqueKeys, nat_eq, min, if_ind,
}
use go_dota.Queue.{Task, RetryPolicy, should_dlq}
use go_dota.Queue.Inmem.{Queue, Poll, new, push, push_all, lend, take_batch, pop, ack, retry}

module _ {P : Type 0} where
  -- The IDs rise along the list, above `lo` and up to `hi`.
  abbrev pub Ascending : ℕ → List (Task P) → ℕ → Type 0
  Ascending lo [] hi = lo ≤ hi
  Ascending lo (t ∷ ts) hi = (lo < t.id) × Ascending t.id ts hi

  -- The keys are at most `hi`, and each is the ID of its task.
  abbrev pub Lent : ℕ → Map ℕ (Task P) → Type 0
  Lent hi [] = Unit
  Lent hi ((k, t) ∷ m) = (k ≤ hi) × (k ≡ t.id) × Lent hi m

-- Some number separates the IDs that were handed out from those that wait.
pub record IsWellFormed {P : Type 0} (q : Queue P) : Type 0 where
  pub split : ℕ
  pub waiting_ascend : Ascending split q.pending q.seq
  pub lent_below : Lent split q.in_flight
  pub unique : HasUniqueKeys q.in_flight

module _ {P : Type 0} where
  pub Ascending-le : (lo hi : ℕ) (ts : List (Task P)) → Ascending lo ts hi → lo ≤ hi
  Ascending-le lo hi [] h = h
  Ascending-le lo hi (t ∷ ts) h = omega (arith, Ascending-le t.id hi ts h.1)

  Ascending-append :
      (lo hi : ℕ) (ts : List (Task P)) (t : Task P)
      → t.id ≡ suc hi
      → Ascending lo ts hi
      → Ascending lo (ts ++ t ∷ []) (suc hi)
  Ascending-append lo hi [] t e h = omega arith
  Ascending-append lo hi (s ∷ ts) t e h = (h.0, Ascending-append s.id hi ts t e h.1)

  pub Lent-mono : (lo hi : ℕ) (m : Map ℕ (Task P)) → lo ≤ hi → Lent lo m → Lent hi m
  Lent-mono lo hi [] h l = tt
  Lent-mono lo hi ((k, t) ∷ m) h l = (omega arith, l.1, Lent-mono lo hi m h l.2)

  pub Lent-delete : (hi k : ℕ) (m : Map ℕ (Task P)) → Lent hi m → Lent hi (delete m k)
  unfolding delete
  Lent-delete hi k [] l = tt
  Lent-delete hi k ((j, t) ∷ m) l = ground (arith, Lent-delete hi k m l.2)

  -- Handing out the first `n` tasks moves the split up.
  record Moved (n lo hi : ℕ) (ts : List (Task P)) (m : Map ℕ (Task P)) : Type 0 where
    split : ℕ
    ascend : Ascending split (drop n ts) hi
    lent : Lent split (lend m (take n ts))
    unique : HasUniqueKeys (lend m (take n ts))

  lend-Moved :
      (n lo hi : ℕ) (ts : List (Task P)) (m : Map ℕ (Task P))
      → Ascending lo ts hi
      → Lent lo m
      → HasUniqueKeys m
      → Moved n lo hi ts m
  unfolding lend put
  lend-Moved zero lo hi ts m a l u = record { split = lo; ascend = a; lent = l; unique = u }
  lend-Moved (suc n) lo hi [] m a l u = record { split = lo; ascend = a; lent = l; unique = u }
  lend-Moved (suc n) lo hi (t ∷ ts) m a l u =
      let r =
        lend-Moved n t.id hi ts (put m t.id t) a.1
          (omega arith, refl, Lent-delete t.id t.id m (Lent-mono lo t.id m (omega arith) l))
          (put-HasUniqueKeys m t.id t u) in
      record { split = r.split; ascend = r.ascend; lent = r.lent; unique = r.unique }

  pub new-IsWellFormed : (p : RetryPolicy) → IsWellFormed (new {P = P} p)
  unfolding new
  new-IsWellFormed p = record {
    split = 0;
    waiting_ascend = omega arith;
    lent_below = tt;
    unique = tt;
  }

  pub push-IsWellFormed : (q : Queue P) (p : P) → IsWellFormed q → IsWellFormed (push q p)
  unfolding push
  push-IsWellFormed q p w = record {
    split = w.split;
    waiting_ascend = Ascending-append w.split q.seq q.pending _ refl w.waiting_ascend;
    lent_below = w.lent_below;
    unique = w.unique;
  }

  push_all-IsWellFormed :
      (q : Queue P) (ps : List P) → IsWellFormed q → IsWellFormed (push_all q ps)
  unfolding push_all
  push_all-IsWellFormed q [] w = w
  push_all-IsWellFormed q (p ∷ ps) w = push_all-IsWellFormed (push q p) ps (push-IsWellFormed q p w)

  pub take_batch-IsWellFormed :
      (q : Queue P) (n : ℕ) → IsWellFormed q → IsWellFormed (take_batch q n)
  unfolding take_batch
  take_batch-IsWellFormed q n w =
      let r =
        lend-Moved n w.split q.seq q.pending q.in_flight w.waiting_ascend w.lent_below w.unique in
      record { split = r.split; waiting_ascend = r.ascend; lent_below = r.lent; unique = r.unique }

  pub pop-IsWellFormed :
      (q : Queue P) (batch deadline : ℕ) (rs : List (Poll P))
      → IsWellFormed q
      → IsWellFormed (pop q batch deadline rs).0
  unfolding pop
  pop-IsWellFormed q batch deadline [] w = w
  pop-IsWellFormed q batch deadline (r ∷ rs) w =
      let w' = push_all-IsWellFormed q r.arrivals w in
      let later = pop-IsWellFormed (push_all q r.arrivals) batch deadline rs w' in
      let n = min batch (length (push_all q r.arrivals).pending) in
      ground (arith, w', later, take_batch-IsWellFormed (push_all q r.arrivals) n w')

  pub ack-IsWellFormed : (q : Queue P) (k : ℕ) → IsWellFormed q → IsWellFormed (ack q k)
  unfolding ack
  ack-IsWellFormed q k w = record {
    split = w.split;
    waiting_ascend = w.waiting_ascend;
    lent_below = Lent-delete w.split k q.in_flight w.lent_below;
    unique = delete-HasUniqueKeys q.in_flight k w.unique;
  }

  pub retry-IsWellFormed : (q : Queue P) (t : Task P) → IsWellFormed q → IsWellFormed (retry q t)
  unfolding retry
  retry-IsWellFormed q t w =
      let u = delete-HasUniqueKeys q.in_flight t.id w.unique in
      let l = Lent-delete w.split t.id q.in_flight w.lent_below in
      if_ind IsWellFormed (should_dlq q.policy (t.retry_count + 1)) _ _
        (λ _. record {
          split = w.split;
          waiting_ascend = w.waiting_ascend;
          lent_below = l;
          unique = u;
        })
        (λ _. record {
          split = w.split;
          waiting_ascend = Ascending-append w.split q.seq q.pending _ refl w.waiting_ascend;
          lent_below = l;
          unique = u;
        })
