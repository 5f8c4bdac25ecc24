-- ===== src/Worker/Runner/Settling.antt =====
-- What the loop of internal/worker/runner.go does to the tasks of a batch that it popped from the
-- in-memory queue.
use go_dota.Base.{
  ℕ, zero, suc, ◌+◌, ◌≤◌, ◌≡◌, refl, Option, none, some, List, [], ◌∷◌, ◌++◌, Map, String, get,
  delete, put, take, arith, nat_eq, nat_beq_iff, All, IsFresh, get-delete, get-put,
}
use go_dota.Json.{Blob}
use go_dota.Queue.{Task}
use go_dota.Queue.Inmem.{Queue, lend, take_batch, ack, queue_ops}
use go_dota.Queue.Inmem
use go_dota.Queue.Inmem.Identity.{Ascending, Ascending-le, IsWellFormed, take_batch-IsWellFormed}
use go_dota.Queue.Inmem.Conservation.{
  Step, taken, acked, retried, weight, total, Step-weight, total-append, Step-IsWellFormed,
}
use go_dota.Worker.Runner.{
  Result, success, retry, drop as dropped, other, Processed, Handled, recovered,
  with_injected_retry, settle, run_task, run_tasks,
}

-- The tasks of a batch are in flight, and no two have one ID.
pub record IsHeld (lo hi : ℕ) (m : Map ℕ (Task Blob)) (ts : List (Task Blob)) : Type 0 where
  pub distinct : Ascending lo ts hi
  pub lent : All (λ t. get m t.id ≡ some t) ts

Ascending-take :
    (n lo hi : ℕ) (ts : List (Task Blob)) → Ascending lo ts hi → Ascending lo (take n ts) hi
Ascending-take zero lo hi ts a = Ascending-le lo hi ts a
Ascending-take (suc n) lo hi [] a = a
Ascending-take (suc n) lo hi (t ∷ ts) a = (a.0, Ascending-take n t.id hi ts a.1)

get-lend :
    (lo hi k : ℕ) (m : Map ℕ (Task Blob)) (ts : List (Task Blob))
    → Ascending lo ts hi
    → k ≤ lo
    → get (lend m ts) k ≡ get m k
unfolding lend
get-lend lo hi k m [] a h = refl
get-lend lo hi k m (t ∷ ts) a h =
    ground (arith, get-lend t.id hi k (put m t.id t) ts a.1, get-put m t.id t k)

lent-lend :
    (lo hi : ℕ) (m : Map ℕ (Task Blob)) (ts : List (Task Blob))
    → Ascending lo ts hi
    → All (λ t. get (lend m ts) t.id ≡ some t) ts
unfolding lend
lent-lend lo hi m [] a = tt
lent-lend lo hi m (t ∷ ts) a = (
  ground (arith, get-lend t.id hi t.id (put m t.id t) ts a.1, get-put m t.id t t.id),
  lent-lend t.id hi (put m t.id t) ts a.1,
)

lent-delete :
    (lo hi k : ℕ) (m : Map ℕ (Task Blob)) (ts : List (Task Blob))
    → k ≤ lo
    → Ascending lo ts hi
    → All (λ t. get m t.id ≡ some t) ts
    → All (λ t. get (delete m k) t.id ≡ some t) ts
lent-delete lo hi k m [] h a l = tt
lent-delete lo hi k m (t ∷ ts) h a l =
    (ground (arith, get-delete m k t.id, l.0), lent-delete t.id hi k m ts (omega arith) a.1 l.1)

settle-in_flight :
    (q : Queue Blob) (t : Task Blob) (r : Result) (e : Option String)
    → (settle queue_ops q t r e).in_flight ≡ delete q.in_flight t.id
unfolding settle ack Inmem.retry
settle-in_flight q t success e = refl
settle-in_flight q t dropped e = refl
settle-in_flight q t retry e = ground arith
settle-in_flight q t other e = ground arith

settle-IsFresh :
    (q : Queue Blob) (t : Task Blob) (r : Result) (e : Option String) (k : ℕ)
    → IsFresh q.in_flight k
    → IsFresh (settle queue_ops q t r e).in_flight k
settle-IsFresh q t r e k f =
    rw (settle-in_flight q t r e) (ground (arith, get-delete q.in_flight t.id k, f))

settle-gone :
    (q : Queue Blob) (t : Task Blob) (r : Result) (e : Option String)
    → IsFresh (settle queue_ops q t r e).in_flight t.id
settle-gone q t r e =
    rw (settle-in_flight q t r e)
      (ground (arith, get-delete q.in_flight t.id t.id, nat_beq_iff t.id t.id))

-- The payload that a settled task takes out of the queue.
unfoldable pub taken_out : Blob → Result → Option String → List Blob
taken_out p success e = p ∷ []
taken_out p dropped e = p ∷ []
taken_out p retry e = []
taken_out p other none = p ∷ []
taken_out p other (some message) = []

settle-Step :
    (q : Queue Blob) (t : Task Blob) (n : ℕ) (r : Result) (e : Option String)
    → get q.in_flight t.id ≡ some t
    → let t' = record t { retry_count = n } in
      Step q [] (taken_out t.payload r e) (settle queue_ops q t' r e)
unfolding settle taken_out
settle-Step q t n success e h = acked t h
settle-Step q t n dropped e h = acked t h
settle-Step q t n retry e h = retried (record t { retry_count = n }) t h refl
settle-Step q t n other none h = acked t h
settle-Step q t n other (some message) h = retried (record t { retry_count = n }) t h refl

module _ {H : Type 0} (process : H → Task Blob → H × Handled) where
  -- The handler's answers to a batch, and its state in between, decide what leaves the queue.
  unfoldable pub answer : H → Task Blob → Processed
  unfolding recovered
  answer h t = recovered (process h (with_injected_retry t)).1

  unfoldable pub acknowledged : H → List (Task Blob) → List Blob
  unfolding answer taken_out
  acknowledged h [] = []
  acknowledged h (t ∷ ts) =
      taken_out t.payload (answer h t).result (answer h t).error
      ++ acknowledged (process h (with_injected_retry t)).0 ts

  abbrev after_task : Queue Blob → H → Task Blob → Queue Blob
  after_task q h t =
      settle queue_ops q (with_injected_retry t) (answer h t).result (answer h t).error

  run_tasks-IsFresh :
      (q : Queue Blob) (h : H) (ts : List (Task Blob)) (k : ℕ)
      → IsFresh q.in_flight k
      → IsFresh (run_tasks queue_ops process q h ts).0.in_flight k
  unfolding run_tasks answer
  run_tasks-IsFresh q h [] k f = f
  run_tasks-IsFresh q h (t ∷ ts) k f =
      run_tasks-IsFresh (run_task queue_ops process q h t).0 (run_task queue_ops process q h t).1 ts
        k (settle-IsFresh q (with_injected_retry t) (answer h t).result (answer h t).error k f)

  -- What holds after the batch, of the state `r`.
  record Settled (q r : Queue Blob) (h : H) (ts : List (Task Blob)) : Type 0 where
    well_formed : IsWellFormed r
    conserved : (w : Blob → ℕ) → weight w r + total w (acknowledged h ts) ≡ weight w q
    gone : All (λ t. IsFresh r.in_flight t.id) ts

  run_tasks-Settled :
      (lo hi : ℕ) (q : Queue Blob) (h : H) (ts : List (Task Blob))
      → IsWellFormed q
      → IsHeld lo hi q.in_flight ts
      → Settled q (run_tasks queue_ops process q h ts).0 h ts
  unfolding run_tasks acknowledged
  run_tasks-Settled lo hi q h [] f held = record {
    well_formed = f;
    conserved = λ w. omega arith;
    gone = tt;
  }
  run_tasks-Settled lo hi q h (t ∷ ts) f held =
      let t' = with_injected_retry t in
      let h' = (process h t').0 in
      let a = recovered (process h t').1 in
      let q' = settle queue_ops q t' a.result a.error in
      let st = settle-Step q t t'.retry_count a.result a.error held.lent.0 in
      let held' : IsHeld t.id hi q'.in_flight ts = record {
        distinct = held.distinct.1;
        lent =
            rw (settle-in_flight q t' a.result a.error)
              (lent-delete t.id hi t.id q.in_flight ts (omega arith) held.distinct.1 held.lent.1);
      } in
      let rest = run_tasks-Settled t.id hi q' h' ts (Step-IsWellFormed st f) held' in
      record {
        well_formed = rest.well_formed;
        conserved = λ w. omega (
          arith,
          rest.conserved w,
          Step-weight w st f,
          total-append w (taken_out t.payload a.result a.error) (acknowledged h' ts),
        );
        gone = (run_tasks-IsFresh q' h' ts t.id (settle-gone q t' a.result a.error), rest.gone);
      }

  -- Over a well-formed in-memory queue, whatever the handler answers, panics included: after a
  -- batch the queue is well formed, no task of the batch is in flight, and what left the queue are
  -- the payloads that were acknowledged: those answered with success or drop, or with another
  -- result and no error. All others wait for a retry, or are dead.
  pub batch_settled :
      (q : Queue Blob) (n : ℕ) (h : H)
      → IsWellFormed q
      → let ts = take n q.pending in
        let r = (run_tasks queue_ops process (take_batch q n) h ts).0 in
        IsWellFormed r
        × All (λ t. IsFresh r.in_flight t.id) ts
        × ((w : Blob → ℕ) → weight w r + total w (acknowledged h ts) ≡ weight w q)
  unfolding take_batch
  batch_settled q n h f =
      let held : IsHeld f.split q.seq (take_batch q n).in_flight (take n q.pending) = record {
        distinct = Ascending-take n f.split q.seq q.pending f.waiting_ascend;
        lent =
            lent-lend f.split q.seq q.in_flight (take n q.pending)
              (Ascending-take n f.split q.seq q.pending f.waiting_ascend);
      } in
      let f' = take_batch-IsWellFormed q n f in
      let r = run_tasks-Settled f.split q.seq (take_batch q n) h (take n q.pending) f' held in
      (r.well_formed, r.gone, λ w. omega (arith, r.conserved w, Step-weight w (taken n) f))
