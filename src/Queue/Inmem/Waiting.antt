-- ===== src/Queue/Inmem/Waiting.antt =====
-- The results of Pop and its end (internal/queue/inmem/queue.go).
use go_dota.Base.{
  ℕ, ◌<◌, ◌≡◌, refl, true, false, List, [], ◌∷◌, ◌++◌, ◌&&◌, not, ◌⊎◌, inl, inr, ◌≢◌, take, length,
  min, arith, ltb, take-append-drop, length-take, Bool-cases,
}
use go_dota.Queue.{Popped, tasks, empty, cancelled, waiting, failed}
use go_dota.Queue.Inmem.{Queue, Poll, push, push_all, lend, take_batch, pop}

module _ {P : Type 0} where
  -- What a result says of the state `q` that Pop met last and the state `r` that it leaves.
  abbrev pub Outcome : ℕ → Queue P → Popped P → Queue P → Type 0
  Outcome batch q (tasks ts) r =
      (ts ++ r.pending ≡ q.pending)
      × (length ts ≡ min batch (length q.pending))
      × (r.in_flight ≡ lend q.in_flight ts)
      × (r.dlq ≡ q.dlq)
      × (0 < length q.pending)
  Outcome batch q empty r = (r ≡ q) × (length q.pending ≡ 0)
  Outcome batch q cancelled r = r ≡ q
  Outcome batch q waiting r = r ≡ q
  Outcome batch q (failed reason) r = ⊥

  -- Some poll comes at the deadline or later, or finds the context cancelled.
  abbrev pub HasEnd : ℕ → List (Poll P) → Type 0
  HasEnd deadline [] = ⊥
  HasEnd deadline (r ∷ rs) =
      (ltb r.now deadline ≡ false)
      ⊎ ((r.cancelled ≡ true) ⊎ ((r.cancelled_asleep ≡ true) ⊎ HasEnd deadline rs))

module _ {P : Type 0} where
  push_all-append :
      (q : Queue P) (xs ys : List P) → push_all q (xs ++ ys) ≡ push_all (push_all q xs) ys
  unfolding push_all
  push_all-append q [] ys = refl
  push_all-append q (x ∷ xs) ys = push_all-append (push q x) xs ys

  take_batch-Outcome :
      (q : Queue P) (batch : ℕ)
      → 0 < length q.pending
      → let n = min batch (length q.pending) in
        Outcome batch q (tasks (take n q.pending)) (take_batch q n)
  unfolding take_batch
  take_batch-Outcome q batch h =
      let n = min batch (length q.pending) in
      (take-append-drop n q.pending, omega (arith, length-take n q.pending), refl, refl, h)

  -- Pop returns the oldest tasks, as many as asked for and there, and puts just those in flight;
  -- or it finds no task, or is cancelled, and then it changes nothing. The pushes of the other
  -- goroutines come before.
  pub pop-Outcome :
      (q : Queue P) (batch deadline : ℕ) (rs : List (Poll P))
      → (ps : List P) × Outcome batch
          (push_all q ps)
          (pop q batch deadline rs).1
          (pop q batch deadline rs).0
  unfolding pop push_all
  pop-Outcome q batch deadline [] = ([], refl)
  pop-Outcome q batch deadline (r ∷ rs) = elim (Bool-cases r.cancelled) [
    | inl stop ↦ ([], ground arith)
    | inr go ↦ elim (Bool-cases (ltb 0 (length (push_all q r.arrivals).pending))) [
      | inl found ↦ (r.arrivals, ground (arith, take_batch-Outcome (push_all q r.arrivals) batch))
      | inr idle ↦ elim (Bool-cases (ltb r.now deadline && not r.cancelled_asleep)) [
        | inl early ↦
            let (ps, h) = pop-Outcome (push_all q r.arrivals) batch deadline rs in
            (r.arrivals ++ ps, rw push_all-append (ground (arith, h)))
        | inr over ↦ (r.arrivals, ground arith)
      ]
    ]
  ]

  -- Pop ends: where one of the polls comes at the deadline or later, or is cancelled, Pop does not
  -- wait after the polls.
  pub pop_ends :
      (q : Queue P) (batch deadline : ℕ) (rs : List (Poll P))
      → HasEnd deadline rs
      → (pop q batch deadline rs).1 ≢ waiting
  unfolding pop
  pop_ends q batch deadline [] h = absurd h
  pop_ends q batch deadline (r ∷ rs) h =
      ground (arith, pop_ends (push_all q r.arrivals) batch deadline rs)
