-- ===== src/Command/Dlq/Guarding.antt =====
-- What the guards of a replay do (cmd/dlq/main.go, cmdReplay).
use go_dota.Base.{
  ℕ, suc, ◌+◌, ◌≤◌, ◌≡◌, refl, sym, ap, ◌∙◌, Bool, true, false, not, Option, none, some, List, [],
  ◌∷◌, String, length, arith, Eq, ◌==◌, if◌then◌else◌, Bool-cases, inl, inr,
}
use go_dota.Command.Dlq.{
  Message, Values, replay_values, Redis, Tally, replay_atomic, after_replay, after_guard, with_key,
  replay_one, replay_each,
}

-- SETNX: `held` says that a guard is there. No command takes one away before its time is over.
pub record GuardLaws {S K : Type 0} (redis : Redis S K) (held : S → String → K → Bool)
    : Type 0 where
  pub added-setnx :
      (s t : S) (l : String) (k : K) (added : Bool)
      → redis.setnx s l k ≡ some (t, added)
      → added ≡ not (held s l k)
  pub held-setnx :
      (s t : S) (l : String) (k : K) (added : Bool)
      → redis.setnx s l k ≡ some (t, added)
      → held t l k ≡ true
  pub kept-setnx :
      (s t : S) (l : String) (j k : K) (added : Bool)
      → redis.setnx s l j ≡ some (t, added)
      → held s l k ≡ true
      → held t l k ≡ true
  pub kept-xadd :
      (s t : S) (target : String) (v : Values) (l : String) (k : K)
      → redis.xadd s target v ≡ some t
      → held s l k ≡ true
      → held t l k ≡ true
  pub kept-xdel :
      (s : S) (dlq : String) (ids : List ℕ) (l : String) (k : K)
      → held s l k ≡ true
      → held (redis.xdel s dlq ids).0 l k ≡ true

abbrev pub counted : {K : Type 0} ⦃ids : Eq K⦄ → Option K → K → ℕ
counted none k = 0
counted (some j) k = if j == k then 1 else 0

-- `added` counts the entries that XADD has added to the target for a match: those with the values of
-- a dead letter of that match.
pub record AddLaws {S K : Type 0} ⦃ids : Eq K⦄ (redis : Redis S K) (key_of : Message → Option K)
    (target dlq label : String) (added : S → K → ℕ) : Type 0 where
  pub xadd-adds :
      (s t : S) (m : Message) (k : K)
      → redis.xadd s target (replay_values m) ≡ some t
      → added t k ≡ added s k + counted (key_of m) k
  pub xdel-same :
      (s : S) (letters : List ℕ) (k : K) → added (redis.xdel s dlq letters).0 k ≡ added s k
  pub setnx-same :
      (s t : S) (j k : K) (new : Bool)
      → redis.setnx s label j ≡ some (t, new)
      → added t k ≡ added s k

module _ {S K : Type 0} (redis : Redis S K) (key_of : Message → Option K)
    (label target dlq : String) where
  abbrev pub total : Tally → ℕ
  total n = n.replayed + n.skipped + n.failed

  total-after_replay :
      (s : S) (n : Tally) (o : Option S) → total (after_replay redis key_of s n o).1 ≡ suc (total n)
  unfolding after_replay
  total-after_replay s n none = omega arith
  total-after_replay s n (some t) = omega arith

  total-after_guard :
      (s : S) (n : Tally) (m : Message) (o : Option (S × Bool))
      → total (after_guard redis key_of s target dlq n m o).1 ≡ suc (total n)
  unfolding after_guard
  total-after_guard s n m none = omega arith
  total-after_guard s n m (some (t, true)) =
      total-after_replay t n (replay_atomic redis key_of t target dlq m)
  total-after_guard s n m (some (t, false)) = omega arith

  total-with_key :
      (s : S) (n : Tally) (m : Message) (o : Option K)
      → total (with_key redis key_of s label target dlq n m o).1 ≡ suc (total n)
  unfolding with_key
  total-with_key s n m none = total-after_replay s n (replay_atomic redis key_of s target dlq m)
  total-with_key s n m (some k) = total-after_guard s n m (redis.setnx s label k)

  -- Each dead letter that was read is counted once: as replayed, as skipped or as failed.
  pub total-replay_each :
      (s : S) (n : Tally) (ms : List Message)
      → total (replay_each redis key_of s label target dlq n ms).1 ≡ total n + length ms
  unfolding replay_each replay_one
  total-replay_each s n [] = omega arith
  total-replay_each s n (m ∷ ms) = omega (
    arith,
    total-replay_each (replay_one redis key_of s label target dlq n m).0
        (replay_one redis key_of s label target dlq n m).1 ms,
    total-with_key s n m (key_of m),
  )

  module _ (held : S → String → K → Bool) (laws : GuardLaws redis held) where
    not_replayed :
        (t : S) (m : Message)
        → redis.xadd t target (replay_values m) ≡ none
        → replay_atomic redis key_of t target dlq m ≡ none
    unfolding replay_atomic
    not_replayed t m broken = rw (broken, replay_atomic) refl

    skipped_again :
        (s : S) (n : Tally) (m : Message) (k : K) (o : Option (S × Bool))
        → redis.setnx s label k ≡ o
        → held s label k ≡ true
        → (after_guard redis key_of s target dlq n m o).1 ≡ record n { skipped = suc n.skipped }
    unfolding after_guard
    skipped_again s n m k none e there = refl
    skipped_again s n m k (some (t, added)) e there =
        rw (laws.added-setnx s t label k added e ∙ ap not there) refl

    -- A dead letter with a match id whose replay fails is not replayed by a later run either, while
    -- its guard is there: the first run has set the guard, and the later one skips the letter.
    pub failed-skipped :
        (s t : S) (n n' : Tally) (m : Message) (k : K)
        → key_of m ≡ some k
        → redis.setnx s label k ≡ some (t, true)
        → redis.xadd t target (replay_values m) ≡ none
        → let first = replay_one redis key_of s label target dlq n m in
          (first.1 ≡ record n { failed = suc n.failed })
          × ((replay_one redis key_of first.0 label target dlq n' m).1
              ≡ record n' { skipped = suc n'.skipped })
    unfolding replay_one with_key after_guard
    failed-skipped s t n n' m k has_id guarded broken = (
      ap (λ (r : S × Tally). r.1) first,
      ap (λ (r : S × Tally). (replay_one redis key_of r.0 label target dlq n' m).1) first ∙ second,
    )
      where
        first :
            replay_one redis key_of s label target dlq n m ≡ (t, record n { failed = suc n.failed })
        first =
            rw has_id (rw guarded (ap (after_replay redis key_of t n) (not_replayed t m broken)))

        second :
            (replay_one redis key_of t label target dlq n' m).1
            ≡ record n' { skipped = suc n'.skipped }
        second = rw has_id (
            skipped_again t n' m k (redis.setnx t label k) refl
              (laws.held-setnx s t label k true guarded))

    atomic-kept :
        (s : S) (n : Tally) (m : Message) (k : K)
        → held s label k ≡ true
        → held (after_replay redis key_of s n (replay_atomic redis key_of s target dlq m)).0 label k
          ≡ true
    unfolding replay_atomic after_replay
    atomic-kept s n m k there = either (redis.xadd s target (replay_values m)) refl
      where
        either :
            (o : Option S)
            → redis.xadd s target (replay_values m) ≡ o
            → held
                (after_replay redis key_of s n
                  (elim o [ none ↦ none | some t ↦ some (redis.xdel t dlq (m.id ∷ [])).0 ])).0
                label
                k
              ≡ true
        either none e = there
        either (some t) e =
            laws.kept-xdel t dlq (m.id ∷ []) label k
              (laws.kept-xadd s t target (replay_values m) label k e there)

    guard-kept :
        (s : S) (n : Tally) (m : Message) (j k : K) (o : Option (S × Bool))
        → redis.setnx s label j ≡ o
        → held s label k ≡ true
        → held (after_guard redis key_of s target dlq n m o).0 label k ≡ true
    unfolding after_guard
    guard-kept s n m j k none e there = there
    guard-kept s n m j k (some (t, true)) e there =
        atomic-kept t n m k (laws.kept-setnx s t label j k true e there)
    guard-kept s n m j k (some (t, false)) e there = laws.kept-setnx s t label j k false e there

    key-kept :
        (s : S) (n : Tally) (m : Message) (k : K) (o : Option K)
        → held s label k ≡ true
        → held (with_key redis key_of s label target dlq n m o).0 label k ≡ true
    unfolding with_key
    key-kept s n m k none there = atomic-kept s n m k there
    key-kept s n m k (some j) there = guard-kept s n m j k (redis.setnx s label j) refl there

    abbrev pub room : K → S → ℕ
    room k s = if held s label k then 0 else 1

    module _ ⦃ids : Eq K⦄ (added : S → K → ℕ)
        (adds : AddLaws redis key_of target dlq label added) where
      atomic-adds :
          (s : S) (n : Tally) (m : Message) (k : K)
          → added (after_replay redis key_of s n (replay_atomic redis key_of s target dlq m)).0 k
            ≤ added s k + counted (key_of m) k
      unfolding replay_atomic after_replay
      atomic-adds s n m k = either (redis.xadd s target (replay_values m)) refl
        where
          either :
              (o : Option S)
              → redis.xadd s target (replay_values m) ≡ o
              → added
                  (after_replay redis key_of s n
                    (elim o [ none ↦ none | some t ↦ some (redis.xdel t dlq (m.id ∷ [])).0 ])).0
                  k
                ≤ added s k + counted (key_of m) k
          either none e = omega arith
          either (some t) e =
              omega (arith, adds.xdel-same t (m.id ∷ []) k, adds.xadd-adds s t m k e)

      hit : (j k : K) → (j == k) ≡ true → counted (some j) k ≡ 1
      hit j k same = rw same refl

      space : Bool → ℕ
      space b = if b then 0 else 1

      spent : (b : Bool) → b ≡ false → space b ≡ 1
      unfolding space
      spent b h = rw h refl

      kept_room : (b : Bool) → b ≡ true → space b ≡ 0
      unfolding space
      kept_room b h = rw h refl

      guard-adds :
          (s : S) (n : Tally) (m : Message) (j k : K) (o : Option (S × Bool))
          → key_of m ≡ some j
          → redis.setnx s label j ≡ o
          → let done = (after_guard redis key_of s target dlq n m o).0 in
            added done k + room k done ≤ added s k + room k s
      unfolding after_guard space
      guard-adds s n m j k none e g = omega arith
      guard-adds s n m j k (some (t, false)) e g =
          ground (arith, adds.setnx-same s t j k false g, laws.kept-setnx s t label j k false g)
      guard-adds s n m j k (some (t, true)) e g = elim (Bool-cases (j == k)) [
        | inl same ↦
            let jk = (ids.beq_iff j k).0 same in
            omega (
              arith,
              atomic-adds t n m k,
              ap (λ o. counted o k) e ∙ hit j k same,
              adds.setnx-same s t j k true g,
              spent (held s label k) (
                  ground (arith, laws.added-setnx s t label j true g, ap (λ i. held s label i) jk)),
              kept_room
                  (held
                    (after_replay redis key_of t n (replay_atomic redis key_of t target dlq m)).0
                    label k)
                  (atomic-kept t n m k
                    (ap (λ i. held t label i) (sym jk) ∙ laws.held-setnx s t label j true g)),
            )
        | inr other ↦ ground (
          arith,
          atomic-adds t n m k,
          ap (λ o. counted o k) e,
          adds.setnx-same s t j k true g,
          laws.kept-setnx s t label j k true g,
          atomic-kept t n m k,
        )
      ]

      one-adds :
          (s : S) (n : Tally) (m : Message) (k : K) (o : Option K)
          → key_of m ≡ o
          → let done = (with_key redis key_of s label target dlq n m o).0 in
            added done k + room k done ≤ added s k + room k s
      unfolding with_key
      one-adds s n m k none e =
          ground (arith, atomic-adds s n m k, ap (λ o. counted o k) e, atomic-kept s n m k)
      one-adds s n m k (some j) e = guard-adds s n m j k (redis.setnx s label j) e refl

      each-adds :
          (k : K) (s : S) (n : Tally) (ms : List Message)
          → let done = (replay_each redis key_of s label target dlq n ms).0 in
            added done k + room k done ≤ added s k + room k s
      unfolding replay_each replay_one
      each-adds k s n [] = omega arith
      each-adds k s n (m ∷ ms) = omega (
        arith,
        one-adds s n m k (key_of m) refl,
        each-adds k (replay_one redis key_of s label target dlq n m).0
            (replay_one redis key_of s label target dlq n m).1 ms,
      )

      -- However often a match stands among the dead letters, a replay adds an entry for it at most
      -- once, and none where its guard is there already, while no guard's time is over.
      pub runs_once :
          (k : K) (s : S) (n : Tally) (ms : List Message)
          → added (replay_each redis key_of s label target dlq n ms).0 k ≤ added s k + room k s
      runs_once k s n ms = omega (arith, each-adds k s n ms)
