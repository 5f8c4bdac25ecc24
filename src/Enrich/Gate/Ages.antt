-- ===== src/Enrich/Gate/Ages.antt =====
-- When a source may run again (internal/enrich/gate/gate.go).
use go_dota.Base.{
  ℕ, ◌+◌, ◌*◌, ◌/◌, ◌≤◌, ◌≡◌, refl, ap, ◌∙◌, Bool, true, false, ◌&&◌, Option, none, some, String,
  leb, ltb, arith, if◌then◌else◌, Bool-cases, inl, inr,
}
use go_dota.Enrich.Gate.{
  Mode, interval, once, Config, nil, value, Redis, Rfc3339, key, Verdict, verdict_of_exists, is_due,
  verdict_of_last, should_run, lifetime, stored, record_run,
}

abbrev pub second : ℕ
second = 1000000000

-- The start of the second.
abbrev pub to_second : ℕ → ℕ
to_second t = t / second * second

-- A key that is set lives on without an end when the time to live is 0.
abbrev pub is_gone : ℕ → ℕ → ℕ → Bool
is_gone set_at ttl now = ltb 0 ttl && leb (set_at + ttl) now

-- SET, as Redis documents it: the value can be read until the time to live is over.
pub record SetLaw {S : Type 0} (redis : Redis S) : Type 0 where
  pub get-set :
      (s t : S) (set_at now : ℕ) (k v : String) (ttl : ℕ)
      → redis.set s set_at k v ttl ≡ some t
      → set_at ≤ now
      → redis.get t now k ≡ (if is_gone set_at ttl now then nil else value v)
  pub exists-set :
      (s t : S) (set_at now : ℕ) (k v : String) (ttl : ℕ)
      → redis.set s set_at k v ttl ≡ some t
      → set_at ≤ now
      → redis.exists t now k ≡ some (if is_gone set_at ttl now then 0 else 1)

-- What the gate means to answer at `now`, when a run that started at `started` was recorded at
-- `set_at`.
abbrev pub may_run : Config → ℕ → ℕ → ℕ → Bool
may_run g started set_at now = elim g.mode [
  | interval ↦ leb (to_second started + g.min_age) now
  | once ↦ is_gone set_at g.ttl now
]

to_second-le : (t : ℕ) → to_second t ≤ t
to_second-le t = omega arith

module _ {S : Type 0} (rfc : Rfc3339) (redis : Redis S) where
  last_due :
      (g : Config) (started set_at now : ℕ)
      → rfc.parse (rfc.format started) ≡ some (to_second started)
      → started ≤ set_at
      → set_at ≤ now
      → verdict_of_last rfc g now
          (if is_gone set_at g.min_age now then nil else value (rfc.format started))
        ≡ (leb (to_second started + g.min_age) now, none)
  unfolding verdict_of_last is_due
  last_due g started set_at now law before later =
      elim (Bool-cases (is_gone set_at g.min_age now)) [
        | inl gone ↦ rw gone (cc (reached_age gone))
        | inr there ↦ rw (there, law) refl
      ]
    where
      reached_age :
          is_gone set_at g.min_age now ≡ true → leb (to_second started + g.min_age) now ≡ true
      reached_age gone = ground (arith, to_second-le started)

  stored-some : (s : S) (o : Option S) (t : S) → stored rfc redis s o ≡ (t, none) → o ≡ some t
  unfolding stored
  stored-some s none t e = ground arith
  stored-some s (some u) t e = ground arith

  gone : (b : Bool) → verdict_of_exists (some (if b then 0 else 1)) ≡ (b, none)
  unfolding verdict_of_exists
  gone true = ground arith
  gone false = ground arith

  -- Once a run that started at `started` is recorded at `set_at`, the gate answers by the age of that
  -- start, counted from the beginning of its second: it lets the source run again when MinAge has
  -- passed, whether or not the key is gone by then. A gate of the mode Once lets the source run again
  -- only when the key's time to live is over, and never when that is 0.
  pub record-should_run :
      (g : Config) (s : S) (name : String) (started set_at now : ℕ)
      → SetLaw redis
      → rfc.parse (rfc.format started) ≡ some (to_second started)
      → started ≤ set_at
      → set_at ≤ now
      → (t : S)
      → record_run rfc redis g s set_at name
          (record { success = true; error = ""; started = started })
        ≡ (t, none)
      → should_run rfc redis g t now name ≡ (may_run g started set_at now, none)
  unfolding record_run should_run lifetime stored
  record-should_run g s name started set_at now laws law before later t e = either g.mode (
      stored-some s (redis.set s set_at (key g name) (rfc.format started) (lifetime rfc redis g)) t
        e)
    where
      either :
          (m : Mode)
          → redis.set s set_at
              (key g name)
              (rfc.format started)
              (elim m [ once ↦ g.ttl | interval ↦ g.min_age ])
            ≡ some t
          → ◌≡◌ {A = Verdict}
              (elim m [
                | once ↦ verdict_of_exists (redis.exists t now (key g name))
                | interval ↦ verdict_of_last rfc g now (redis.get t now (key g name))
              ])
              (
                elim m [
                  | interval ↦ leb (to_second started + g.min_age) now
                  | once ↦ is_gone set_at g.ttl now
                ],
                none,
              )
      either interval was_set =
          ap (verdict_of_last rfc g now)
            (laws.get-set s t set_at now (key g name) (rfc.format started) g.min_age was_set later)
          ∙ last_due g started set_at now law before later
      either once was_set =
          ap verdict_of_exists
            (laws.exists-set s t set_at now (key g name) (rfc.format started) g.ttl was_set later)
          ∙ gone (is_gone set_at g.ttl now)
