-- ===== src/Enrich/Gate.antt =====
-- internal/enrich/gate/gate.go. Redis is a parameter, and so are the conversions of a time to a text
-- and back (RFC 3339). Times are counted in nanoseconds.
mod Ages
mod Examples
use Prim.Native.String.{◌++◌}
use go_dota.Base.{
  ℕ, zero, suc, ◌+◌, Bool, true, false, Option, none, some, String, leb, nat_beq, if◌then◌else◌,
}
use go_dota.Enrich.Runner.{RunOutcome, RunGate}

pub data Mode : Type 0 where
  interval once : Mode

pub record Config : Type 0 where
  pub prefix : String
  pub min_age : ℕ
  pub ttl : ℕ
  pub mode : Mode

-- The reply to GET.
pub data Reply : Type 0 where
  nil : Reply
  failed : String → Reply
  value : String → Reply

-- The commands, on a store `S` and at a time; SET with the time to live. `none` is an error, and
-- leaves the store as it was.
pub record Redis (S : Type 0) : Type 0 where
  pub exists : S → ℕ → String → Option ℕ
  pub get : S → ℕ → String → Reply
  pub set : S → ℕ → String → String → ℕ → Option S

-- time.Parse and Time.Format, with the layout RFC3339.
pub record Rfc3339 : Type 0 where
  pub parse : String → Option ℕ
  pub format : ℕ → String

unfoldable pub suffix : Mode → String
suffix interval = "run"
suffix once = "done"

unfoldable pub key : Config → String → String
unfolding suffix
key g name = g.prefix ++ (":" ++ (suffix g.mode ++ (":" ++ name)))

-- Whether a source may run, and the error.
abbrev pub Verdict : Type 0
Verdict = Bool × Option String

unfoldable pub verdict_of_exists : Option ℕ → Verdict
verdict_of_exists none = (false, some "exists")
verdict_of_exists (some n) = (nat_beq n 0, none)

-- `time.Since(lastAt) >= MinAge`, without the subtraction, which may go below 0.
unfoldable pub is_due : Config → ℕ → Option ℕ → Bool
is_due g now none = true
is_due g now (some last) = leb (last + g.min_age) now

module _ (rfc : Rfc3339) where
  unfoldable pub verdict_of_last : Config → ℕ → Reply → Verdict
  unfolding is_due
  verdict_of_last g now nil = (true, none)
  verdict_of_last g now (failed err) = (false, some err)
  verdict_of_last g now (value text) = (is_due g now (rfc.parse text), none)

  module _ {S : Type 0} (redis : Redis S) where
    unfoldable pub should_run : Config → S → ℕ → String → Verdict
    unfolding verdict_of_exists verdict_of_last key
    should_run g s now name = elim g.mode [
      | once ↦ verdict_of_exists (redis.exists s now (key g name))
      | interval ↦ verdict_of_last g now (redis.get s now (key g name))
    ]

    unfoldable pub lifetime : Config → ℕ
    lifetime g = elim g.mode [ once ↦ g.ttl | interval ↦ g.min_age ]

    unfoldable pub stored : S → Option S → S × Option String
    stored s (some t) = (t, none)
    stored s none = (s, some "set")

    -- At the time `now`, an outcome of a run that started before.
    unfoldable pub record_run : Config → S → ℕ → String → RunOutcome → S × Option String
    unfolding stored lifetime key
    record_run g s now name outcome =
        if outcome.success
        then stored s (redis.set s now (key g name) (rfc.format outcome.started) (lifetime g))
        else (s, none)

    -- The gate as the runner calls it, at the time that `clock` tells.
    abbrev pub gate_ops : Config → (S → ℕ) → RunGate S
    gate_ops g clock = record {
      should_run =
          λ s name. let verdict = should_run g s (clock s) name in (s, verdict.0, verdict.1);
      record_run = λ s name outcome. record_run g s (clock s) name outcome;
    }

-- Always.
abbrev pub always : {W : Type 0} → RunGate W
always = record { should_run = λ w name. (w, true, none); record_run = λ w name outcome. (w, none) }
