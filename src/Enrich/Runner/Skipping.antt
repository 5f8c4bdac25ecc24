-- ===== src/Enrich/Runner/Skipping.antt =====
-- Which sources Run runs, and what stops it (internal/enrich/runner.go).
use go_dota.Base.{
  ℕ, suc, ◌≡◌, refl, ap, ◌∙◌, Bool, true, false, ◌&&◌, Option, none, some, List, [], ◌∷◌, ◌++◌,
  String, Option-cases, Bool-cases, inl, inr, if◌then◌else◌,
}
use mathlib.Core.List.{append-nil, append_assoc}
use go_dota.Enrich.Sorting.{RunSource}
use go_dota.Enrich.Runner.{RunGate, unless_ended, unless_error, after_run, run_one, run_sources}

-- How many sources the gate was asked about, and the names of those that ran.
abbrev pub World : Type 0
World = ℕ × List String

-- A gate that lets the `allowed` sources run, may report an error beside, and may fail to record; a
-- source ends as `fails` says, and the context as `ended` says, by how many sources it has seen.
module _ (allowed : String → Bool) (gate_error record_error : String → Option String)
    (fails : RunSource → Option String) (ended : ℕ → Option String) where
  abbrev pub doorman : RunGate World
  doorman = record {
    should_run = λ w name. ((suc w.0, w.1), allowed name, gate_error name);
    record_run = λ w name outcome. (w, record_error name);
  }

  abbrev pub runs : World → RunSource → World × Option String
  runs w s = ((w.0, w.1 ++ s.name ∷ []), fails s)

  -- The error of a source that ends Run.
  abbrev pub fatal : RunSource → Option String
  fatal s = if allowed s.name && s.critical then fails s else none

  abbrev pub first : Option String → Option String → Option String
  first none later = later
  first (some err) later = some err

  abbrev pub unless : Option String → List String → List String
  unless none later = later
  unless (some err) later = []

  -- From the source at place `i` on.
  abbrev pub first_error : ℕ → List RunSource → Option String
  first_error i [] = none
  first_error i (s ∷ ss) = first (ended i) (first (fatal s) (first_error (suc i) ss))

  -- The allowed sources, up to the first at which Run ends.
  abbrev pub reached : ℕ → List RunSource → List String
  reached i [] = []
  reached i (s ∷ ss) =
      let behind = unless (fatal s) (reached (suc i) ss) in
      unless (ended i) (if allowed s.name then s.name ∷ behind else behind)

  abbrev pub ran : World × Option String → List String × Option String
  ran r = (r.0.1, r.1)

  after_run-fails :
      (clock : ℕ) (w : World) (s : RunSource)
      → after_run doorman s clock (runs w s)
        ≡ ((w.0, w.1 ++ s.name ∷ []), if s.critical then fails s else none)
  unfolding after_run
  after_run-fails clock w s = elim (Option-cases (fails s)) [
    | inl fine ↦ rw fine (elim (Bool-cases s.critical) [ inl e ↦ rw e refl | inr e ↦ rw e refl ])
    | inr (err, broken) ↦ rw broken refl
  ]

  run_one-fatal :
      (clock : World → ℕ) (w : World) (s : RunSource)
      → run_one doorman runs clock w s
        ≡ ((suc w.0, if allowed s.name then w.1 ++ s.name ∷ [] else w.1), fatal s)
  unfolding run_one
  run_one-fatal clock w s =
      rw (after_run-fails (clock (suc w.0, w.1)) (suc w.0, w.1) s)
        (elim (Bool-cases (allowed s.name)) [ inl e ↦ rw e refl | inr e ↦ rw e refl ])

  unless-append :
      (b : Bool) (w : List String) (name : String) (o : Option String) (later : List String)
      → (if b then w ++ name ∷ [] else w) ++ unless o later
        ≡ w ++ (if b then name ∷ unless o later else unless o later)
  unless-append true w name o later = append_assoc w (name ∷ []) (unless o later)
  unless-append false w name o later = refl

  -- Run runs the allowed sources in their order, whether or not the gate reports an error beside its
  -- answer or fails to record, and goes on behind a source that fails and is not critical. It ends
  -- before a source at which the context has ended, with the context's error, or at the first
  -- allowed critical source that fails, with its error; and else without an error.
  pub run-reached :
      (clock : World → ℕ) (w : World) (ss : List RunSource)
      → ran (run_sources doorman runs clock (λ v. ended v.0) w ss)
        ≡ (w.1 ++ reached w.0 ss, first_error w.0 ss)
  unfolding run_sources unless_ended unless_error
  run-reached clock w [] = cc (append-nil w.1)
  run-reached clock w (s ∷ ss) = started (λ v. run-reached clock v ss) (ended w.0)
    where
      onward :
          (v : World) (o : Option String)
          → ran (run_sources doorman runs clock (λ x. ended x.0) v ss)
            ≡ (v.1 ++ reached v.0 ss, first_error v.0 ss)
          → ran (unless_error (v, o) (λ u. run_sources doorman runs clock (λ x. ended x.0) u ss))
            ≡ (v.1 ++ unless o (reached v.0 ss), first o (first_error v.0 ss))
      onward v none ih = ih
      onward v (some err) ih = cc (append-nil v.1)

      started :
          ((v : World)
            → ran (run_sources doorman runs clock (λ x. ended x.0) v ss)
              ≡ (v.1 ++ reached v.0 ss, first_error v.0 ss))
          → (o : Option String)
          → ran (
              unless_ended o w (
                unless_error
                  (run_one doorman runs clock w s)
                  (λ v. run_sources doorman runs clock (λ x. ended x.0) v ss)))
            ≡ (
              w.1
                  ++ unless o (
                      if allowed s.name
                      then s.name ∷ unless (fatal s) (reached (suc w.0) ss)
                      else unless (fatal s) (reached (suc w.0) ss)),
              first o (first (fatal s) (first_error (suc w.0) ss)),
            )
      started ih (some err) = cc (append-nil w.1)
      started ih none =
          let after : World = (suc w.0, if allowed s.name then w.1 ++ s.name ∷ [] else w.1) in
          ap (λ r. ran (unless_error r (λ v. run_sources doorman runs clock (λ x. ended x.0) v ss)))
            (run_one-fatal clock w s)
          ∙ (onward after (fatal s) (ih after)
              ∙ ap (λ names. (names, first (fatal s) (first_error (suc w.0) ss)))
                  (unless-append (allowed s.name) w.1 s.name (fatal s) (reached (suc w.0) ss)))
