-- ===== src/Enrich/Sorting/Outcomes.antt =====
-- The outcome of a search through the dependencies of one source (internal/enrich/runner.go, sortByDependencies).
use go_dota.Base.{
  ◌≡◌, refl, ◌∙◌, ◌⊎◌, inl, inr, true, Option, none, some, List, [], ◌∷◌, ◌++◌, String, Map, get,
  All, contains, AreDistinct, string_eq,
}
use go_dota.Enrich.Sorting.{
  RunSource, Search, flag, Visited, visited, cycle, out_of_fuel, after, visit_deps,
}
use go_dota.Enrich.Sorting.Order.{names_of, IsNamed, InOrder, DependsOn}

module _ (names : Map String RunSource) (named : IsNamed names) where
  -- The sorted sources are those that are done, each once, and in order.
  abbrev pub IsSound : Search → Type 0
  IsSound s =
      ((name : String) → flag s.done name ≡ contains (names_of s.sorted) name)
      × AreDistinct (names_of s.sorted)
      × InOrder names [] s.sorted
      × All (λ x. get names x.name ≡ some x) s.sorted

  abbrev pub SameStack : Search → Search → Type 0
  SameStack s t = (name : String) → flag t.in_stack name ≡ flag s.in_stack name

  abbrev pub StaysDone : Search → Search → Type 0
  StaysDone s t = (name : String) → flag s.done name ≡ true → flag t.done name ≡ true

  -- A visit from `s` ends in a sound state with `P`, or has found a source that depends on itself.
  abbrev pub Outcome : Search → (Search → Type 0) → Visited → Type 0
  Outcome s P (visited t) = IsSound t × SameStack s t × StaysDone s t × P t
  Outcome s P (cycle name) = DependsOn names name name
  Outcome s P out_of_fuel = ⊥

  abbrev pub IsDone : String → Search → Type 0
  IsDone name t = flag t.done name ≡ true

  abbrev pub IsHandled : Search → String → Type 0
  IsHandled t dep = (get names dep ≡ none) ⊎ (flag t.done dep ≡ true)

  pub after-Outcome :
      (s : Search) (P Q : Search → Type 0) (v : Visited) (next : Search → Visited)
      → Outcome s P v
      → ((t : Search) → IsSound t → SameStack s t → StaysDone s t → P t → Outcome t Q (next t))
      → Outcome s Q (after v next)
  unfolding after
  after-Outcome s P Q (visited t) next (sound, same, done, p) h =
      onward (next t) (h t sound same done p)
    where
      onward : (v : Visited) → Outcome t Q v → Outcome s Q v
      onward (visited u) (sound', same', done', q) =
          (sound', λ n. same' n ∙ same n, λ n e. done' n (done n e), q)
      onward (cycle name) c = c
      onward out_of_fuel c = c
  after-Outcome s P Q (cycle name) next c h = c
  after-Outcome s P Q out_of_fuel next c h = c

  -- What is asked of the visits of single dependencies, from states with the stack of `s`.
  abbrev pub VisitsWell : Search → (String → Type 0) → (Search → String → Visited) → Type 0
  VisitsWell s Wanted go =
      (t : Search) (dep : String) (source : RunSource)
      → IsSound t
      → SameStack s t
      → Wanted dep
      → get names dep ≡ some source
      → Outcome t (IsDone dep) (go t dep)

  handle-StaysDone :
      (t u : Search) (dep : String) → StaysDone t u → IsHandled t dep → IsHandled u dep
  handle-StaysDone t u dep done (inl unknown) = inl unknown
  handle-StaysDone t u dep done (inr e) = inr (done dep e)

  pub skip-Outcome :
      (t : Search) (dep : String) (deps : List String) (v : Visited)
      → get names dep ≡ none
      → Outcome (record t { skipped = t.skipped ++ dep ∷ [] }) (λ u. All (IsHandled u) deps) v
      → Outcome t (λ u. All (IsHandled u) (dep ∷ deps)) v
  skip-Outcome t dep deps (visited u) e (sound, same, done, all) = (sound, same, done, (inl e, all))
  skip-Outcome t dep deps (cycle name) e c = c
  skip-Outcome t dep deps out_of_fuel e c = c

  pub and-Outcome :
      (t : Search) (P Q : Search → Type 0) (v : Visited)
      → ((u : Search) → StaysDone t u → P u → Q u)
      → Outcome t P v
      → Outcome t Q v
  and-Outcome t P Q (visited u) f (sound, same, done, p) = (sound, same, done, f u done p)
  and-Outcome t P Q (cycle name) f c = c
  and-Outcome t P Q out_of_fuel f c = c

  pub visit_deps-Outcome :
      (s : Search) (Wanted : String → Type 0) (go : Search → String → Visited)
      → VisitsWell s Wanted go
      → (t : Search) (deps : List String) → IsSound t
      → SameStack s t
      → All Wanted deps
      → Outcome t (λ u. All (IsHandled u) deps) (visit_deps names go t deps)
  unfolding visit_deps
  visit_deps-Outcome s Wanted go well t [] sound same wanted = (sound, (λ n. refl), (λ n e. e), tt)
  visit_deps-Outcome s Wanted go well t (dep ∷ deps) sound same wanted =
      either (get names dep) refl (λ u h k. visit_deps-Outcome s Wanted go well u deps h k wanted.1)
    where
      either :
          (o : Option RunSource)
          → get names dep ≡ o
          → ((u : Search)
              → IsSound u
              → SameStack s u
              → Outcome u (λ w. All (IsHandled w) deps) (visit_deps names go u deps))
          → Outcome t
              (λ u. All (IsHandled u) (dep ∷ deps))
              (elim o [
                | none ↦ visit_deps names go (record t { skipped = t.skipped ++ dep ∷ [] }) deps
                | some source ↦ after (go t dep) (λ u. visit_deps names go u deps)
              ])
      either none e rest =
          skip-Outcome t dep deps
            (visit_deps names go (record t { skipped = t.skipped ++ dep ∷ [] }) deps) e
            (rest (record t { skipped = t.skipped ++ dep ∷ [] }) sound same)
      either (some source) e rest =
          after-Outcome t (IsDone dep) (λ u. All (IsHandled u) (dep ∷ deps)) (go t dep)
            (λ u. visit_deps names go u deps) (well t dep source sound same wanted.0 e)
            (λ u sound' same' done' fin.
              and-Outcome u (λ w. All (IsHandled w) deps) (λ w. All (IsHandled w) (dep ∷ deps))
                (visit_deps names go u deps) (λ w done all. (inr (done dep fin), all))
                (rest u sound' (λ n. same' n ∙ same n)))
