-- ===== src/Enrich/Sorting/Result.antt =====
-- What sortByDependencies returns (internal/enrich/runner.go).
use go_dota.Base.{
  suc, ◌≡◌, refl, sym, ◌∙◌, Bool, true, false, some, List, [], ◌∷◌, String, get, length, All,
  contains, AreDistinct, inl, inr, Bool-cases, arith, eq_iff, string_eq, ◌==◌,
}
use go_dota.Enrich.Sorting.{
  RunSource, Search, name_map, flag_of, flag, Visited, visited, cycle, out_of_fuel, visit_all,
  blank, sort_by_dependencies,
}
use go_dota.Enrich.Sorting.Order.{names_of, name_map-IsNamed, name_map-has, InOrder, DependsOn}
use go_dota.Enrich.Sorting.Outcomes.{IsDone, Outcome}
use go_dota.Enrich.Sorting.Sound.{visit_all-Outcome}

abbrev pub IsSorting : List RunSource → Visited → Type 0
IsSorting sources (visited s) =
    AreDistinct (names_of s.sorted)
    × InOrder (name_map sources) [] s.sorted
    × ((name : String) → contains (names_of s.sorted) name ≡ contains (names_of sources) name)
    × All (λ x. get (name_map sources) x.name ≡ some x) s.sorted
IsSorting sources (cycle name) = DependsOn (name_map sources) name name
IsSorting sources out_of_fuel = ⊥

-- A name of the sources in `ss` is done, when they are.
done_among :
    (s : Search) (ss : List RunSource)
    → All (λ x. flag s.done x.name ≡ true) ss
    → (name : String) → contains (names_of ss) name ≡ true
    → flag s.done name ≡ true
unfolding contains
done_among s [] h name e = ground arith
done_among s (x ∷ xs) h name e = elim (Bool-cases (x.name == name)) [
  | inl same ↦ ground (arith, eq_iff x.name name)
  | inr other ↦ done_among s xs h.1 name (ground arith)
]

known_among :
    (sources ss : List RunSource)
    → All (λ x. get (name_map sources) x.name ≡ some x) ss
    → (name : String) → contains (names_of ss) name ≡ true
    → contains (names_of sources) name ≡ true
unfolding contains
known_among sources [] h name e = ground arith
known_among sources (x ∷ xs) h name e = elim (Bool-cases (x.name == name)) [
  | inl same ↦ ground (arith, eq_iff x.name name, name_map-has sources x.name)
  | inr other ↦ known_among sources xs h.1 name (ground arith)
]

bool_ext : (a b : Bool) → (a ≡ true → b ≡ true) → (b ≡ true → a ≡ true) → a ≡ b
bool_ext true b f g = sym (f refl)
bool_ext false true f g = g refl
bool_ext false false f g = refl

sorting :
    (sources : List RunSource) (v : Visited)
    → Outcome
        (name_map sources)
        (name_map-IsNamed sources)
        blank
        (λ t. All (λ x. IsDone (name_map sources) (name_map-IsNamed sources) x.name t) sources)
        v
    → IsSorting sources v
sorting sources (visited t) (sound, same, done, all) = (
  sound.1,
  sound.2,
  (λ n.
      bool_ext (contains (names_of t.sorted) n) (contains (names_of sources) n)
        (known_among sources t.sorted sound.3 n)
        (λ e. sym (sound.0 n) ∙ done_among t sources all n e)),
  sound.3,
)
sorting sources (cycle name) c = c
sorting sources out_of_fuel c = c

-- The sort always ends, with one of two results. Either it returns the sources: each name once, the
-- same names as those given, under each name the source that was given last, and each source behind
-- all those it depends on that were given. Or it reports a cycle, at a source that does depend on
-- itself, at once or through others.
pub sort-IsSorting : (sources : List RunSource) → IsSorting sources (sort_by_dependencies sources)
unfolding sort_by_dependencies flag flag_of get contains
sort-IsSorting sources =
    sorting sources (visit_all (name_map sources) (suc (length sources)) blank sources) (
      visit_all-Outcome (name_map sources) (name_map-IsNamed sources) sources (name_map-has sources)
        (suc (length sources)) blank sources (omega arith) ((λ n. refl), tt, tt, tt) (λ n. refl)
        (λ n e. e))

-- When no source depends on itself, at once or through others, the sort succeeds.
pub sort_acyclic :
    (sources : List RunSource)
    → ((name : String) → DependsOn (name_map sources) name name → ⊥)
    → (s : Search) × (sort_by_dependencies sources ≡ visited s)
sort_acyclic sources acyclic = result (sort_by_dependencies sources) (sort-IsSorting sources)
  where
    result : (v : Visited) → IsSorting sources v → (s : Search) × (v ≡ visited s)
    result (visited s) h = (s, refl)
    result (cycle name) h = elim (acyclic name h) [ ]
    result out_of_fuel h = elim h [ ]
