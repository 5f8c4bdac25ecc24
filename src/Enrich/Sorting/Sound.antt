-- ===== src/Enrich/Sorting/Sound.antt =====
-- What the search through the dependencies keeps (internal/enrich/runner.go, sortByDependencies).
use go_dota.Base.{
  ℕ, zero, suc, ◌<◌, ◌≡◌, refl, sym, subst, ◌∙◌, inl, inr, true, false, Option, none, some, List,
  [], ◌∷◌, String, Map, get, put, length, All, All-map, All-append, contains, contains-append,
  AreDistinct, snoc-AreDistinct, Bool-cases, Option-cases, if_ind, arith, eq_iff, string_eq, ◌==◌,
  if◌then◌else◌,
}
use go_dota.Enrich.Sorting.{
  RunSource, Search, flag, Visited, visited, cycle, out_of_fuel, after, visit_deps, enter, append,
  leave, visit_new, visit, visit_all,
}
use go_dota.Enrich.Sorting.Order.{
  names_of, names_of-append, IsNamed, flag-put, free, free-le, free_same, free-put-lt, IsMet,
  snoc-InOrder, DependsOn, has,
}
use go_dota.Enrich.Sorting.Outcomes.{
  IsSound, SameStack, StaysDone, Outcome, IsDone, IsHandled, VisitsWell, after-Outcome, and-Outcome,
  visit_deps-Outcome,
}

module _ (names : Map String RunSource) (named : IsNamed names) where
  -- What is done stands before.
  meet :
      (t : Search) (deps : List String)
      → IsSound names named t
      → All (IsHandled names named t) deps
      → All (IsMet names (names_of t.sorted)) deps
  meet t deps sound all =
      All-map (IsHandled names named t) (IsMet names (names_of t.sorted)) one deps all
    where
      one : (dep : String) → IsHandled names named t dep → IsMet names (names_of t.sorted) dep
      one dep (inl unknown) = inl unknown
      one dep (inr e) = inr (sym (sound.0 dep) ∙ e)

  append-IsSound :
      (t : Search) (source : RunSource) (name : String)
      → get names name ≡ some source
      → IsSound names named t
      → All (IsHandled names named t) source.depends_on
      → IsSound names named (append names t source name)
        × IsDone names named name (append names t source name)
  unfolding append contains
  append-IsSound t source name known sound all = elim (Bool-cases (flag t.done name)) [
    | inl e ↦ rw e (sound, e)
    | inr e ↦ rw e (
      (
        (λ n. ground (
          arith,
          flag-put t.done name true n,
          sound.0 n,
          named name source known,
          names_of-append t.sorted (source ∷ []),
          contains-append (names_of t.sorted) (source.name ∷ []) n,
        )),
        subst AreDistinct (sym (names_of-append t.sorted (source ∷ []))) (
            snoc-AreDistinct (names_of t.sorted) source.name
              (ground (arith, sound.0 name, named name source known)) sound.1),
        snoc-InOrder names [] t.sorted source sound.2 (meet t source.depends_on sound all),
        All-append (λ x. get names x.name ≡ some x) t.sorted (source ∷ []) sound.3
            (ground (arith, named name source known), tt),
      ),
      ground (arith, flag-put t.done name true name, eq_iff name name),
    )
  ]

  append-StaysDone :
      (t : Search) (source : RunSource) (name : String)
      → StaysDone names named t (append names t source name)
  unfolding append
  append-StaysDone t source name n e = ground (arith, flag-put t.done name true n)

  append-stack :
      (t : Search) (source : RunSource) (name : String)
      → (append names t source name).in_stack ≡ t.in_stack
  unfolding append
  append-stack t source name = ground arith

  directly-All :
      (name : String) (source : RunSource)
      → get names name ≡ some source
      → (deps : List String)
      → ((dep : String) → contains deps dep ≡ true → contains source.depends_on dep ≡ true)
      → All (λ dep. DependsOn names name dep) deps
  unfolding contains
  directly-All name source known [] h = tt
  directly-All name source known (dep ∷ deps) h = (
    DependsOn.directly name dep source known (h dep (ground (arith, eq_iff dep dep))),
    directly-All name source known deps (λ d e. h d (ground arith)),
  )

  finish :
      (s : Search) (name : String) (source : RunSource)
      → get names name ≡ some source
      → flag s.in_stack name ≡ false
      → (v : Visited)
      → Outcome names named
          (enter names s name)
          (λ t. All (IsHandled names named t) source.depends_on)
          v
      → Outcome names named s
          (IsDone names named name)
          (after v (λ t. visited (leave names (append names t source name) name)))
  unfolding after leave enter
  finish s name source known off (visited t) (sound, same, done, all) = (
    (append-IsSound t source name known sound all).0,
    (λ n. ground (
      arith,
      flag-put (append names t source name).in_stack name false n,
      same n,
      eq_iff name n,
      flag-put s.in_stack name true n,
      append-stack t source name,
    )),
    (λ n e. append-StaysDone t source name n (done n e)),
    (append-IsSound t source name known sound all).1,
  )
  finish s name source known off (cycle n) c = c
  finish s name source known off out_of_fuel c = c

  -- A visit of a source that is neither done nor on the stack.
  visit_new-Outcome :
      (go : Search → String → Visited) (s : Search) (name : String) (source : RunSource)
      → get names name ≡ some source
      → flag s.in_stack name ≡ false
      → IsSound names named s
      → VisitsWell names named (enter names s name) (λ dep. DependsOn names name dep) go
      → Outcome names named s (IsDone names named name) (visit_new names go s name)
  unfolding visit_new
  visit_new-Outcome go s name source known off sound well = either (get names name) refl
    where
      either :
          (o : Option RunSource)
          → get names name ≡ o
          → Outcome names named s (IsDone names named name) (elim o [
            | none ↦ visited (leave names (enter names s name) name)
            | some found ↦
                after
                  (visit_deps names go (enter names s name) found.depends_on)
                  (λ t. visited (leave names (append names t found name) name))
          ])
      either none e = ground arith
      either (some found) e =
          finish s name found e off (visit_deps names go (enter names s name) found.depends_on) (
            visit_deps-Outcome names named (enter names s name) (λ dep. DependsOn names name dep) go
              well (enter names s name) found.depends_on sound (λ n. refl)
              (directly-All name found e found.depends_on (λ d h. h)))

  below :
      (s t : Search) (name dep j : String)
      → SameStack names named (enter names s name) t
      → DependsOn names name dep
      → flag t.in_stack j ≡ true
      → (flag s.in_stack j ≡ true → DependsOn names j name)
      → DependsOn names j dep
  unfolding enter
  below s t name dep j same dependence on above = elim (Bool-cases (name == j)) [
    | inl e ↦ subst (λ k. DependsOn names k dep) ((eq_iff name j).0 e) dependence
    | inr e ↦
        DependsOn.through (above (ground (arith, same j, flag-put s.in_stack name true j)))
          dependence
  ]

  module _ (sources : List RunSource)
      (from_sources : (name : String) → has names name ≡ contains (names_of sources) name) where
    deeper :
        (s t : Search) (name : String) (source : RunSource)
        → get names name ≡ some source
        → flag s.in_stack name ≡ false
        → SameStack names named (enter names s name) t
        → free t.in_stack sources < free s.in_stack sources
    unfolding enter
    deeper s t name source known off same = ground (
      arith,
      free_same t.in_stack (put s.in_stack name true) sources same,
      free-put-lt s.in_stack name sources,
      from_sources name,
    )

    -- With more fuel than there are sources off the stack, where each name on the stack depends on
    -- the one that is visited.
    pub visit-Outcome :
        (fuel : ℕ) (s : Search) (name : String) (source : RunSource)
        → free s.in_stack sources < fuel
        → get names name ≡ some source
        → IsSound names named s
        → ((j : String) → flag s.in_stack j ≡ true → DependsOn names j name)
        → Outcome names named s (IsDone names named name) (visit names fuel s name)
    unfolding visit
    visit-Outcome zero s name source lt known sound above = ground arith
    visit-Outcome (suc fuel) s name source lt known sound above =
        if_ind (Outcome names named s (IsDone names named name)) (flag s.done name) (visited s)
          (if flag s.in_stack name then cycle name else visit_new names (visit names fuel) s name)
          (λ e. (sound, (λ n. refl), (λ n d. d), e))
          (λ e.
            if_ind (Outcome names named s (IsDone names named name)) (flag s.in_stack name)
              (cycle name) (visit_new names (visit names fuel) s name) (λ on. above name on)
              (λ off.
                visit_new-Outcome (visit names fuel) s name source known off sound
                  (λ t dep target sound' same dependence known'.
                    visit-Outcome fuel t dep target
                      (omega (arith, deeper s t name source known off same)) known' sound'
                      (λ j on. below s t name dep j same dependence on (above j)))))

    entry :
        (name : String)
        → contains (names_of sources) name ≡ true
        → (source : RunSource) × (get names name ≡ some source)
    entry name e = elim (Option-cases (get names name)) [
      | inl unknown ↦ ground (arith, from_sources name)
      | inr found ↦ found
    ]

    -- The loop over the sources, from an empty stack.
    pub visit_all-Outcome :
        (fuel : ℕ) (s : Search) (ss : List RunSource)
        → length sources < fuel
        → IsSound names named s
        → ((j : String) → flag s.in_stack j ≡ false)
        → ((name : String)
            → contains (names_of ss) name ≡ true
            → contains (names_of sources) name ≡ true)
        → Outcome names named s
            (λ t. All (λ x. IsDone names named x.name t) ss)
            (visit_all names fuel s ss)
    unfolding visit_all contains
    visit_all-Outcome fuel s [] lt sound off among = (sound, (λ n. refl), (λ n d. d), tt)
    visit_all-Outcome fuel s (x ∷ xs) lt sound off among =
        after-Outcome names named s (IsDone names named x.name)
          (λ t. All (λ y. IsDone names named y.name t) (x ∷ xs)) (visit names fuel s x.name)
          (λ t. visit_all names fuel t xs)
          (visit-Outcome fuel s x.name (entry x.name wanted).0
            (omega (arith, free-le s.in_stack sources, lt)) (entry x.name wanted).1 sound
            (λ j on. ground (arith, off j)))
          (λ t sound' same done fin.
            and-Outcome names named t (λ u. All (λ y. IsDone names named y.name u) xs)
              (λ u. All (λ y. IsDone names named y.name u) (x ∷ xs)) (visit_all names fuel t xs)
              (λ u done all. (done x.name fin, all))
              (visit_all-Outcome fuel t xs lt sound' (λ j. same j ∙ off j)
                (λ n e. among n (ground arith))))
      where
        wanted : contains (names_of sources) x.name ≡ true
        wanted = among x.name (ground (arith, eq_iff x.name x.name))
