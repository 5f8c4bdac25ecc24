-- ===== src/Enrich/Sorting/Order.antt =====
-- Orders in which the sources may run (internal/enrich/runner.go, sortByDependencies), and what the
-- maps of the search hold.
use go_dota.Base.{
  ℕ, ◌+◌, ◌≤◌, ◌<◌, ◌≡◌, refl, sym, subst, ◌⊎◌, inl, inr, Bool, true, false, ◌||◌, none, some, List,
  [], ◌∷◌, ◌++◌, String, Map, get, put, length, All, contains, get-put, Bool-cases, arith, eq_iff,
  string_eq, ◌==◌, if◌then◌else◌,
}
use mathlib.Core.List.{append-nil, append_assoc}
use go_dota.Enrich.Sorting.{RunSource, name_map_from, name_map, flag_of, flag}

abbrev pub names_of : List RunSource → List String
names_of [] = []
names_of (s ∷ ss) = s.name ∷ names_of ss

pub names_of-append : (xs ys : List RunSource) → names_of (xs ++ ys) ≡ names_of xs ++ names_of ys
names_of-append [] ys = refl
names_of-append (x ∷ xs) ys = rw (names_of-append xs ys)

abbrev pub has : Map String RunSource → String → Bool
has m name = elim (get m name) [ none ↦ false | some s ↦ true ]

-- Each entry is the source of its name.
abbrev pub IsNamed : Map String RunSource → Type 0
IsNamed m = (name : String) (s : RunSource) → get m name ≡ some s → s.name ≡ name

put-IsNamed : (m : Map String RunSource) (s : RunSource) → IsNamed m → IsNamed (put m s.name s)
put-IsNamed m s h name r e = ground (arith, get-put m s.name s name, h name r, eq_iff s.name name)

name_map_from-IsNamed :
    (m : Map String RunSource) (ss : List RunSource) → IsNamed m → IsNamed (name_map_from m ss)
unfolding name_map_from
name_map_from-IsNamed m [] h = h
name_map_from-IsNamed m (s ∷ ss) h = name_map_from-IsNamed (put m s.name s) ss (put-IsNamed m s h)

pub name_map-IsNamed : (ss : List RunSource) → IsNamed (name_map ss)
unfolding name_map get
name_map-IsNamed ss = name_map_from-IsNamed [] ss (λ name s e. ground arith)

name_map_from-has :
    (m : Map String RunSource) (ss : List RunSource) (name : String)
    → has (name_map_from m ss) name ≡ (has m name || contains (names_of ss) name)
unfolding name_map_from contains
name_map_from-has m [] name = ground arith
name_map_from-has m (s ∷ ss) name =
    ground (arith, name_map_from-has (put m s.name s) ss name, get-put m s.name s name)

-- A name has an entry when it is the name of a source.
pub name_map-has :
    (ss : List RunSource) (name : String) → has (name_map ss) name ≡ contains (names_of ss) name
unfolding name_map get
name_map-has ss name = ground (arith, name_map_from-has [] ss name)

pub flag-put :
    (m : Map String Bool) (k : String) (b : Bool) (j : String)
    → flag (put m k b) j ≡ (if k == j then b else flag m j)
unfolding flag flag_of
flag-put m k b j = ground (arith, get-put m k b j)

-- How many sources are not on the stack.
abbrev pub free : Map String Bool → List RunSource → ℕ
free stack [] = 0
free stack (s ∷ ss) = (if flag stack s.name then 0 else 1) + free stack ss

pub free-le : (stack : Map String Bool) (ss : List RunSource) → free stack ss ≤ length ss
free-le stack [] = omega arith
free-le stack (s ∷ ss) = ground (arith, free-le stack ss)

pub free_same :
    (a b : Map String Bool) (ss : List RunSource)
    → ((name : String) → flag a name ≡ flag b name)
    → free a ss ≡ free b ss
free_same a b [] h = refl
free_same a b (s ∷ ss) h = ground (arith, free_same a b ss h, h s.name)

free-put-le :
    (stack : Map String Bool) (name : String) (ss : List RunSource)
    → free (put stack name true) ss ≤ free stack ss
free-put-le stack name [] = omega arith
free-put-le stack name (s ∷ ss) =
    ground (arith, free-put-le stack name ss, flag-put stack name true s.name)

-- Each name that goes on the stack leaves one source less.
pub free-put-lt :
    (stack : Map String Bool) (name : String) (ss : List RunSource)
    → contains (names_of ss) name ≡ true
    → flag stack name ≡ false
    → free (put stack name true) ss < free stack ss
unfolding contains
free-put-lt stack name [] h f = ground arith
free-put-lt stack name (s ∷ ss) h f = elim (Bool-cases (s.name == name)) [
  | inl e ↦ ground (
    arith,
    free-put-le stack name ss,
    flag-put stack name true s.name,
    eq_iff s.name name,
    eq_iff name s.name,
  )
  | inr e ↦ ground (arith, free-put-lt stack name ss, flag-put stack name true s.name)
]

module _ (names : Map String RunSource) where
  -- A dependency is met when no source has its name, or one that stands before.
  abbrev pub IsMet : List String → String → Type 0
  IsMet before dep = (get names dep ≡ none) ⊎ (contains before dep ≡ true)

  -- Behind the sources named in `before`, each source stands behind those that it depends on.
  abbrev pub InOrder : List String → List RunSource → Type 0
  InOrder before [] = Unit
  InOrder before (s ∷ ss) = All (IsMet before) s.depends_on × InOrder (before ++ s.name ∷ []) ss

  pub snoc-InOrder :
      (before : List String) (ss : List RunSource) (s : RunSource)
      → InOrder before ss
      → All (IsMet (before ++ names_of ss)) s.depends_on
      → InOrder before (ss ++ s ∷ [])
  snoc-InOrder before [] s h met =
      (subst (λ l. All (IsMet l) s.depends_on) (append-nil before) met, tt)
  snoc-InOrder before (x ∷ xs) s h met = (
    h.0,
    snoc-InOrder (before ++ x.name ∷ []) xs s h.1 (
        subst (λ l. All (IsMet l) s.depends_on)
          (sym (append_assoc before (x.name ∷ []) (names_of xs))) met),
  )

  -- `a` depends on `b`, at once or through other sources.
  pub data DependsOn : String → String → Type 0 where
    directly :
        (a b : String) (s : RunSource)
        → get names a ≡ some s
        → contains s.depends_on b ≡ true
        → DependsOn a b
    through : {a b c : String} → DependsOn a b → DependsOn b c → DependsOn a c
