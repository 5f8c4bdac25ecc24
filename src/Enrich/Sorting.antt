-- ===== src/Enrich/Sorting.antt =====
-- internal/enrich/runner.go, sortByDependencies: the sources in an order in which each stands behind
-- those it depends on. Logs are left out.
pub mod Order
pub mod Outcomes
pub mod Sound
pub mod Result
mod Examples
use go_dota.Base.{
  ℕ, zero, suc, Bool, true, false, not, Option, none, some, List, [], ◌∷◌, ◌++◌, String, Map, get,
  put, delete, length, string_eq, ◌==◌, if◌then◌else◌,
}

-- What a RunSource says of itself; what it does is a parameter of the runner.
pub record RunSource : Type 0 where
  pub name : String
  pub critical : Bool
  pub depends_on : List String

-- nameMap, which in the code goes through the index of the source: of two sources with one name the
-- last counts.
unfoldable pub name_map_from : Map String RunSource → List RunSource → Map String RunSource
unfolding put
name_map_from m [] = m
name_map_from m (s ∷ ss) = name_map_from (put m s.name s) ss

unfoldable pub name_map : List RunSource → Map String RunSource
unfolding name_map_from
name_map ss = name_map_from [] ss

-- A name that has no entry reads as false.
unfoldable pub flag_of : Option Bool → Bool
flag_of none = false
flag_of (some b) = b

unfoldable pub flag : Map String Bool → String → Bool
unfolding flag_of get
flag m name = flag_of (get m name)

pub record Search : Type 0 where
  pub sorted : List RunSource
  pub skipped : List String
  pub in_stack : Map String Bool
  pub done : Map String Bool

pub data Visited : Type 0 where
  visited : Search → Visited
  cycle : String → Visited
  out_of_fuel : Visited

-- What follows a call that may report a cycle.
unfoldable pub after : Visited → (Search → Visited) → Visited
after (visited s) next = next s
after (cycle name) next = cycle name
after out_of_fuel next = out_of_fuel

module _ (names : Map String RunSource) where
  -- The loop over the dependencies; `go` visits one that has an entry.
  unfoldable pub visit_deps : (Search → String → Visited) → Search → List String → Visited
  unfolding after get
  visit_deps go s [] = visited s
  visit_deps go s (dep ∷ deps) = elim (get names dep) [
    | none ↦ visit_deps go (record s { skipped = s.skipped ++ dep ∷ [] }) deps
    | some source ↦ after (go s dep) (λ t. visit_deps go t deps)
  ]

  unfoldable pub enter : Search → String → Search
  unfolding put
  enter s name = record s { in_stack = put s.in_stack name true }

  unfoldable pub append : Search → RunSource → String → Search
  unfolding put flag
  append s source name =
      if flag s.done name
      then s
      else record s { sorted = s.sorted ++ source ∷ []; done = put s.done name true }

  unfoldable pub leave : Search → String → Search
  unfolding put
  leave s name = record s { in_stack = put s.in_stack name false }

  unfoldable pub visit_new : (Search → String → Visited) → Search → String → Visited
  unfolding visit_deps enter append leave after get
  visit_new go s name = elim (get names name) [
    | none ↦ visited (leave (enter s name) name)
    | some source ↦
        after (visit_deps go (enter s name) source.depends_on)
          (λ t. visited (leave (append t source name) name))
  ]

  unfoldable pub visit : ℕ → Search → String → Visited
  unfolding visit_new flag
  visit zero s name = out_of_fuel
  visit (suc fuel) s name =
      let new = visit_new (visit fuel) s name in
      if flag s.done name then visited s else if flag s.in_stack name then cycle name else new

  unfoldable pub visit_all : ℕ → Search → List RunSource → Visited
  unfolding visit after
  visit_all fuel s [] = visited s
  visit_all fuel s (source ∷ ss) = after (visit fuel s source.name) (λ t. visit_all fuel t ss)

abbrev pub blank : Search
blank = record { sorted = []; skipped = []; in_stack = []; done = [] }

-- The stack holds distinct names of sources, so that no visit is deeper than there are sources.
unfoldable pub sort_by_dependencies : List RunSource → Visited
unfolding visit_all name_map
sort_by_dependencies sources = visit_all (name_map sources) (suc (length sources)) blank sources
