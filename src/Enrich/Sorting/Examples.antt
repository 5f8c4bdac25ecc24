-- ===== src/Enrich/Sorting/Examples.antt =====
-- Sorting concrete sources.
use go_dota.Base.{
  ◌≡◌, refl, arith, true, String, List, [], ◌∷◌, contains, get, delete, put, string_eq,
}
use go_dota.Enrich.Sorting.{
  RunSource, visited, cycle, Visited, name_map, name_map_from, flag, flag_of, after, visit_deps,
  enter, append, leave, visit_new, visit, visit_all, sort_by_dependencies,
}
use go_dota.Enrich.Sorting.Order.{names_of, DependsOn, directly, through}
use go_dota.Enrich.Sorting.Result.{IsSorting, sort-IsSorting}

abbrev source : String → List String → RunSource
source name deps = record { name = name; critical = true; depends_on = deps }

abbrev result : Visited → List String
result (visited s) = names_of s.sorted
result (cycle n) = "cycle" ∷ n ∷ []
result Visited.out_of_fuel = []

abbrev three : List RunSource
three = source "a" ("b" ∷ "x" ∷ []) ∷ source "b" ("c" ∷ []) ∷ source "c" [] ∷ []

abbrev circle : List RunSource
circle = source "a" ("b" ∷ []) ∷ source "b" ("a" ∷ []) ∷ []

backwards : result (sort_by_dependencies three) ≡ "c" ∷ "b" ∷ "a" ∷ []
unfolding sort_by_dependencies visit_all visit visit_new visit_deps after enter append leave flag
    flag_of name_map name_map_from get put delete
backwards = refl

round : result (sort_by_dependencies circle) ≡ "cycle" ∷ "a" ∷ []
unfolding sort_by_dependencies visit_all visit visit_new visit_deps after enter append leave flag
    flag_of name_map name_map_from get put delete
round = refl

sort-IsSorting_example : IsSorting three (sort_by_dependencies three)
sort-IsSorting_example = sort-IsSorting three

abbrev lone : List RunSource
lone = source "c" [] ∷ []

lone_free : {a b : String} → DependsOn (name_map lone) a b → ⊥
unfolding name_map name_map_from put delete get contains
lone_free (directly a b s e h) = ground arith
lone_free (through d d') = lone_free d
