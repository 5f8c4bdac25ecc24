-- ===== src/Proxy/Loader/Examples.antt =====
-- A run over three proxies, in chunks of two.
use go_dota.Base.{◌≡◌, not, Bool, false, List, [], ◌∷◌, ◌++◌, String, Perm, arith, string_eq, ◌==◌}
use mathlib.Core.List.Perm
use go_dota.Proxy.Loader.{Config, filter, validate_and_publish_chunks}
use go_dota.Proxy.Loader.Publishing.{publishes_all, add_all}

abbrev pairs : Config
pairs = record { parallel = 20; chunk_size = 2; min_publish = 1 }

abbrev three_at_least : Config
three_at_least = record { parallel = 20; chunk_size = 2; min_publish = 3 }

abbrev proxies : List String
proxies = "a" ∷ "b" ∷ "c" ∷ []

abbrev not_b : String → Bool
not_b u = not (u == "b")

abbrev as_they_are : List String → List String
as_they_are us = us

publishes_all_example :
    Perm
      (validate_and_publish_chunks add_all pairs not_b as_they_are (λ i. false) [] proxies).healthy
      (filter not_b proxies)
    × ((validate_and_publish_chunks add_all pairs not_b as_they_are (λ i. false) [] proxies).pool
        ≡ []
          ++ (validate_and_publish_chunks add_all pairs not_b as_they_are
              (λ i. false)
              []
              proxies).healthy)
publishes_all_example =
    publishes_all pairs not_b as_they_are (omega arith) (λ xs. Perm.rfl) (omega arith) [] proxies
