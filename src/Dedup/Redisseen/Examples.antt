-- ===== src/Dedup/Redisseen/Examples.antt =====
-- Two calls for one key, over a set.
use go_dota.Base.{
  ℕ, nat_beq, subst, sym, not, ◌≤◌, ◌≡◌, refl, Bool, true, false, Option, some, List, [], ◌∷◌,
  String, contains, string_eq, if◌then◌else◌, arith, Bool-cases, inl, inr, eq_iff,
}
use go_dota.Dedup.Redisseen.{Config, Redis, Way, way_of, mark_in, mark_seen, of_count}
use go_dota.Dedup.Redisseen.Marks.{
  MemberLaws, Adds, Calls, starts, marks, first_marks, is_member, marks_once, some_inj,
}

abbrev add : List String → String → List String × ℕ
add s key = if contains s key then (s, 0) else (key ∷ s, 1)

abbrev small : Redis (List String)
small = record {
  bf_add = λ s key. some (add s key);
  bf_exists = λ s key. some (if contains s key then 1 else 0);
  sadd = λ s key. some (add s key);
  sismember = λ s key. some (contains s key);
  setnx = λ s key ttl. some ((add s key).0, not (contains s key));
  exists = λ s key. some (if contains s key then 1 else 0);
}

abbrev is_in : Way → List String → String → Bool
is_in w s key = contains s key

add-Adds : (s : List String) (key : String) → Adds contains s (add s key).0 key (contains s key)
unfolding contains
add-Adds s key = elim (Bool-cases (contains s key)) [
  | inl old ↦ rw old (refl, old, (λ j there. there))
  | inr fresh ↦ rw fresh (refl, ground (arith, eq_iff key key), (λ j there. ground arith))
]

add-count : (s : List String) (key : String) → nat_beq (add s key).1 0 ≡ contains s key
add-count s key = elim (Bool-cases (contains s key)) [
  | inl old ↦ rw old refl
  | inr fresh ↦ rw fresh refl
]

counted :
    (s t : List String) (key : String) (n : ℕ)
    → ◌≡◌ {A = Option (List String × ℕ)} (some (add s key)) (some (t, n))
    → Adds contains s t key (nat_beq n 0)
counted s t key n e =
    subst (λ (r : List String × ℕ). Adds contains s r.0 key (nat_beq r.1 0)) (some_inj e)
      (subst (Adds contains s (add s key).0 key) (sym (add-count s key)) (add-Adds s key))

not-not : (b : Bool) → not (not b) ≡ b
not-not b = ground arith

guarded :
    (s t : List String) (key : String) (added : Bool)
    → ◌≡◌ {A = Option (List String × Bool)}
        (some ((add s key).0, not (contains s key)))
        (some (t, added))
    → Adds contains s t key (not added)
guarded s t key added e =
    subst (λ (r : List String × Bool). Adds contains s r.0 key (not r.1)) (some_inj e)
      (subst (Adds contains s (add s key).0 key) (sym (not-not (contains s key))) (add-Adds s key))

small-MemberLaws : MemberLaws small is_in
small-MemberLaws = record {
  bf_add-Adds = λ s t key n e. counted s t key n e;
  sadd-Adds = λ s t key n e. counted s t key n e;
  setnx-Adds = λ s t key ttl added e. guarded s t key added e;
}

abbrev cfg : Config
cfg = record { ttl = 0; use_bloom = false }

first_call : mark_seen small cfg [] "7" ≡ some ("7" ∷ [], false)
unfolding mark_seen mark_in way_of of_count contains
first_call = refl

second_call : mark_seen small cfg ("7" ∷ []) "7" ≡ some ("7" ∷ [], true)
unfolding mark_seen mark_in way_of of_count contains
second_call = refl

both-Calls : Calls small cfg [] (("7", true) ∷ ("7", false) ∷ []) ("7" ∷ [])
both-Calls = marks (marks (starts []) "7" false first_call) "7" true second_call

marks_once_example :
    first_marks small cfg "7" (("7", true) ∷ ("7", false) ∷ [])
    ≤ (if is_member small cfg is_in small-MemberLaws [] "7" then 0 else 1)
marks_once_example = marks_once small cfg is_in small-MemberLaws both-Calls "7"
