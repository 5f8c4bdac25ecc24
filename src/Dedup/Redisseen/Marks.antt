-- ===== src/Dedup/Redisseen/Marks.antt =====
-- What MarkSeen answers over Redis (internal/dedup/redisseen/seen.go).
use go_dota.Base.{
  ℕ, suc, ◌+◌, ◌≤◌, ◌≡◌, refl, ap, subst, Bool, true, not, Option, none, some, List, [], ◌∷◌,
  String, nat_beq, string_eq, ◌==◌, eq_iff, Bool-cases, inl, inr, arith, if◌then◌else◌,
}
use go_dota.Dedup.Redisseen.{
  Config, Redis, Way, bloom, set, keys, way_of, mark_in, mark_seen, of_count, of_added,
}

-- `old` answers whether the key was there; then it is, and no other key is taken away.
abbrev pub Adds : {S : Type 0} → (S → String → Bool) → S → S → String → Bool → Type 0
Adds member s t key old =
    (old ≡ member s key)
    × (member t key ≡ true)
    × ((j : String) → member s j ≡ true → member t j ≡ true)

-- What is documented of the commands while no time to live is over. A Bloom filter may hold a key
-- that was never added, and says so to BF.ADD as to BF.EXISTS.
pub record MemberLaws {S : Type 0} (redis : Redis S) (member : Way → S → String → Bool)
    : Type 0 where
  pub bf_add-Adds :
      (s t : S) (key : String) (n : ℕ)
      → redis.bf_add s key ≡ some (t, n)
      → Adds (member bloom) s t key (nat_beq n 0)
  pub sadd-Adds :
      (s t : S) (key : String) (n : ℕ)
      → redis.sadd s key ≡ some (t, n)
      → Adds (member set) s t key (nat_beq n 0)
  pub setnx-Adds :
      (s t : S) (key : String) (ttl : ℕ) (added : Bool)
      → redis.setnx s key ttl ≡ some (t, added)
      → Adds (member (keys ttl)) s t key (not added)

pub some_inj : {A : Type 0} {a b : A} → ◌≡◌ {A = Option A} (some a) (some b) → a ≡ b
some_inj {A = A} {a = a} e = ap (or_else a) e
  where
    or_else : A → Option A → A
    or_else d none = d
    or_else d (some x) = x

module _ {S : Type 0} (redis : Redis S) (cfg : Config) where
  -- Calls of MarkSeen that returned, the last one first, with their keys and answers.
  pub data Calls : S → List (String × Bool) → S → Type 0 where
    starts : (s : S) → Calls s [] s
    marks :
        {s t u : S} {log : List (String × Bool)}
        → Calls s log t
        → (key : String) (old : Bool) → mark_seen redis cfg t key ≡ some (u, old)
        → Calls s ((key, old) ∷ log) u

  -- How many calls for the key were answered with "not seen yet".
  pub first_marks : String → List (String × Bool) → ℕ
  first_marks key [] = 0
  first_marks key ((k, old) ∷ log) =
      let rest = first_marks key log in if k == key then if old then rest else suc rest else rest

  module _ (member : Way → S → String → Bool) (laws : MemberLaws redis member) where
    counted-Adds :
        (w : Way) (s t : S) (key : String) (old : Bool) (o : Option (S × ℕ))
        → ((u : S) (n : ℕ) → o ≡ some (u, n) → Adds (member w) s u key (nat_beq n 0))
        → of_count o ≡ some (t, old)
        → Adds (member w) s t key old
    unfolding of_count
    counted-Adds w s t key old none h e = ground arith
    counted-Adds w s t key old (some (u, n)) h e =
        subst (λ (r : S × Bool). Adds (member w) s r.0 key r.1) (some_inj e) (h u n refl)

    added-Adds :
        (w : Way) (s t : S) (key : String) (old : Bool) (o : Option (S × Bool))
        → ((u : S) (added : Bool) → o ≡ some (u, added) → Adds (member w) s u key (not added))
        → of_added o ≡ some (t, old)
        → Adds (member w) s t key old
    unfolding of_added
    added-Adds w s t key old none h e = ground arith
    added-Adds w s t key old (some (u, added)) h e =
        subst (λ (r : S × Bool). Adds (member w) s r.0 key r.1) (some_inj e) (h u added refl)

    mark_in-Adds :
        (w : Way) (s t : S) (key : String) (old : Bool)
        → mark_in redis w s key ≡ some (t, old)
        → Adds (member w) s t key old
    unfolding mark_in
    mark_in-Adds bloom s t key old e =
        counted-Adds bloom s t key old (redis.bf_add s key) (λ u n. laws.bf_add-Adds s u key n) e
    mark_in-Adds set s t key old e =
        counted-Adds set s t key old (redis.sadd s key) (λ u n. laws.sadd-Adds s u key n) e
    mark_in-Adds (keys ttl) s t key old e =
        added-Adds (keys ttl) s t key old (redis.setnx s key ttl)
          (λ u n. laws.setnx-Adds s u key ttl n) e

    abbrev pub is_member : S → String → Bool
    is_member s key = member (way_of cfg) s key

    counts :
        {s t : S} {log : List (String × Bool)}
        → Calls s log t
        → (key : String)
        → first_marks key log + (if is_member t key then 0 else 1)
          ≤ (if is_member s key then 0 else 1)
    unfolding first_marks mark_seen
    counts (starts s) key = ground arith
    counts (marks {s = s} {t = t} {u = u} {log = log} before k old e) key =
        let ih = counts before key in
        let adds = mark_in-Adds (way_of cfg) t u k old e in
        elim (Bool-cases (k == key)) [
          | inl same ↦ ground (
            arith,
            ih,
            adds.0,
            adds.1,
            ap (is_member t) ((eq_iff k key).0 same),
            ap (is_member u) ((eq_iff k key).0 same),
          )
          | inr other ↦ ground (arith, ih, adds.2 key)
        ]

    -- While no time to live ends, of the calls for one key at most one is answered with "not seen
    -- yet", and none where the key was there before, whichever of its three ways the set is kept in.
    pub marks_once :
        {s t : S} {log : List (String × Bool)}
        → Calls s log t
        → (key : String) → first_marks key log ≤ (if is_member s key then 0 else 1)
    marks_once calls key = omega (arith, counts calls key)
