-- ===== src/Dedup/Inmem/Marks.antt =====
-- What MarkSeen answers (internal/dedup/inmem/seen.go).
use go_dota.Base.{
  ℕ, suc, ◌≡◌, Bool, ◌||◌, List, [], ◌∷◌, arith, Eq, ◌==◌, if◌then◌else◌, beq_refl, Bool-cases, inl,
  inr,
}
use go_dota.Dedup.Inmem.{is_seen, mark_seen, mark_all}

module _ {K : Type 0} ⦃keys : Eq K⦄ where
  is_seen-mark_seen :
      (seen : List K) (key k : K) → is_seen (mark_seen seen key).0 k ≡ (key == k || is_seen seen k)
  unfolding mark_seen is_seen
  is_seen-mark_seen seen key k = elim (Bool-cases (key == k)) [
    | inl e ↦ rw ((keys.beq_iff key k).0 e) (ground (arith, beq_refl k))
    | inr e ↦ ground (arith)
  ]

  -- How often `key` stands in the list.
  unfoldable pub occurs : K → List K → ℕ
  occurs key [] = 0
  occurs key (k ∷ ks) = let rest = occurs key ks in if k == key then suc rest else rest

  -- The number of calls for `key` that MarkSeen answered with "not seen yet".
  unfoldable pub first_marks : K → List K → List Bool → ℕ
  first_marks key [] olds = 0
  first_marks key (k ∷ ks) [] = 0
  first_marks key (k ∷ ks) (old ∷ olds) =
      let rest = first_marks key ks olds in
      if k == key then if old then rest else suc rest else rest

  -- Of all the calls for one key, MarkSeen answers exactly the first one with "not seen yet", if
  -- the key was not seen before, and after them the key is seen.
  pub mark_all-once :
      (seen ks : List K) (key : K)
      → (first_marks key ks (mark_all seen ks).1
          ≡ (if is_seen seen key then 0 else if is_seen ks key then 1 else 0))
        × (is_seen (mark_all seen ks).0 key ≡ (is_seen seen key || is_seen ks key))
  unfolding mark_all first_marks is_seen mark_seen
  mark_all-once seen [] key = ground arith
  mark_all-once seen (k ∷ ks) key = elim (Bool-cases (k == key)) [
    | inl e ↦ rw ((keys.beq_iff k key).0 e) (
        ground (
          arith,
          beq_refl key,
          mark_all-once (mark_seen seen key).0 ks key,
          is_seen-mark_seen seen key key,
        ))
    | inr e ↦
        ground (arith, mark_all-once (mark_seen seen k).0 ks key, is_seen-mark_seen seen k key)
  ]
