-- ===== src/Proxy/Loader/Chunks.antt =====
-- What the loop over the chunks finds and publishes (internal/proxy/loader/loader.go).
use native.Mathlib.Nat.{div-add-mod', mod-lt}
use go_dota.Base.{
  ℕ, zero, suc, ◌+◌, ◌-◌, ◌*◌, ◌/◌, ◌≤◌, ◌<◌, ◌≡◌, refl, sym, ap, subst, ◌∙◌, Bool, false, Option,
  List, [], ◌∷◌, ◌++◌, String, take, drop, length, take-append-drop, Perm, arith, Bool-cases, inl,
  inr,
}
use mathlib.Core.List.Perm
use mathlib.Core.List.{append-nil, append_assoc}
use go_dota.Proxy.Loader.{
  Config, filter, Validated, publish, validate_all, chunk_at, publish_chunks, chunks,
  validate_and_publish_chunks,
}

drop_at : (a b : ℕ) (xs : List String) → a ≡ b → drop a xs ≡ drop b xs
drop_at a b xs e = ap (λ k. drop k xs) e

drop-nil : (n : ℕ) → drop {A = String} n [] ≡ []
drop-nil zero = refl
drop-nil (suc n) = refl

drop-drop : (n m : ℕ) (xs : List String) → drop n (drop m xs) ≡ drop (m + n) xs
drop-drop n zero xs = drop_at n (0 + n) xs (omega arith)
drop-drop n (suc m) [] = drop-nil n ∙ sym (drop-nil (suc m + n))
drop-drop n (suc m) (x ∷ xs) =
    drop-drop n m xs ∙ drop_at (suc (m + n)) (suc m + n) (x ∷ xs) (omega arith)

drop_all : (n : ℕ) (xs : List String) → length xs ≤ n → drop n xs ≡ []
drop_all zero [] h = refl
drop_all zero (x ∷ xs) h = ground (arith, h)
drop_all (suc n) [] h = refl
drop_all (suc n) (x ∷ xs) h = drop_all n xs (omega arith)

filter-append :
    (p : String → Bool) (xs ys : List String) → filter p (xs ++ ys) ≡ filter p xs ++ filter p ys
unfolding filter
filter-append p [] ys = refl
filter-append p (x ∷ xs) ys = elim (Bool-cases (p x)) [
  | inl e ↦ rw (e, filter-append p xs ys) refl
  | inr e ↦ rw (e, filter-append p xs ys) refl
]

-- The chunks reach the end of the list.
chunks_enough : (n size : ℕ) → 0 < size → n ≤ (n + size - 1) / size * size
chunks_enough n size h = omega (arith, div-add-mod' (n + size - 1) size, mod-lt (n + size - 1) h)

module _ {S : Type 0} (add : S → List String → Option S) (cfg : Config) (probe : String → Bool)
    (arrange : List String → List String) (arranges : (xs : List String) → Perm (arrange xs) xs)
    (sized : 0 < cfg.chunk_size) where
  abbrev never : ℕ → Bool
  never idx = false

  -- The list behind a start, cut at the next one.
  cut :
      (start : ℕ) (list : List String)
      → take cfg.chunk_size (drop start list) ++ drop (start + cfg.chunk_size) list
        ≡ drop start list
  cut start list =
      ap (λ r. take cfg.chunk_size (drop start list) ++ r)
        (sym (drop-drop cfg.chunk_size start list))
      ∙ take-append-drop cfg.chunk_size (drop start list)

  next_chunk :
      (idx : ℕ) (list found : List String)
      → Perm
          ((found ++ arrange (filter probe (chunk_at cfg idx list)))
            ++ filter probe (drop (suc idx * cfg.chunk_size) list))
          (found ++ filter probe (drop (idx * cfg.chunk_size) list))
  unfolding chunk_at
  next_chunk idx list found =
      subst
        (λ l.
          Perm
            ((found
                ++ arrange (filter probe (take cfg.chunk_size (drop (idx * cfg.chunk_size) list))))
              ++ filter probe (drop (suc idx * cfg.chunk_size) list))
            (found ++ l))
        whole
        (subst (λ l. Perm l (found ++ (filter probe here ++ filter probe there)))
          (sym (append_assoc found (arrange (filter probe here)) (filter probe there)))
          (Perm.append_left found
            (Perm.append_right (filter probe there) (arranges (filter probe here)))))
    where
      here : List String
      here = take cfg.chunk_size (drop (idx * cfg.chunk_size) list)

      there : List String
      there = drop (suc idx * cfg.chunk_size) list

      whole :
          filter probe here ++ filter probe there ≡ filter probe (drop (idx * cfg.chunk_size) list)
      whole =
          sym (filter-append probe here there)
          ∙ ap (filter probe) (
              ap (λ l. here ++ l)
                (drop_at (suc idx * cfg.chunk_size) (idx * cfg.chunk_size + cfg.chunk_size) list
                  (omega arith))
              ∙ cut (idx * cfg.chunk_size) list)

  found_from :
      (n idx : ℕ) (list : List String) (v : Validated S)
      → length list ≤ (idx + n) * cfg.chunk_size
      → Perm
          (publish_chunks add cfg probe arrange never n idx list v).healthy
          (v.healthy ++ filter probe (drop (idx * cfg.chunk_size) list))
  unfolding publish_chunks validate_all filter
  found_from zero idx list v enough =
      subst (λ l. Perm v.healthy l)
        (sym (
          ap (λ l. v.healthy ++ filter probe l) (drop_all (idx * cfg.chunk_size) list (omega arith))
          ∙ append-nil v.healthy))
        Perm.rfl
  found_from (suc n) idx list v enough =
      Perm.trans
        (found_from n (suc idx) list
          (record v {
            pool = publish add cfg v.pool (validate_all probe arrange (chunk_at cfg idx list));
            healthy = v.healthy ++ validate_all probe arrange (chunk_at cfg idx list);
          })
          (omega arith))
        (next_chunk idx list v.healthy)

  -- The healthy proxies are found, each as often as it is listed, whatever the size of the chunks.
  pub validate-found :
      (s : S) (list : List String)
      → Perm
          (validate_and_publish_chunks add cfg probe arrange never s list).healthy
          (filter probe list)
  unfolding validate_and_publish_chunks
  validate-found s list =
      subst
        (λ l.
          Perm
            (publish_chunks add cfg probe arrange never (chunks cfg list) 0 list
              (record { pool = s; healthy = []; ended = false })).healthy
            (filter probe l))
        (drop_at (0 * cfg.chunk_size) 0 list (omega arith))
        (found_from (chunks cfg list) 0 list (record { pool = s; healthy = []; ended = false })
          (omega (arith, chunks_enough (length list) cfg.chunk_size sized)))
