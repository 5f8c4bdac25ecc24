-- ===== src/Proxy/Loader/Publishing.antt =====
-- What a run publishes (internal/proxy/loader/loader.go), and when the next one begins
-- (cmd/proxyloader/main.go).
use go_dota.Base.{
  ℕ, zero, suc, ◌-◌, ◌*◌, ◌/◌, ◌≤◌, ◌<◌, ◌≡◌, refl, sym, ap, ◌∙◌, Bool, true, false, Option, none,
  some, List, [], ◌∷◌, ◌++◌, String, take, drop, length, length-take, Perm, ltb, lt→ltb, le→ltb,
  nat_eq, ◌==◌, arith, Bool-cases, if_ind, inl, inr, if◌then◌else◌,
}
use mathlib.Core.List.{append-nil, append_assoc}
use go_dota.Proxy.Loader.{
  Config, Remote, filter, filter_out, Validated, or_keep, publish, validate_all, chunk_at,
  publish_chunks, chunks, validate_and_publish_chunks, load_remote_with_fallback, after_remote,
  after_seed, run_seed, run, next_top_up_tick,
}
use go_dota.Proxy.Loader.Chunks.{validate-found}

length-filter-le : (p : String → Bool) (xs : List String) → length (filter p xs) ≤ length xs
unfolding filter
length-filter-le p [] = omega arith
length-filter-le p (x ∷ xs) = ground (arith, length-filter-le p xs)

-- The pool is the list of what was published.
abbrev pub add_all : List String → List String → Option (List String)
add_all s us = some (s ++ us)

module _ (cfg : Config) (probe : String → Bool) (arrange : List String → List String) where
  module _ {S : Type 0} (add : S → List String → Option S)
      (keeps_length : (xs : List String) → length (arrange xs) ≡ length xs)
      (small : cfg.chunk_size < cfg.min_publish) (ended : ℕ → Bool) where
    chunk-short :
        (idx : ℕ) (list : List String)
        → length (validate_all probe arrange (chunk_at cfg idx list)) < cfg.min_publish
    unfolding validate_all chunk_at
    chunk-short idx list = omega (
      arith,
      keeps_length (filter probe (take cfg.chunk_size (drop (idx * cfg.chunk_size) list))),
      length-filter-le probe (take cfg.chunk_size (drop (idx * cfg.chunk_size) list)),
      length-take cfg.chunk_size (drop (idx * cfg.chunk_size) list),
    )

    publish_short :
        (s : S) (healthy : List String)
        → length healthy < cfg.min_publish
        → publish add cfg s healthy ≡ s
    unfolding publish
    publish_short s healthy lt = elim (Bool-cases (ltb 0 (length healthy))) [
      | inl e ↦ rw (e, lt→ltb (length healthy) cfg.min_publish lt) refl
      | inr e ↦ rw e refl
    ]

    none_published :
        (n idx : ℕ) (list : List String) (v : Validated S)
        → (publish_chunks add cfg probe arrange ended n idx list v).pool ≡ v.pool
    unfolding publish_chunks
    none_published zero idx list v = refl
    none_published (suc n) idx list v =
        if_ind (λ r. r.pool ≡ v.pool) (ended idx) (record v { ended = true })
          (publish_chunks add cfg probe arrange ended n (suc idx) list (next v)) (λ e. refl)
          (λ e.
            none_published n (suc idx) list (next v)
            ∙ publish_short v.pool (validate_all probe arrange (chunk_at cfg idx list))
                (chunk-short idx list))
      where
        next : Validated S → Validated S
        next v = record v {
          pool = publish add cfg v.pool (validate_all probe arrange (chunk_at cfg idx list));
          healthy = v.healthy ++ validate_all probe arrange (chunk_at cfg idx list);
        }

    validate_unchanged :
        (s : S) (list : List String)
        → (validate_and_publish_chunks add cfg probe arrange ended s list).pool ≡ s
    unfolding validate_and_publish_chunks
    validate_unchanged s list =
        none_published (chunks cfg list) 0 list (record { pool = s; healthy = []; ended = false })

    remote_unchanged :
        (s : S) (healthy : List String) (o : Option (List String))
        → after_remote add cfg probe arrange ended s healthy o ≡ s
    unfolding after_remote
    remote_unchanged s healthy none = refl
    remote_unchanged s healthy (some out) = validate_unchanged s (filter_out out healthy)

    seed_unchanged :
        (source : Remote) (v : Validated S)
        → (after_seed add cfg probe arrange ended source v).0 ≡ v.pool
    unfolding after_seed
    seed_unchanged source v =
        if_ind (λ (r : S × Option String). r.0 ≡ v.pool) v.ended
          (v.pool, some "seed chunk validation")
          (if length v.healthy == 0
            then (v.pool, some "no healthy proxies after chunked validation")
            else (
              after_remote add cfg probe arrange ended v.pool v.healthy
                  (load_remote_with_fallback source v.healthy),
              none,
            ))
          (λ e. refl)
          (λ e.
            if_ind (λ (r : S × Option String). r.0 ≡ v.pool) (length v.healthy == 0)
              (v.pool, some "no healthy proxies after chunked validation")
              (
                after_remote add cfg probe arrange ended v.pool v.healthy
                    (load_remote_with_fallback source v.healthy),
                none,
              )
              (λ z. refl)
              (λ z. remote_unchanged v.pool v.healthy (load_remote_with_fallback source v.healthy)))

    -- Where MinPublish is above the size of a chunk, no run publishes anything, whatever the sources
    -- list and the probes find.
    pub run_unchanged :
        (source : Remote) (s : S) (seed : Option (List String))
        → (run add cfg probe arrange ended source s seed).0 ≡ s
    unfolding run run_seed
    run_unchanged source s none = refl
    run_unchanged source s (some []) = refl
    run_unchanged source s (some (u ∷ us)) =
        seed_unchanged source (validate_and_publish_chunks add cfg probe arrange ended s (u ∷ us))
        ∙ validate_unchanged s (u ∷ us)

  module _ (low : cfg.min_publish ≤ 1) where
    publish_whole : (s healthy : List String) → publish add_all cfg s healthy ≡ s ++ healthy
    unfolding publish or_keep
    publish_whole s [] = sym (append-nil s)
    publish_whole s (u ∷ us) =
        rw
          (
            lt→ltb 0 (length (u ∷ us)) (omega arith),
            le→ltb (length (u ∷ us)) cfg.min_publish (omega (arith, low)),
          )
          refl

    all_published :
        (n idx : ℕ) (list : List String) (v : Validated (List String)) (s : List String)
        → v.pool ≡ s ++ v.healthy
        → (publish_chunks add_all cfg probe arrange (λ i. false) n idx list v).pool
          ≡ s ++ (publish_chunks add_all cfg probe arrange (λ i. false) n idx list v).healthy
    unfolding publish_chunks
    all_published zero idx list v s e = e
    all_published (suc n) idx list v s e =
        all_published n (suc idx) list
          (record v {
            pool = publish add_all cfg v.pool (validate_all probe arrange (chunk_at cfg idx list));
            healthy = v.healthy ++ validate_all probe arrange (chunk_at cfg idx list);
          })
          s
          (publish_whole v.pool (validate_all probe arrange (chunk_at cfg idx list))
            ∙ ap (λ l. l ++ validate_all probe arrange (chunk_at cfg idx list)) e
            ∙ append_assoc s v.healthy (validate_all probe arrange (chunk_at cfg idx list)))

    -- With MinPublish at 1, as New sets it where it is not given, and a context that does not end, the
    -- chunks together find the healthy proxies of the list, each as often as it is listed, whatever the
    -- size of a chunk and the order in which the probes of a chunk end; and exactly what they find is
    -- published, in that order.
    pub publishes_all :
        ((xs : List String) → Perm (arrange xs) xs)
        → 0 < cfg.chunk_size
        → (s list : List String)
        → Perm
            (validate_and_publish_chunks add_all cfg probe arrange (λ i. false) s list).healthy
            (filter probe list)
          × ((validate_and_publish_chunks add_all cfg probe arrange (λ i. false) s list).pool
              ≡ s
                ++ (validate_and_publish_chunks add_all cfg probe arrange
                    (λ i. false)
                    s
                    list).healthy)
    unfolding validate_and_publish_chunks
    publishes_all arranges sized s list = (
      validate-found add_all cfg probe arrange arranges sized s list,
      all_published (chunks cfg list) 0 list (record { pool = s; healthy = []; ended = false }) s
          (sym (append-nil s)),
    )

-- The time to the next top-up is at least nine tenths of the interval, and never more than the
-- interval.
pub next_top_up_bounds :
    (interval r : ℕ)
    → (interval - interval / 10 ≤ next_top_up_tick interval r)
      × (next_top_up_tick interval r ≤ interval)
unfolding next_top_up_tick
next_top_up_bounds interval r = ground arith
