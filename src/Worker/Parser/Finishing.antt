-- ===== src/Worker/Parser/Finishing.antt =====
-- What becomes of a payload (internal/worker/parser/parser.go), over the in-memory store.
use go_dota.Base.{min, ℕ, ◌+◌, ◌≤◌, ◌≡◌, ◌≢◌, refl, ◌⊎◌, ap, ◌∙◌, none, some, arith}
use go_dota.Base.Int.{ℤ, int_eq}
use go_dota.Json.{Blob}
use go_dota.Json
use go_dota.Queue.{Task}
use go_dota.Payload.Inmem.{Store, store_ops, get}
use go_dota.Payload.Inmem.Expiry.{view, get-view, got_of}
use go_dota.Storage.Matchstore.{Match}
use go_dota.Worker.Runner
use go_dota.Worker.Tasks.{Report, unmarshal_task, Names}
use go_dota.Worker.Ingester.{Ingested, ingested, already_seen, refused as repo_refused}
use go_dota.Worker.Parser.Decode.{decoded, refused, decode_match}
use go_dota.Worker.Parser.Validate.{fine, validate}
use go_dota.Worker.Parser.{after_get, after_decode, get_and_parse, process, two_hours}

module _ {I : Type 0} (ingest : I → Match → I × Ingested) where
  -- The parser finds, at any time before the TTL of the payload is over, what was put there.
  pub found_in_time :
      (s : Store) (i : I) (now : ℕ) (t : Task Blob) (id : ℤ) (blob : Blob)
      → unmarshal_task t.payload ≡ Json.value id
      → view s now id ≡ some blob
      → process store_ops ingest s i now t
        ≡ after_decode store_ops ingest (get s now id).0 i now id (decode_match id blob)
  unfolding process get_and_parse after_get
  found_in_time s i now t id blob e v =
      rw (e, (get-view s now id now id (omega arith)).0 ∙ ap got_of v) refl

  -- The match that the ingester was given came from the payload, and passed the checks.
  abbrev pub Given : Blob → Store → ℕ → ℤ → Blob → Match → Type 0
  Given task s now id blob m =
      Names task id
      × (view s now id ≡ some blob)
      × (decode_match id blob ≡ decoded m)
      × (validate m ≡ fine)

  abbrev pub IsIn : Ingested → Type 0
  IsIn out = (out ≡ ingested) ⊎ (out ≡ already_seen)

  -- What a run leaves, by its result.
  abbrev pub Finished : Blob → Store → I → ℕ → (Store × I) × Report → Type 0
  Finished task s i now ((s', i'), r) =
      ((r.result ≡ Runner.success)
        × ((id : ℤ) × (blob : Blob) × (m : Match) × Given task s now id blob m
            × IsIn (ingest i m).1
            × (i' ≡ (ingest i m).0)
            × ((t : ℕ) → view s' t id ≡ none)))
      ⊎ ((r.result ≡ Runner.retry)
          × ((id : ℤ) × (blob : Blob) × (m : Match) × Given task s now id blob m
              × ((ingest i m).1 ≢ ingested)
              × ((ingest i m).1 ≢ already_seen)
              × (i' ≡ (ingest i m).0)
              × ((t : ℕ) → view s' (min t (now + two_hours)) id ≡ some blob)))
      ⊎ ((r.result ≡ Runner.drop)
          × (i' ≡ i)
          × ((t : ℕ) (j : ℤ) → view s' (now + t) j ≡ view s (now + t) j))

  abbrev Same : Store → Store → ℕ → Type 0
  Same s g now = (t : ℕ) (j : ℤ) → now ≤ t → view g t j ≡ view s t j
