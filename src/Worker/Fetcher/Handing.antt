-- ===== src/Worker/Fetcher/Handing.antt =====
-- What the fetcher hands on (internal/worker/fetcher/fetcher.go), over the in-memory store and queue.
use go_dota.Base.{
  min, ℕ, ◌+◌, ◌≤◌, ◌<◌, ◌≡◌, ◌≢◌, refl, Bool, true, false, Option, some, arith, ◌⊎◌, inl, inr,
}
use go_dota.Base.Int.{ℤ, int_eq, int_beq_iff}
use go_dota.Json.{Blob, Decoded}
use go_dota.Json
use go_dota.Queue.{Task}
use go_dota.Queue.Inmem as Inmem
use go_dota.Proxy.Httpdo.{Config, Attempt, Answer, do_request}
use go_dota.Proxy.Httpdo.Outage.{IsIdle, Answers, do_request-status}
use go_dota.Proxy.Inmem.{Pool, pool_ops}
use go_dota.Payload.Inmem.{Store, store_ops}
use go_dota.Payload.Inmem.Expiry.{view, put-view}
use go_dota.Worker.Runner
use go_dota.Worker.Tasks.{Report, unmarshal_task, marshal_task, Names, unmarshal_task-Names}
use go_dota.Worker.Fetcher.{
  Fetched, body, no_request, undone, unreadable, fetch_one, result_of, pushed, stored, fetched,
  decoded, process,
}

abbrev pub push_to : Inmem.Queue Blob → Blob → Option (Inmem.Queue Blob)
push_to q b = some (Inmem.push q b)

-- What the handler leaves of a store and a queue.
abbrev pub Handed :
    Blob
    → Store
    → Inmem.Queue Blob
    → ℕ
    → ℕ
    → (ℤ → Fetched)
    → (Store × Inmem.Queue Blob) × Report
    → Type 0
Handed task s q now ttl fetch ((s', q'), r) =
    ((r.result ≡ Runner.success)
      × ((id : ℤ) × (b : Blob) × Names task id
          × (fetch id ≡ body b)
          × (q' ≡ Inmem.push q (marshal_task id))
          × ((t : ℕ) → view s' (min t (now + ttl)) id ≡ some b)))
    ⊎ ((r.result ≢ Runner.success) × (q' ≡ q) × (s' ≡ s))

fetched-Handed :
    (task : Blob) (s : Store) (q : Inmem.Queue Blob) (now ttl : ℕ) (fetch : ℤ → Fetched) (id : ℤ)
    (f : Fetched)
    → 0 < ttl
    → Names task id
    → fetch id ≡ f
    → Handed task s q now ttl fetch (fetched store_ops push_to s q now ttl id f)
unfolding fetched stored pushed result_of
fetched-Handed task s q now ttl fetch id (body b) h names e = inl (
  refl,
  (
    id,
    b,
    names,
    e,
    refl,
    λ t. ground (arith, put-view s now id b ttl (min t (now + ttl)) id, int_beq_iff id id),
  ),
)
fetched-Handed task s q now ttl fetch id no_request h names e = inr (ground arith)
fetched-Handed task s q now ttl fetch id (undone x late) h names e = inr (ground arith)
fetched-Handed task s q now ttl fetch id (unreadable late) h names e = inr (ground arith)

decoded-Handed :
    (task : Blob) (s : Store) (q : Inmem.Queue Blob) (now ttl : ℕ) (fetch : ℤ → Fetched)
    (d : Decoded ℤ)
    → 0 < ttl
    → unmarshal_task task ≡ d
    → Handed task s q now ttl fetch (decoded store_ops push_to s q now ttl fetch d)
unfolding decoded
decoded-Handed task s q now ttl fetch Json.failed h e = inr (ground arith)
decoded-Handed task s q now ttl fetch (Json.value id) h e =
    fetched-Handed task s q now ttl fetch id (fetch id) h (unmarshal_task-Names task id e) refl

-- Over the in-memory store and queue, and with a positive TTL, the fetcher succeeds only when it
-- fetched the match that the task names; then its payload is in the store until its TTL is over, and one task with the
-- number of the match stands last in the queue of the parser. Otherwise the store and the queue are
-- as they were.
pub process-Handed :
    (s : Store) (q : Inmem.Queue Blob) (now ttl : ℕ) (fetch : ℤ → Fetched) (t : Task Blob)
    → 0 < ttl
    → Handed t.payload s q now ttl fetch (process store_ops push_to s q now ttl fetch t)
unfolding process
process-Handed s q now ttl fetch t h =
    decoded-Handed t.payload s q now ttl fetch (unmarshal_task t.payload) h refl

-- The fetcher drops the task of a match when every proxy answers with the same status of 400 or
-- more, other than 429, also with one that Do tries again and that is not permanent, as 503: the
-- match is lost, although nothing is wrong with its task. There is a proxy and none is leased, the
-- context does not end, every proxy has its transport, and no request goes out directly.
pub outage_drops :
    (s : Store) (q : Inmem.Queue Blob) (now ttl : ℕ) (t : Task Blob) (id : ℤ) (cfg : Config)
    (env : ℕ → Attempt) (direct : Answer) (p : Pool) (code : ℕ) (late : Bool) (read : Option Blob)
    → cfg.allow_direct ≡ false
    → 0 < cfg.max_retries
    → IsIdle p
    → 400 ≤ code
    → code ≢ 429
    → ((j : ℕ) → Answers code (env j))
    → unmarshal_task t.payload ≡ Json.value id
    → (process store_ops push_to s q now ttl
        (λ n. fetch_one true (do_request pool_ops cfg env direct p).1 late read)
        t).1.result
      ≡ Runner.drop
unfolding process decoded fetched fetch_one result_of
outage_drops s q now ttl t id cfg env direct p code late read d some_try h lo ne w e =
    rw (e, do_request-status cfg env direct p code d some_try h lo ne w) refl
