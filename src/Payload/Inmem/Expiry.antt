-- ===== src/Payload/Inmem/Expiry.antt =====
-- What Get finds, and when (internal/payload/inmem/store.go).
use go_dota.Base.{
  min, ℕ, ◌+◌, ◌≤◌, ◌<◌, ◌≡◌, refl, true, Option, none, some, get as lookup, put as insert, ltb,
  leb, arith, if◌then◌else◌, ◌==◌, get-put, get-delete,
}
use go_dota.Base.Int.{ℤ, int_eq, int_beq_iff}
use go_dota.Json.{Blob}
use go_dota.Payload.{Got, found, not_found}
use go_dota.Payload.Inmem.{Entry, Store, put, is_over, read, get, delete, extend, extend_ttl}

-- The bytes up to the time at which they expire, and for ever where there is none.
unfoldable pub until : Option ℕ → ℕ → Blob → Option Blob
until none now bytes = some bytes
until (some t) now bytes = if leb now t then some bytes else none

unfoldable pub current : ℕ → Option Entry → Option Blob
unfolding until
current now none = none
current now (some e) = until e.expires_at now e.bytes

-- The abstract view of a store at a time: the payloads that are there and not over.
unfoldable pub view : Store → ℕ → ℤ → Option Blob
unfolding current lookup
view s now key = current now (lookup s key)

abbrev pub got_of : Option Blob → Got
got_of none = not_found
got_of (some b) = found b

later_over : (t now : ℕ) (e : Option ℕ) → now ≤ t → is_over now e ≡ true → is_over t e ≡ true
unfolding is_over
later_over t now none h o = ground arith
later_over t now (some x) h o = ground arith

read-view :
    (s : Store) (now : ℕ) (key : ℤ) (t : ℕ) (j : ℤ) (o : Option Entry)
    → lookup s key ≡ o
    → now ≤ t
    → ((read s now key o).1 ≡ got_of (current now o)) × (view (read s now key o).0 t j ≡ view s t j)
unfolding read current view
read-view s now key t j none e h = (refl, refl)
read-view s now key t j (some x) e h =
    ground (arith, get-delete s key j, later_over t now x.expires_at h, int_beq_iff key j)

-- Get answers with the payload that is there and not over at its time, and from then on it changes
-- nothing of what is there.
pub get-view :
    (s : Store) (now : ℕ) (key : ℤ) (t : ℕ) (j : ℤ)
    → now ≤ t
    → ((get s now key).1 ≡ got_of (view s now key)) × (view (get s now key).0 t j ≡ view s t j)
unfolding get view
get-view s now key t j h = read-view s now key t j (lookup s key) refl h

-- After Put, what is there at any time is what was there before, but for the one key: its payload
-- is there until its TTL is over or, with a TTL of 0, for ever.
pub put-view :
    (s : Store) (now : ℕ) (key : ℤ) (bytes : Blob) (ttl t : ℕ) (j : ℤ)
    → view (put s now key bytes ttl) t j ≡ (
        if key == j
        then (if ltb 0 ttl then (if ltb (now + ttl) t then none else some bytes) else some bytes)
        else view s t j)
unfolding view put current is_over
put-view s now key bytes ttl t j = ground (
  arith,
  get-put s key
      (record { bytes = bytes; expires_at = if ltb 0 ttl then some (now + ttl) else none }) j,
)

-- Delete takes one payload away.
pub delete-view :
    (s : Store) (key : ℤ) (t : ℕ) (j : ℤ)
    → view (delete s key) t j ≡ (if key == j then none else view s t j)
unfolding view delete current
delete-view s key t j = ground (arith, get-delete s key j)

-- ExtendTTL does not look at the time: a payload that was over, and that no Get took away yet, is
-- there again, until the new TTL, which is positive, is over.
pub extend_revives :
    (s : Store) (now : ℕ) (key : ℤ) (bytes : Blob) (until ttl : ℕ)
    → 0 < ttl
    → lookup s key ≡ some (record { bytes = bytes; expires_at = some until })
    → until < now
    → (view s now key ≡ none)
      × ((s' : Store) × (extend_ttl s now key ttl ≡ some s')
          × ((t : ℕ) → view s' (min t (now + ttl)) key ≡ some bytes))
unfolding view extend_ttl extend current is_over
extend_revives s now key bytes until ttl pos e over =
    let y : Entry = record { bytes = bytes; expires_at = some (now + ttl) } in
    rw e (
      ground arith,
      (insert s key y, ground arith, λ t. ground (arith, get-put s key y key, int_beq_iff key key)),
    )

current_some :
    (now : ℕ) (o : Option Entry) (b : Blob)
    → current now o ≡ some b
    → (x : Entry) × (o ≡ some x) × (x.bytes ≡ b)
unfolding current
current_some now none b h = absurd (ground arith)
current_some now (some x) b h = (x, refl, ground arith)

-- ExtendTTL keeps a payload that is there for the new TTL.
pub extend-view :
    (s : Store) (now : ℕ) (key : ℤ) (bytes : Blob) (ttl : ℕ)
    → 0 < ttl
    → view s now key ≡ some bytes
    → (s' : Store) × (extend_ttl s now key ttl ≡ some s')
      × ((t : ℕ) → t ≤ now + ttl → view s' t key ≡ some bytes)
unfolding view extend_ttl extend current is_over
extend-view s now key bytes ttl pos h =
    let (x, e, b) = current_some now (lookup s key) bytes h in
    let y : Entry = record { bytes = x.bytes; expires_at = some (now + ttl) } in
    (
      insert s key y,
      rw e (ground arith),
      λ t le. ground (arith, b, get-put s key y key, int_beq_iff key key),
    )
