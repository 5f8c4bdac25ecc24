-- ===== src/Payload/Inmem.antt =====
-- internal/payload/inmem/store.go. Each method is one step under the mutex; times are in
-- nanoseconds, and 0 stands for every TTL that is not positive.
pub mod Expiry
mod Examples
use go_dota.Base.{
  ℕ, ◌+◌, ◌*◌, Bool, false, Option, none, some, List, [], Map, get as lookup, put as insert,
  delete as remove, length, ltb, if◌then◌else◌,
}
use go_dota.Base.Int.{ℤ, int_eq}
use go_dota.Json.{Blob}
use go_dota.Payload.{Got, found, not_found, StoreOps}

-- `expires_at` is `none` for the zero time.
pub record Entry : Type 0 where
  pub bytes : Blob
  pub expires_at : Option ℕ

abbrev pub Store : Type 0
Store = Map ℤ Entry

abbrev pub hour : ℕ
hour = 3600 * 1_000_000_000

unfoldable pub new : Store
new = []

unfoldable pub put : Store → ℕ → ℤ → Blob → ℕ → Store
unfolding insert
put s now key bytes ttl =
    insert s key
      (record { bytes = bytes; expires_at = if ltb 0 ttl then some (now + ttl) else none })

-- The entry has a time of expiry, and it is over.
unfoldable pub is_over : ℕ → Option ℕ → Bool
is_over now none = false
is_over now (some t) = ltb t now

unfoldable pub read : Store → ℕ → ℤ → Option Entry → Store × Got
unfolding is_over remove
read s now key none = (s, not_found)
read s now key (some e) =
    if is_over now e.expires_at then (remove s key, not_found) else (s, found e.bytes)

unfoldable pub get : Store → ℕ → ℤ → Store × Got
unfolding read lookup
get s now key = read s now key (lookup s key)

unfoldable pub delete : Store → ℤ → Store
unfolding remove
delete s key = remove s key

unfoldable pub extend : Store → ℕ → ℤ → ℕ → Option Entry → Option Store
unfolding insert
extend s now key ttl none = none
extend s now key ttl (some e) =
    some (insert s key (record e { expires_at = some (now + (if ltb 0 ttl then ttl else hour)) }))

unfoldable pub extend_ttl : Store → ℕ → ℤ → ℕ → Option Store
unfolding extend lookup
extend_ttl s now key ttl = extend s now key ttl (lookup s key)

unfoldable pub len : Store → ℕ
len s = length s

abbrev pub store_ops : StoreOps Store
store_ops = record {
  put = λ s now key bytes ttl. some (put s now key bytes ttl);
  get = λ s now key. get s now key;
  delete = λ s key. some (delete s key);
  extend_ttl = λ s now key ttl. extend_ttl s now key ttl;
}
