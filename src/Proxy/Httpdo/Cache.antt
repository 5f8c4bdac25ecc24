-- ===== src/Proxy/Httpdo/Cache.antt =====
-- The cache of the transports of internal/proxy/httpdo/doer.go. Of an entry only the time of its last
-- use is kept, in nanoseconds, and the channel that stops the cleanup is left out. Each method is
-- one step under the mutex.
pub mod Entries
pub mod Idle
pub mod Bounded
mod Examples
use go_dota.Base.{
  ℕ, ◌+◌, ◌-◌, ◌*◌, Bool, true, false, not, ◌&&◌, Option, none, some, List, [], ◌∷◌, ◌++◌, String,
  Map, get, put, delete, length, ltb, leb, string_eq, ◌==◌, if◌then◌else◌,
}

pub record Cache : Type 0 where
  pub transports : Map String ℕ
  pub access_order : List String

unfoldable pub empty : Cache
empty = record { transports = []; access_order = [] }

abbrev pub direct : String
direct = "__direct__"

abbrev pub max_cache_entries : ℕ
max_cache_entries = 100

unfoldable pub remove_first : String → List String → List String
remove_first key [] = []
remove_first key (k ∷ ks) = let rest = remove_first key ks in if k == key then ks else k ∷ rest

unfoldable pub touch_access_order : String → List String → List String
unfolding remove_first
touch_access_order key order = remove_first key order ++ key ∷ []

-- The entry that was used the longest ago goes, if the cache is full.
unfoldable pub make_room : Map String ℕ → List String → Cache
unfolding delete
make_room transports [] = record { transports = transports; access_order = [] }
make_room transports (k ∷ ks) =
    if leb max_cache_entries (length transports)
    then record { transports = delete transports k; access_order = ks }
    else record { transports = transports; access_order = k ∷ ks }

unfoldable pub insert : Cache → ℕ → String → Cache
unfolding put
insert c now url = record {
  transports = put c.transports url now;
  access_order = c.access_order ++ url ∷ [];
}

unfoldable pub look_up : Cache → ℕ → String → Bool → Option ℕ → Cache × Bool
unfolding put touch_access_order make_room insert
look_up c now url usable (some used) = (
  record {
    transports = put c.transports url now;
    access_order = touch_access_order url c.access_order;
  },
  true,
)
look_up c now url usable none =
    if usable then (insert (make_room c.transports c.access_order) now url, true) else (c, false)

-- getClient, given whether the URL makes a transport; the answer is whether there is a client.
unfoldable pub get_client : Cache → ℕ → String → Bool → Cache × Bool
unfolding look_up get
get_client c now url usable = look_up c now url usable (get c.transports url)

-- The entry of the requests that go out directly.
unfoldable pub get_direct : Cache → ℕ → Cache
unfolding put
get_direct c now = record c { transports = put c.transports direct now }

abbrev pub idle_time : ℕ
idle_time = 10 * 60 * 1_000_000_000

unfoldable pub still_used : ℕ → Map String ℕ → Map String ℕ
still_used now [] = []
still_used now ((k, used) ∷ m) =
    let rest = still_used now m in if ltb idle_time (now - used) then rest else (k, used) ∷ rest

unfoldable pub is_there : Option ℕ → Bool
is_there none = false
is_there (some used) = true

unfoldable pub has : Map String ℕ → String → Bool
unfolding is_there get
has m url = is_there (get m url)

unfoldable pub still_there : Map String ℕ → List String → List String
unfolding has
still_there m [] = []
still_there m (url ∷ urls) = let rest = still_there m urls in if has m url then url ∷ rest else rest

unfoldable pub evict_idle_entries : Cache → ℕ → Cache
unfolding still_used still_there
evict_idle_entries c now =
    let used = still_used now c.transports in
    record { transports = used; access_order = still_there used c.access_order }

unfoldable pub close : Cache → Cache
close c = record { transports = []; access_order = [] }
