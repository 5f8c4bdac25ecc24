-- ===== src/Proxy/Httpdo/Cache/Bounded.antt =====
-- The cache of the transports stays small (internal/proxy/httpdo/doer.go).
use go_dota.Base.{
  AreDistinct, contains, contains-append, snoc-AreDistinct, All, ℕ, ◌≤◌, ◌<◌, ◌≡◌, refl, Bool, true,
  false, Option, none, some, List, [], ◌∷◌, String, Map, get, put, length, length-append, leb,
  string_eq, eq_iff, ◌==◌, HasUniqueKeys, put-HasUniqueKeys, delete-HasUniqueKeys, arith,
  Bool-cases, inl, inr,
}
use go_dota.Proxy.Httpdo.Cache.{
  Cache, empty, direct, remove_first, touch_access_order, make_room, insert, look_up, get_client,
  get_direct, still_used, is_there, has, evict_idle_entries, close,
}
use go_dota.Proxy.Httpdo.Cache.Entries.{
  has-put, has-delete, remove_first-fewer, contains-remove_first, remove_first-distinct, fits_in,
  listed_fits, contains-touch,
}
use go_dota.Proxy.Httpdo.Cache.Idle.{
  still_used-HasUniqueKeys, contains-still_there, still_there-distinct, has-still_used,
}

-- Every entry but the direct one is in the order, and all that is in the order is an entry.
pub record IsCache (c : Cache) : Type 0 where
  pub unique : HasUniqueKeys c.transports
  pub covered :
      (u : String) → has c.transports u ≡ true → contains (direct ∷ c.access_order) u ≡ true
  pub listed : (u : String) → contains c.access_order u ≡ true → has c.transports u ≡ true
  pub distinct : AreDistinct c.access_order
  pub proxied : contains c.access_order direct ≡ false
  pub bounded : length c.access_order ≤ 100

empty-IsCache : IsCache empty
unfolding empty has is_there get contains
empty-IsCache = record {
  unique = tt;
  covered = λ u e. ground arith;
  listed = λ u e. ground arith;
  distinct = tt;
  proxied = refl;
  bounded = omega arith;
}

get_direct-IsCache : (c : Cache) (now : ℕ) → IsCache c → IsCache (get_direct c now)
unfolding get_direct contains
get_direct-IsCache c now h = record {
  unique = put-HasUniqueKeys c.transports direct now h.unique;
  covered = λ u e. ground (arith, has-put c.transports direct now u, h.covered u, e);
  listed = λ u e. ground (arith, has-put c.transports direct now u, h.listed u, e);
  distinct = h.distinct;
  proxied = h.proxied;
  bounded = h.bounded;
}

touch-IsCache :
    (c : Cache) (now : ℕ) (url : String)
    → (url == direct) ≡ false
    → has c.transports url ≡ true
    → IsCache c
    → IsCache (record {
      transports = put c.transports url now;
      access_order = touch_access_order url c.access_order;
    })
unfolding touch_access_order contains
touch-IsCache c now url n e h =
    let (absent, rest) = remove_first-distinct url c.access_order h.distinct in
    record {
      unique = put-HasUniqueKeys c.transports url now h.unique;
      covered = λ u g. ground (
        arith,
        contains-touch url c.access_order u,
        has-put c.transports url now u,
        h.covered u,
        g,
      );
      listed = λ u g. ground (
        arith,
        contains-touch url c.access_order u,
        has-put c.transports url now u,
        h.listed u,
        g,
      );
      distinct = snoc-AreDistinct (remove_first url c.access_order) url absent rest;
      proxied = ground (
        arith,
        contains-append (remove_first url c.access_order) (url ∷ []) direct,
        contains-remove_first url c.access_order direct,
        h.proxied,
        n,
      );
      bounded = omega (
        arith,
        length-append (remove_first url c.access_order) (url ∷ []),
        remove_first-fewer url c.access_order
            (ground (arith, h.covered url e, eq_iff url direct, eq_iff direct url, n)),
        h.bounded,
      );
    }

make_room-IsCache :
    (m : Map String ℕ) (order : List String)
    → IsCache (record { transports = m; access_order = order })
    → IsCache (make_room m order)
unfolding make_room contains
make_room-IsCache m [] h = h
make_room-IsCache m (k ∷ ks) h = elim (Bool-cases (leb 100 (length m))) [
  | inr e ↦ rw e h
  | inl e ↦ rw e (record {
    unique = delete-HasUniqueKeys m k h.unique;
    covered = λ u g. ground (arith, has-delete m k u, h.covered u, g);
    listed = λ u g. ground (arith, has-delete m k u, h.listed u, g, h.distinct.0, eq_iff k u);
    distinct = h.distinct.1;
    proxied = ground (arith, h.proxied);
    bounded = omega (arith, h.bounded);
  })
]

-- There is room for one more.
make_room-room :
    (m : Map String ℕ) (order : List String)
    → IsCache (record { transports = m; access_order = order })
    → length (make_room m order).access_order < 100
unfolding make_room
make_room-room m [] h = omega arith
make_room-room m (k ∷ ks) h = ground (arith, h.bounded, listed_fits m (k ∷ ks) h.distinct h.listed)

make_room-absent :
    (m : Map String ℕ) (order : List String) (url : String)
    → has m url ≡ false
    → has (make_room m order).transports url ≡ false
unfolding make_room
make_room-absent m [] url h = h
make_room-absent m (k ∷ ks) url h = ground (arith, has-delete m k url)

insert-IsCache :
    (c : Cache) (now : ℕ) (url : String)
    → (url == direct) ≡ false
    → has c.transports url ≡ false
    → length c.access_order < 100
    → IsCache c
    → IsCache (insert c now url)
unfolding insert contains
insert-IsCache c now url n a room h = record {
  unique = put-HasUniqueKeys c.transports url now h.unique;
  covered = λ u g. ground (
    arith,
    has-put c.transports url now u,
    contains-append c.access_order (url ∷ []) u,
    h.covered u,
    g,
  );
  listed = λ u g. ground (
    arith,
    has-put c.transports url now u,
    contains-append c.access_order (url ∷ []) u,
    h.listed u,
    g,
  );
  distinct = snoc-AreDistinct c.access_order url (ground (arith, h.listed url, a)) h.distinct;
  proxied = ground (arith, contains-append c.access_order (url ∷ []) direct, h.proxied, n);
  bounded = omega (arith, length-append c.access_order (url ∷ []));
}

look_up-IsCache :
    (c : Cache) (now : ℕ) (url : String) (usable : Bool) (o : Option ℕ)
    → (url == direct) ≡ false
    → get c.transports url ≡ o
    → IsCache c
    → IsCache (look_up c now url usable o).0
unfolding look_up has is_there
look_up-IsCache c now url usable (some t) n e h = touch-IsCache c now url n (ground (arith, e)) h
look_up-IsCache c now url true none n e h =
    insert-IsCache (make_room c.transports c.access_order) now url n
      (make_room-absent c.transports c.access_order url (ground (arith, e)))
      (make_room-room c.transports c.access_order h)
      (make_room-IsCache c.transports c.access_order h)
look_up-IsCache c now url false none n e h = h

evict_idle-IsCache : (c : Cache) (now : ℕ) → IsCache c → IsCache (evict_idle_entries c now)
unfolding evict_idle_entries contains
evict_idle-IsCache c now h =
    let m = still_used now c.transports in
    let (d, l) = still_there-distinct m c.access_order h.distinct in
    record {
      unique = still_used-HasUniqueKeys now c.transports h.unique;
      covered = λ u g. ground (
        arith,
        contains-still_there m c.access_order u,
        g,
        has-still_used now c.transports u h.unique g,
        h.covered u,
      );
      listed = λ u g. ground (arith, contains-still_there m c.access_order u, g);
      distinct = d;
      proxied = ground (arith, contains-still_there m c.access_order direct, h.proxied);
      bounded = omega (arith, l, h.bounded);
    }

pub data Call : Type 0 where
  client : ℕ → String → Bool → Call
  unproxied tick : ℕ → Call
  closing : Call

unfoldable pub step : Cache → Call → Cache
step c (client now url usable) = (get_client c now url usable).0
step c (unproxied now) = get_direct c now
step c (tick now) = evict_idle_entries c now
step c closing = close c

unfoldable pub run : Cache → List Call → Cache
unfolding step
run c [] = c
run c (x ∷ xs) = run (step c x) xs

-- The URL of a proxy is not the key of the direct entry.
abbrev pub IsProxied : Call → Type 0
IsProxied (client now url usable) = (url == direct) ≡ false
IsProxied _ = Unit

step-IsCache : (c : Cache) (x : Call) → IsProxied x → IsCache c → IsCache (step c x)
unfolding step get_client close empty
step-IsCache c (client now url usable) n h =
    look_up-IsCache c now url usable (get c.transports url) n refl h
step-IsCache c (unproxied now) n h = get_direct-IsCache c now h
step-IsCache c (tick now) n h = evict_idle-IsCache c now h
step-IsCache c closing n h = empty-IsCache

run-IsCache : (c : Cache) (xs : List Call) → All IsProxied xs → IsCache c → IsCache (run c xs)
unfolding run
run-IsCache c [] n h = h
run-IsCache c (x ∷ xs) n h = run-IsCache (step c x) xs n.1 (step-IsCache c x n.0 h)

-- Whatever calls come, the cache has at most 101 transports: those of 100 proxies, and the direct one.
-- What it has for proxies are the entries of the order of access, each once, so that none is left
-- behind when the oldest one goes.
pub stays_small :
    (xs : List Call)
    → All IsProxied xs
    → (length (run empty xs).transports ≤ 101) × IsCache (run empty xs)
stays_small xs n =
    let h = run-IsCache empty xs n empty-IsCache in
    (
      omega (
        arith,
        h.bounded,
        fits_in (run empty xs).transports (direct ∷ (run empty xs).access_order) h.unique h.covered,
      ),
      h,
    )
