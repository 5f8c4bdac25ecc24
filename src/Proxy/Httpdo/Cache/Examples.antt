-- ===== src/Proxy/Httpdo/Cache/Examples.antt =====
-- The cache of the transports on two proxies.
use go_dota.Base.{◌≤◌, refl, true, List, [], ◌∷◌, length, All}
use go_dota.Proxy.Httpdo.Cache.{empty}
use go_dota.Proxy.Httpdo.Cache.Bounded.{
  Call, client, unproxied, tick, run, IsProxied, IsCache, stays_small,
}

abbrev some_calls : List Call
some_calls = client 1 "a" true ∷ unproxied 2 ∷ client 3 "b" true ∷ client 4 "a" true ∷ tick 5 ∷ []

some_calls-IsProxied : All IsProxied some_calls
some_calls-IsProxied = (refl, (tt, (refl, (refl, (tt, tt)))))

stays_small_example :
    (length (run empty some_calls).transports ≤ 101) × IsCache (run empty some_calls)
stays_small_example = stays_small some_calls some_calls-IsProxied
