-- ===== src/Proxy/Inmem/Examples.antt =====
-- The pool of proxies on concrete proxies.
use go_dota.Base.{AreDistinct, contains, ◌≡◌, ◌≢◌, refl, none, some, [], ◌∷◌, String, arith, eq_iff}
use go_dota.Proxy.Inmem.{Pool, new, at, scan, lease_at, acquire}
use go_dota.Proxy.Inmem.Exclusion.{Acquired, acquire-Acquired}
use go_dota.Proxy.Inmem.Holders.{Step, Reach, Exclusive, Reach-Exclusive}

abbrev two_proxies : Pool
two_proxies = new ("a" ∷ "b" ∷ [])

acquire-Acquired_example : Acquired two_proxies (acquire two_proxies)
acquire-Acquired_example = acquire-Acquired two_proxies

-- The second call goes on behind the first one's proxy, the third finds none.
in_turn : (acquire (acquire two_proxies).0).1 ≡ some "b"
unfolding acquire scan lease_at at contains new
in_turn = refl

run_out : (acquire (acquire (acquire two_proxies).0).0).1 ≡ none
unfolding acquire scan lease_at at contains new
run_out = refl

two_proxies-AreDistinct : AreDistinct two_proxies.proxies
unfolding new contains
two_proxies-AreDistinct = (refl, (refl, tt))

first_is_a : (acquire two_proxies).1 ≡ some "a"
unfolding acquire scan lease_at at contains new
first_is_a = refl

both_out : Reach (acquire (acquire two_proxies).0).0 ("b" ∷ "a" ∷ [])
both_out =
    Reach.steps
      (Reach.steps (Reach.started ("a" ∷ "b" ∷ [])) (Step.acquires two_proxies [] "a" first_is_a))
      (Step.acquires (acquire two_proxies).0 ("a" ∷ []) "b" in_turn)

Reach-Exclusive_example : Exclusive (acquire (acquire two_proxies).0).0 ("b" ∷ "a" ∷ [])
Reach-Exclusive_example = Reach-Exclusive both_out

abbrev url_a : String
url_a = "a"

abbrev url_b : String
url_b = "b"

a-ne-b : url_a ≢ url_b
a-ne-b e = ground (arith, eq_iff url_a url_b)
