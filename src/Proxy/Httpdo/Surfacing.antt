-- ===== src/Proxy/Httpdo/Surfacing.antt =====
-- Which answers Do hands on (internal/proxy/httpdo/doer.go).
use go_dota.Base.{◌≤◌, ◌<◌, ◌≢◌, Option, none, some}
use go_dota.Proxy.Httpdo.{
  Done, responded, failed, DoError, Next, stop, again, is_final, is_permanent, is_proxy_fault,
  do_direct,
}
use go_dota.Proxy.Httpdo

-- Where no request goes out directly, a response that Do returns has a status below 400, and a
-- status that it reports as an error is 400 or more, and not 429.
abbrev pub IsSound : Done → Type 0
IsSound (responded code) = code < 400
IsSound (failed (Httpdo.permanent_http code)) = (400 ≤ code) × (code ≢ 429)
IsSound (failed _) = Unit

-- What an attempt's soundness gives the loop.
abbrev IsSoundLast : Option DoError → Type 0
IsSoundLast none = Unit
IsSoundLast (some e) = IsSound (failed e)

abbrev IsSoundNext : Next → Type 0
IsSoundNext (stop d) = IsSound d
IsSoundNext (again e) = IsSound (failed e)
