-- ===== src/Worker/Fetcher/Examples.antt =====
-- The fetcher on concrete tasks.
use go_dota.Base.{ℕ, ◌≢◌, refl, true, false, [], ◌∷◌, arith}
use go_dota.Base.Int.{ℤ, pos}
use go_dota.Json.{Blob, text}
use go_dota.Queue.{Task}
use go_dota.Queue.Inmem as Queue
use go_dota.Proxy.Inmem.{Pool, new}
use go_dota.Proxy.Httpdo.{Config, Attempt, status, broken}
use go_dota.Proxy.Httpdo.Outage.{IsIdle}
use go_dota.Payload.Inmem as Payload
use go_dota.Worker.Tasks.{marshal_task}
use go_dota.Worker.Fetcher.{Fetched, body, process}
use go_dota.Worker.Fetcher.Handing.{push_to, Handed, process-Handed}

abbrev parse_queue : Queue.Queue Blob
parse_queue = Queue.new (record { max_retries = 5; max_backoff = 0 })

abbrev fetch_7 : Task Blob
fetch_7 = record { id = 1; payload = marshal_task (pos 7); retry_count = 0 }

abbrev match_text : ℤ → Fetched
match_text id = body (text "match")

process-Handed_example :
    Handed
      (marshal_task (pos 7))
      Payload.new
      parse_queue
      10
      100
      match_text
      (process Payload.store_ops push_to Payload.new parse_queue 10 100 match_text fetch_7)
process-Handed_example =
    process-Handed Payload.new parse_queue 10 100 match_text fetch_7 (omega arith)

abbrev one_proxy : Pool
one_proxy = new ("a" ∷ [])

abbrev unavailable : ℕ → Attempt
unavailable i = record {
  ended_before = false;
  has_client = true;
  answer = status 503 true;
  direct = broken false;
  ended_after = false;
  ended_asleep = false;
}

one_proxy-IsIdle : IsIdle one_proxy
unfolding new
one_proxy-IsIdle = (refl, omega arith)

abbrev thrice : Config
thrice = record { max_retries = 3; allow_direct = false }

abbrev service_unavailable : ℕ
service_unavailable = 503

abbrev too_many_requests : ℕ
too_many_requests = 429

not_429 : service_unavailable ≢ too_many_requests
not_429 e = omega arith
