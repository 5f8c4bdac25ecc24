-- ===== src/Worker/Discovery/Matches.antt =====
-- internal/worker/discovery/matches/cycle.go: the cycle that asks for the ids of matches and pushes
-- the unknown ones to the fetcher's queue. The answer to a query is a parameter.
pub mod Pushing
pub mod Reading
mod Examples
use go_dota.Base.{
  ℕ, suc, Bool, true, false, Option, none, some, List, [], ◌∷◌, ◌++◌, ◌>>=◌, String, Map, get,
  string_eq, ◌==◌, if◌then◌else◌,
}
use go_dota.Base.Int.{ℤ, is_positive}
use go_dota.Json.{Json, null, bool, num, real, str, arr, obj, Fields, Blob, text, invalid, json}
use go_dota.Json.{fits}
use go_dota.Json.Members.{structs_in, member, read_slice, or_else}
use go_dota.Worker.Tasks.{marshal_task}

-- strconv.ParseInt, for 64 bits. A text that is no JSON document may still be a number, with zeros in
-- front or a plus: these are read by `parse_other`.
unfoldable pub parse_int : (String → Option ℤ) → Blob → Option ℤ
unfolding fits
parse_int parse_other (json (num n)) = if fits 64 n then some n else none
parse_int parse_other (text s) = parse_other s
parse_int parse_other (invalid bytes s) = none
parse_int parse_other (json null) = none
parse_int parse_other (json (bool b)) = none
parse_int parse_other (json (real r)) = none
parse_int parse_other (json (str b)) = none
parse_int parse_other (json (arr xs)) = none
parse_int parse_other (json (obj fs)) = none

unfoldable pub if_positive : Option ℤ → List ℤ
unfolding is_positive
if_positive none = []
if_positive (some n) = if is_positive n then n ∷ [] else []

-- What one element adds to the ids. `null` is read as the empty string, which is no number.
unfoldable pub ids_of : (String → Option ℤ) → Json → List ℤ
unfolding parse_int if_positive fits
ids_of parse_other (str b) = if_positive (parse_int parse_other b)
ids_of parse_other (num n) = if fits 64 n then if_positive (some n) else []
ids_of parse_other null = []
ids_of parse_other (bool b) = []
ids_of parse_other (real r) = []
ids_of parse_other (arr xs) = []
ids_of parse_other (obj fs) = []

unfoldable pub ids_of_row : (String → Option ℤ) → List Json → List ℤ
unfolding ids_of
ids_of_row parse_other [] = []
ids_of_row parse_other (r ∷ rs) = ids_of parse_other r ++ ids_of_row parse_other rs

unfoldable pub ids_of_rows : (String → Option ℤ) → List (List Json) → List ℤ
unfolding ids_of_row
ids_of_rows parse_other [] = []
ids_of_rows parse_other (row ∷ rows) = ids_of_row parse_other row ++ ids_of_rows parse_other rows

-- The member `match_ids` of a row, of the type []json.RawMessage.
unfoldable pub row_in : Fields → Option (List Json)
unfolding member read_slice or_else
row_in fs = do xs ← member (read_slice (λ v. some v)) "match_ids" fs; some (or_else [] xs)

-- json.Unmarshal into the envelope.
unfoldable pub rows_in : Blob → Option (List (List Json))
unfolding structs_in row_in
rows_in (json (obj fs)) = structs_in row_in "rows" fs
rows_in (json null) = some []
rows_in _ = none

-- `none` is the error of the envelope.
unfoldable pub parse_match_ids : (String → Option ℤ) → Blob → Option (List ℤ)
unfolding rows_in ids_of_rows
parse_match_ids parse_other body = do rows ← rows_in body; some (ids_of_rows parse_other rows)

-- The part of the configuration that RunOnce reads; an empty `file_key` is none.
pub record Config : Type 0 where
  pub queries : Map String String
  pub default_key : String
  pub file_key : String

unfoldable pub query_key : Config → Option String
unfolding get
query_key cfg = elim (cfg.file_key == "") [
  | true ↦ some cfg.default_key
  | false ↦ elim (get cfg.queries cfg.file_key) [ none ↦ none | some sql ↦ some cfg.file_key ]
]

-- The text of the query, where there is one.
unfoldable pub select_query : Config → Option String
unfolding query_key get
select_query cfg = do key ← query_key cfg; get cfg.queries key

-- What the loop over the ids has done.
pub record Pushed (Q : Type 0) : Type 0 where
  pub queue : Q
  pub pushed : ℕ
  pub skipped : ℕ

abbrev pub start_of : {Q : Type 0} → Q → Pushed Q
start_of q = record { queue = q; pushed = 0; skipped = 0 }

module _ {Q : Type 0} (push : Q → Blob → Option Q) where
  unfoldable pub after_push : Pushed Q → Option Q → Pushed Q
  after_push p none = p
  after_push p (some q) = record p { queue = q; pushed = suc p.pushed }

  -- With what IsSeen answered, where `none` is an error; without a deduplicator the answer is
  -- "not seen".
  unfoldable pub offer : Pushed Q → ℤ → Option Bool → Pushed Q
  unfolding after_push marshal_task
  offer p id (some true) = record p { skipped = suc p.skipped }
  offer p id (some false) = after_push p (push p.queue (marshal_task id))
  offer p id none = after_push p (push p.queue (marshal_task id))

  module _ (is_seen : ℤ → Option Bool) where
    unfoldable pub push_ids : Pushed Q → List ℤ → Pushed Q
    unfolding offer
    push_ids p [] = p
    push_ids p (id ∷ ids) = push_ids (offer p id (is_seen id)) ids

    unfoldable pub after_fetch : Q → Option (List ℤ) → Option String × Pushed Q
    unfolding push_ids
    after_fetch q none = (some "fetch match ids", start_of q)
    after_fetch q (some ids) = (none, push_ids (start_of q) ids)

    unfoldable pub with_query :
        (String → Option ℤ) → (String → Option Blob) → Q → Option String → Option String × Pushed Q
    unfolding after_fetch parse_match_ids
    with_query parse_other fetch q none = (some "query not found", start_of q)
    with_query parse_other fetch q (some sql) =
        after_fetch q (fetch sql >>= parse_match_ids parse_other)

    -- RunOnce; `fetch` gives the body for a query. The first component is the error.
    unfoldable pub run_once :
        (String → Option ℤ) → (String → Option Blob) → Config → Q → Option String × Pushed Q
    unfolding with_query select_query
    run_once parse_other fetch cfg q = with_query parse_other fetch q (select_query cfg)
