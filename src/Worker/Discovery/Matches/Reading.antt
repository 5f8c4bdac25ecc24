-- ===== src/Worker/Discovery/Matches/Reading.antt =====
-- Which ids the answer to a query holds (internal/worker/discovery/matches/cycle.go, parseMatchIDs).
use go_dota.Base.{
  ◌≡◌, refl, ap, ◌∙◌, Bool, true, false, Option, some, List, [], ◌∷◌, ◌++◌, String, All, string_eq,
  if◌then◌else◌,
}
use go_dota.Base.Int.{ℤ, is_positive}
use go_dota.Json.{Json, num, str, arr, obj, Items, nil, item, end, field, Blob, json, find}
use go_dota.Json.{fits}
use go_dota.Json.Members.{structs_in, member, read_slice, read_items, struct_item, or_else}
use go_dota.Worker.Discovery.Matches.{
  parse_int, if_positive, ids_of, ids_of_row, ids_of_rows, row_in, rows_in, parse_match_ids,
}

-- An id as the explorer writes it: a number, or a string of its digits.
abbrev pub MatchId : Type 0
MatchId = ℤ × Bool

abbrev pub id_json : MatchId → Json
id_json (n, true) = str (json (num n))
id_json (n, false) = num n

abbrev pub ids_json : List MatchId → Items
ids_json [] = nil
ids_json (x ∷ xs) = item (id_json x) (ids_json xs)

abbrev pub row_json : List MatchId → Json
row_json xs = obj (field "match_ids" (arr (ids_json xs)) end)

abbrev pub rows_json : List (List MatchId) → Items
rows_json [] = nil
rows_json (row ∷ rows) = item (row_json row) (rows_json rows)

abbrev pub body_of : List (List MatchId) → Blob
body_of rows = json (obj (field "rows" (arr (rows_json rows)) end))

abbrev pub Fits : MatchId → Type 0
Fits (n, quoted) = fits 64 n ≡ true

-- The ids that are above 0, of one row and of all.
abbrev pub positive_ids : List MatchId → List ℤ
positive_ids [] = []
positive_ids ((n, quoted) ∷ xs) =
    let rest = positive_ids xs in if is_positive n then n ∷ rest else rest

abbrev pub all_positive_ids : List (List MatchId) → List ℤ
all_positive_ids [] = []
all_positive_ids (row ∷ rows) = positive_ids row ++ all_positive_ids rows

abbrev jsons : List MatchId → List Json
jsons [] = []
jsons (x ∷ xs) = id_json x ∷ jsons xs

abbrev all_jsons : List (List MatchId) → List (List Json)
all_jsons [] = []
all_jsons (row ∷ rows) = jsons row ∷ all_jsons rows

module _ (parse_other : String → Option ℤ) where
  one_id :
      (n : ℤ) (quoted : Bool) (rest : List ℤ)
      → fits 64 n ≡ true
      → ids_of parse_other (id_json (n, quoted)) ++ rest
        ≡ (if is_positive n then n ∷ rest else rest)
  unfolding ids_of parse_int if_positive
  one_id n true rest h = rw h (split (is_positive n))
    where
      split : (b : Bool) → (if b then n ∷ [] else []) ++ rest ≡ (if b then n ∷ rest else rest)
      split true = refl
      split false = refl
  one_id n false rest h = rw h (split (is_positive n))
    where
      split : (b : Bool) → (if b then n ∷ [] else []) ++ rest ≡ (if b then n ∷ rest else rest)
      split true = refl
      split false = refl

  row_ids : (xs : List MatchId) → All Fits xs → ids_of_row parse_other (jsons xs) ≡ positive_ids xs
  unfolding ids_of_row
  row_ids [] h = refl
  row_ids ((n, quoted) ∷ xs) h =
      ap (λ r. ids_of parse_other (id_json (n, quoted)) ++ r) (row_ids xs h.1)
      ∙ one_id n quoted (positive_ids xs) h.0

  rows_ids :
      (rows : List (List MatchId))
      → All (All Fits) rows
      → ids_of_rows parse_other (all_jsons rows) ≡ all_positive_ids rows
  unfolding ids_of_rows
  rows_ids [] h = refl
  rows_ids (row ∷ rows) h =
      ap (λ r. r ++ ids_of_rows parse_other (all_jsons rows)) (row_ids row h.0)
      ∙ ap (λ r. positive_ids row ++ r) (rows_ids rows h.1)

  read_ids : (xs : List MatchId) → read_items (λ v. some v) (ids_json xs) ≡ some (jsons xs)
  unfolding read_items
  read_ids [] = refl
  read_ids (x ∷ xs) = rw (read_ids xs) refl

  read_row : (xs : List MatchId) → struct_item row_in (row_json xs) ≡ some (jsons xs)
  unfolding struct_item row_in member read_slice or_else find
  read_row xs = rw (read_ids xs) refl

  read_rows :
      (rows : List (List MatchId))
      → read_items (struct_item row_in) (rows_json rows) ≡ some (all_jsons rows)
  unfolding read_items
  read_rows [] = refl
  read_rows (row ∷ rows) = rw (read_row row, read_rows rows) refl

  -- Of an answer that lists the ids in rows, each as a number or as a string of its digits, the cycle
  -- reads exactly those that are above 0, in their order, where each is an int64.
  pub parse_match_ids-body_of :
      (rows : List (List MatchId))
      → All (All Fits) rows
      → parse_match_ids parse_other (body_of rows) ≡ some (all_positive_ids rows)
  unfolding parse_match_ids rows_in structs_in member read_slice or_else find
  parse_match_ids-body_of rows h = rw (read_rows rows, rows_ids rows h) refl
