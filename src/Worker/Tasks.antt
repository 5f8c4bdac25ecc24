-- ===== src/Worker/Tasks.antt =====
-- What the handlers of the stages share: the tasks of internal/worker/fetcher and of
-- internal/worker/parser, {"match_id": …}, the kinds of failure that internal/metrics counts, and
-- what a handler leaves.
use go_dota.Base.{
  Bool, Option, none, some, String, ◌≡◌, refl, ap, subst, true, false, arith, string_eq,
  if◌then◌else◌,
}
use go_dota.Base.Int.{ℤ, pos}
use go_dota.Json.{
  Json, Fields, null, bool, num, real, str, arr, obj, field, end, Blob, json, Decoded, failed,
  value, unmarshal_int, find, int_member, fits,
}
use go_dota.Worker.Runner.{Result}

-- metrics.FailureKind
pub data FailureKind : Type 0 where
  unknown decode validate ingest db http timeout rate_limit not_found proxy payload : FailureKind

-- What a handler tells the metrics. `counts_duplicate` is of the parser only.
pub data Counted : Type 0 where
  counts_success counts_duplicate : Counted
  counts_failure : FailureKind → Counted

-- What a handler answers, and what it counts.
pub record Report : Type 0 where
  pub result : Result
  pub error : Option String
  pub counted : Counted

unfoldable pub match_id_of : Decoded (Option ℤ) → Decoded ℤ
match_id_of failed = failed
match_id_of (value none) = value (pos 0)
match_id_of (value (some id)) = value id

-- json.Unmarshal into a Task, whose `match_id` stays 0 where it is missing or null.
unfoldable pub unmarshal_task : Blob → Decoded ℤ
unfolding match_id_of unmarshal_int
unmarshal_task b = match_id_of (unmarshal_int "match_id" b)

-- json.Marshal of a Task.
unfoldable pub marshal_task : ℤ → Blob
marshal_task id = json (obj (field "match_id" (num id) end))

pub unmarshal-marshal_task :
    (id : ℤ) → fits 64 id ≡ true → unmarshal_task (marshal_task id) ≡ value id
unfolding unmarshal_task marshal_task match_id_of unmarshal_int find int_member
unmarshal-marshal_task id h = rw h refl

-- The payload is a task about this match, or one without a match, which is about 0.
pub data Names : Blob → ℤ → Type 0 where
  by_number :
      (fs : Fields) (id : ℤ)
      → find "match_id" fs ≡ some (num id)
      → fits 64 id ≡ true
      → Names (json (obj fs)) id
  by_null : (fs : Fields) → find "match_id" fs ≡ some null → Names (json (obj fs)) (pos 0)
  by_none : (fs : Fields) → find "match_id" fs ≡ none → Names (json (obj fs)) (pos 0)
  of_null : Names (json null) (pos 0)

id_or_zero : Decoded ℤ → ℤ
id_or_zero failed = pos 0
id_or_zero (value id) = id

value_inj : (a b : ℤ) → ◌≡◌ {A = Decoded ℤ} (value a) (value b) → a ≡ b
unfolding id_or_zero
value_inj a b h = ap id_or_zero h

named_by :
    (fs : Fields) (n id : ℤ) (b : Bool)
    → find "match_id" fs ≡ some (num n)
    → fits 64 n ≡ b
    → match_id_of (if b then value (some n) else failed) ≡ value id
    → Names (json (obj fs)) id
unfolding match_id_of
named_by fs n id true e fit h =
    subst (Names (json (obj fs))) (value_inj n id h) (Names.by_number fs n e fit)
named_by fs n id false e fit h = ground arith

member-Names :
    (fs : Fields) (o : Option Json) (id : ℤ)
    → find "match_id" fs ≡ o
    → match_id_of (int_member o) ≡ value id
    → Names (json (obj fs)) id
unfolding match_id_of int_member
member-Names fs none id e h =
    subst (Names (json (obj fs))) (value_inj (pos 0) id h) (Names.by_none fs e)
member-Names fs (some null) id e h =
    subst (Names (json (obj fs))) (value_inj (pos 0) id h) (Names.by_null fs e)
member-Names fs (some (num n)) id e h = named_by fs n id (fits 64 n) e refl h
member-Names fs (some (bool b)) id e h = ground arith
member-Names fs (some (real r)) id e h = ground arith
member-Names fs (some (str b)) id e h = ground arith
member-Names fs (some (arr xs)) id e h = ground arith
member-Names fs (some (obj gs)) id e h = ground arith

pub unmarshal_task-Names : (b : Blob) (id : ℤ) → unmarshal_task b ≡ value id → Names b id
unfolding unmarshal_task unmarshal_int
unmarshal_task-Names (json (obj fs)) id h = member-Names fs (find "match_id" fs) id refl h
unmarshal_task-Names (json null) id h =
    subst (Names (json null)) (value_inj (pos 0) id h) Names.of_null
unmarshal_task-Names b id h = ground arith
