-- ===== src/Worker/Discovery/Queries/Finding.antt =====
-- What LoadQueries finds (internal/worker/discovery/loader.go).
use go_dota.Base.{
  ◌≡◌, ◌≢◌, ◌↔◌, ◌⊎◌, refl, sym, ap, ◌∙◌, All, true, false, not, ◌&&◌, Option, none, some, List, [],
  ◌∷◌, ◌++◌, get, get-put, Map, Bool-cases, inl, inr, arith, if◌then◌else◌,
}
use go_dota.Base.Bytes.{Bytes, bytes_beq, bytes_beq_iff, bytes_eq, is_empty}
use go_dota.Worker.Discovery.Queries.{
  Entry, Loading, loaded, load_failed, not_a_directory, unreadable, no_queries, sql_suffix,
  trim_suffix, trim_space, with_body, read_file, read_all, unless_empty, load_queries,
}
use go_dota.Worker.Discovery.Queries.Suffix.{trim_suffix-append, trim_suffix-Just}

abbrev pub kept : Option Bytes → Option Bytes
kept none = none
kept (some body) = if is_empty (trim_space body) then none else some (trim_space body)

abbrev pub or_else : Option Bytes → Option Bytes → Option Bytes
or_else (some body) o = some body
or_else none o = o

-- The query that an entry is under a key: the text of the file, if its name is the key and ".sql".
abbrev pub query_of : Entry → Bytes → Option Bytes
query_of e key =
    if not e.is_dir && bytes_beq e.name (key ++ sql_suffix) then kept e.content else none

-- The last one in a directory.
abbrev pub query_in : List Entry → Bytes → Option Bytes
query_in [] key = none
query_in (e ∷ es) key = or_else (query_in es key) (query_of e key)

-- An entry that is a query, and cannot be read.
abbrev pub IsUnreadable : Bytes → Entry → Type 0
IsUnreadable name e =
    (key : Bytes) × (e.is_dir ≡ false)
    × (e.name ≡ key ++ sql_suffix)
    × (e.name ≡ name)
    × (e.content ≡ none)

abbrev pub AreReadable : List Entry → Type 0
AreReadable es = All (λ e. ¬ (IsUnreadable e.name e)) es

abbrev pub Some : (Entry → Type 0) → List Entry → Type 0
Some P [] = ⊥
Some P (e ∷ es) = P e ⊎ Some P es

abbrev pub Finds : List Entry → Loading → Type 0
Finds es (loaded out) =
    (out ≢ []) × AreReadable es × ((key : Bytes) → get out key ≡ query_in es key)
Finds es (load_failed not_a_directory) = ⊥
Finds es (load_failed (unreadable name)) = Some (IsUnreadable name) es
Finds es (load_failed no_queries) = AreReadable es × ((key : Bytes) → query_in es key ≡ none)

abbrev name_of : Entry → Option Bytes
name_of e = if e.is_dir then none else trim_suffix e.name

abbrev named : Option Bytes → Option Bytes → Bytes → Option Bytes
named none content key = none
named (some k) content key = if bytes_beq k key then kept content else none

has_suffix :
    (name key : Bytes) → (bytes_beq name (key ++ sql_suffix) ≡ true) ↔ (trim_suffix name ≡ some key)
has_suffix name key = (
  λ same. ap trim_suffix ((bytes_beq_iff name (key ++ sql_suffix)).0 same) ∙ trim_suffix-append key,
  λ e. (bytes_beq_iff name (key ++ sql_suffix)).1 (trim_suffix-Just name key e),
)

by_name :
    (name key : Bytes) (content : Option Bytes)
    → (if bytes_beq name (key ++ sql_suffix) then kept content else none)
      ≡ named (trim_suffix name) content key
by_name name key content = by_option (trim_suffix name) (has_suffix name key)
  where
    by_option :
        (o : Option Bytes)
        → (bytes_beq name (key ++ sql_suffix) ≡ true) ↔ (o ≡ some key)
        → (if bytes_beq name (key ++ sql_suffix) then kept content else none) ≡ named o content key
    by_option none h = ground (arith, h)
    by_option (some k) h = ground (arith, h, bytes_beq_iff k key)

query_of-named : (e : Entry) (key : Bytes) → query_of e key ≡ named (name_of e) e.content key
query_of-named e key = elim (Bool-cases e.is_dir) [
  | inl dir ↦ rw dir refl
  | inr file ↦ rw file (by_name e.name key e.content)
]

get-with_body :
    (out : Map Bytes Bytes) (k body key : Bytes)
    → get (with_body out k (trim_space body)) key
      ≡ or_else (named (some k) (some body) key) (get out key)
unfolding with_body
get-with_body out k body key = ground (arith, get-put out k (trim_space body) key)

-- The loop from any map.
abbrev Goes : List Entry → Map Bytes Bytes → Loading → Type 0
Goes es out (loaded out') =
    AreReadable es × ((key : Bytes) → get out' key ≡ or_else (query_in es key) (get out key))
Goes es out (load_failed not_a_directory) = ⊥
Goes es out (load_failed (unreadable name)) = Some (IsUnreadable name) es
Goes es out (load_failed no_queries) = ⊥

or_else_assoc : (a b c : Option Bytes) → or_else a (or_else b c) ≡ or_else (or_else a b) c
or_else_assoc none b c = refl
or_else_assoc (some x) b c = refl

onward-Goes :
    (e : Entry) (es : List Entry) (out out' : Map Bytes Bytes) (r : Loading)
    → ¬ (IsUnreadable e.name e)
    → ((key : Bytes) → get out' key ≡ or_else (query_of e key) (get out key))
    → Goes es out' r
    → Goes (e ∷ es) out r
onward-Goes e es out out' (loaded m) good step h = (
  (good, h.0),
  λ key.
      h.1 key
      ∙ ap (or_else (query_in es key)) (step key)
      ∙ or_else_assoc (query_in es key) (query_of e key) (get out key),
)
onward-Goes e es out out' (load_failed not_a_directory) good step h = h
onward-Goes e es out out' (load_failed (unreadable name)) good step h = inr h
onward-Goes e es out out' (load_failed no_queries) good step h = h

named_so :
    (e : Entry) (k : Bytes) → name_of e ≡ some k → (e.is_dir ≡ false) × (e.name ≡ k ++ sql_suffix)
named_so e k n = elim (Bool-cases e.is_dir) [
  | inl dir ↦ ground arith
  | inr file ↦ (file, trim_suffix-Just e.name k (ground arith))
]

other_name : (e : Entry) → name_of e ≡ none → ¬ (IsUnreadable e.name e)
other_name e n =
    λ (k, file, name, same, c). ground (arith, ap trim_suffix name ∙ trim_suffix-append k)

read_all-Goes : (es : List Entry) (out : Map Bytes Bytes) → Goes es out (read_all out es)
unfolding read_all read_file
read_all-Goes [] out = (tt, λ key. refl)
read_all-Goes (e ∷ es) out = by_file (λ o. read_all-Goes es o) (name_of e) refl e.content refl
  where
    by_file :
        ((o : Map Bytes Bytes) → Goes es o (read_all o es))
        → (name : Option Bytes) → name_of e ≡ name
        → (content : Option Bytes) → e.content ≡ content
        → Goes (e ∷ es) out (read_file (λ o. read_all o es) out e.name name content)
    by_file ih none n content c =
        onward-Goes e es out out (read_all out es) (other_name e n)
          (λ key. sym (
            ap (λ q. or_else q (get out key))
              (query_of-named e key ∙ ap (λ k. named k e.content key) n)))
          (ih out)
    by_file ih (some k) n none c = inl (k, (named_so e k n).0, (named_so e k n).1, refl, c)
    by_file ih (some k) n (some body) c =
        onward-Goes e es out (with_body out k (trim_space body))
          (read_all (with_body out k (trim_space body)) es) (λ u. ground (arith, u.4, c))
          (λ key.
            get-with_body out k body key
            ∙ sym (
                ap (λ q. or_else q (get out key))
                  (query_of-named e key
                    ∙ ap (λ j. named j e.content key) n
                    ∙ ap (λ b. named (some k) b key) c)))
          (ih (with_body out k (trim_space body)))

or_else-none : (a : Option Bytes) → or_else a none ≡ a
or_else-none none = refl
or_else-none (some x) = refl

unless_empty-Finds : (es : List Entry) (r : Loading) → Goes es [] r → Finds es (unless_empty r)
unfolding unless_empty get
unless_empty-Finds es (loaded []) h = (h.0, λ key. sym (h.1 key ∙ or_else-none (query_in es key)))
unless_empty-Finds es (loaded (x ∷ out)) h =
    ((λ e. ground (arith, e)), h.0, λ key. h.1 key ∙ or_else-none (query_in es key))
unless_empty-Finds es (load_failed not_a_directory) h = h
unless_empty-Finds es (load_failed (unreadable name)) h = h
unless_empty-Finds es (load_failed no_queries) h = elim h [ ]

-- Of the entries of a directory, LoadQueries makes a map that is not empty and that has, under each
-- key, the trimmed text of the last file named by the key and ".sql" whose text is not blank, and no
-- other key. It fails only where such a file cannot be read, which it names, or where no key has a
-- query.
pub load_queries-Finds : (es : List Entry) → Finds es (load_queries (some es))
unfolding load_queries
load_queries-Finds es = unless_empty-Finds es (read_all [] es) (read_all-Goes es [])
