-- ===== src/Worker/Discovery/Queries.antt =====
-- internal/worker/discovery/loader.go. A text is the list of its code points. The directory is what
-- os.ReadDir and os.ReadFile hand over; logs are left out.
pub mod Suffix
pub mod Finding
mod Examples
use go_dota.Base.{
  ℕ, Bool, true, false, not, ◌&&◌, ◌||◌, Option, none, some, List, [], ◌∷◌, Map, put, Eq, ltb, leb,
  nat_beq, nat_beq_iff, ◌==◌, if◌then◌else◌,
}
use go_dota.Base.Bytes.{Bytes, bytes_beq, bytes_eq, is_empty}

-- unicode.IsSpace
unfoldable pub is_space : ℕ → Bool
is_space c =
    leb 9 c && leb c 13
    || nat_beq c 32
    || nat_beq c 133
    || nat_beq c 160
    || nat_beq c 5760
    || leb 8192 c && leb c 8202
    || nat_beq c 8232
    || nat_beq c 8233
    || nat_beq c 8239
    || nat_beq c 8287
    || nat_beq c 12288

unfoldable pub trim_left : Bytes → Bytes
unfolding is_space
trim_left [] = []
trim_left (c ∷ cs) = let rest = trim_left cs in if is_space c then rest else c ∷ cs

unfoldable pub trim_right : Bytes → Bytes
unfolding is_space is_empty
trim_right [] = []
trim_right (c ∷ cs) =
    let rest = trim_right cs in if is_empty rest && is_space c then [] else c ∷ rest

-- strings.TrimSpace
unfoldable pub trim_space : Bytes → Bytes
unfolding trim_left trim_right
trim_space text = trim_right (trim_left text)

abbrev pub sql_suffix : Bytes
sql_suffix = 46 ∷ 115 ∷ 113 ∷ 108 ∷ []

unfoldable pub before : ℕ → Option Bytes → Option Bytes
before c none = none
before c (some key) = some (c ∷ key)

-- strings.HasSuffix with strings.TrimSuffix, for the suffix ".sql".
unfoldable pub trim_suffix : Bytes → Option Bytes
unfolding bytes_beq before
trim_suffix [] = none
trim_suffix (c ∷ cs) =
    let rest = trim_suffix cs in if bytes_beq (c ∷ cs) sql_suffix then some [] else before c rest

-- An entry of the directory; `content` is `none` when the file cannot be read.
pub record Entry : Type 0 where
  pub name : Bytes
  pub is_dir : Bool
  pub content : Option Bytes

pub data LoadError : Type 0 where
  not_a_directory : LoadError
  unreadable : Bytes → LoadError
  no_queries : LoadError

pub data Loading : Type 0 where
  loaded : List (Bytes × Bytes) → Loading
  load_failed : LoadError → Loading

unfoldable pub with_body : Map Bytes Bytes → Bytes → Bytes → Map Bytes Bytes
unfolding is_empty put
with_body out key body = if is_empty body then out else put out key body

-- What the rest of the loop does after an entry, for a file of that name.
unfoldable pub read_file :
    (Map Bytes Bytes → Loading) → Map Bytes Bytes → Bytes → Option Bytes → Option Bytes → Loading
unfolding with_body trim_space
read_file rest out name none content = rest out
read_file rest out name (some key) none = load_failed (unreadable name)
read_file rest out name (some key) (some body) = rest (with_body out key (trim_space body))

-- The loop over the entries.
unfoldable pub read_all : Map Bytes Bytes → List Entry → Loading
unfolding read_file trim_suffix
read_all out [] = loaded out
read_all out (e ∷ es) =
    read_file (λ o. read_all o es) out e.name (if e.is_dir then none else trim_suffix e.name)
      e.content

unfoldable pub unless_empty : Loading → Loading
unless_empty (load_failed err) = load_failed err
unless_empty (loaded []) = load_failed no_queries
unless_empty (loaded ((key, body) ∷ out)) = loaded ((key, body) ∷ out)

-- LoadQueries, for what os.ReadDir returned.
unfoldable pub load_queries : Option (List Entry) → Loading
unfolding read_all unless_empty
load_queries none = load_failed not_a_directory
load_queries (some es) = unless_empty (read_all [] es)
