-- ===== src/Config.antt =====
-- internal/config/config.go: the readers of environment variables, where an empty variable is one that
-- is not set. The parsers of strconv and of time.ParseDuration are parameters, whose failure is `none`.
-- Of Load, what stands here is the part that a model uses.
use go_dota.Base.{Option, none, some, List, [], ◌∷◌, map, String, string_eq, ◌==◌, if◌then◌else◌}

-- os.Getenv
abbrev pub Environment : Type 0
Environment = String → String

unfoldable pub get_str : Environment → String → String → String
get_str env key default = if env key == "" then default else env key

-- strings.Split, and strings.TrimSpace on each part.
unfoldable pub get_strs :
    (String → String → List String)
    → (String → String)
    → Environment
    → String
    → String
    → List String
get_strs split trim env key separator =
    if env key == ""
    then if key == "REDIS_ADDRS" then "127.0.0.1:6379" ∷ [] else []
    else map trim (split (env key) separator)

unfoldable pub parsed_or : {A : Type 0} → A → Option A → A
parsed_or d none = d
parsed_or d (some a) = a

-- getInt, getInt64, getFloat, getBool and getDur, which differ in the parser.
unfoldable pub get_parsed : {A : Type 0} → (String → Option A) → Environment → String → A → A
unfolding parsed_or
get_parsed parse env key default =
    if env key == "" then default else parsed_or default (parse (env key))

-- The member Migrator.MigrationsDir of the configuration.
unfoldable pub migrations_dir : Environment → String
unfolding get_str
migrations_dir env = get_str env "MIGRATOR_MIGRATIONS_DIR" "/migrations"
