-- ===== src/Command/Migrator/Directory.antt =====
-- Where the migrator looks for migrations (cmd/migrator/main.go, with internal/config/config.go).
use go_dota.Base.{
  ◌≡◌, refl, false, String, string_eq, ◌==◌, if◌then◌else◌, Bool-cases, inl, inr, ◌∙◌, sym, ap,
}
use go_dota.Config.{Environment, get_str, migrations_dir}

-- getEnv
unfoldable pub get_env : Environment → String → String → String
get_env env key default = if env key == "" then default else env key

unfoldable pub directory : Environment → String
unfolding migrations_dir get_env
directory env =
    let dir = migrations_dir env in
    if dir == "" then get_env env "MIGRATIONS_DIR" "/migrations" else dir

-- The directory of the configuration is never empty, since its default is not.
pub migrations_dir_named : (env : Environment) → (migrations_dir env == "") ≡ false
unfolding migrations_dir get_str
migrations_dir_named env = elim (Bool-cases (env "MIGRATOR_MIGRATIONS_DIR" == "")) [
  | inl e ↦ rw e refl
  | inr e ↦ rw (e, e) refl
]

unfoldable with_default : String → String
with_default value = if value == "" then "/migrations" else value

chosen : (env : Environment) → directory env ≡ with_default (env "MIGRATOR_MIGRATIONS_DIR")
unfolding directory migrations_dir get_str with_default
chosen env = by_test (migrations_dir_named env)
  where
    by_test :
        (migrations_dir env == "") ≡ false
        → directory env ≡ with_default (env "MIGRATOR_MIGRATIONS_DIR")
    by_test e = rw e refl

-- The variable MIGRATIONS_DIR has no effect: two environments that agree on MIGRATOR_MIGRATIONS_DIR
-- lead to the same directory.
pub directory_ignores :
    (env env' : Environment)
    → env "MIGRATOR_MIGRATIONS_DIR" ≡ env' "MIGRATOR_MIGRATIONS_DIR"
    → directory env ≡ directory env'
directory_ignores env env' same = chosen env ∙ ap with_default same ∙ sym (chosen env')
