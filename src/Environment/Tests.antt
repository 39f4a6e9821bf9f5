-- ===== src/Environment/Tests.antt =====
-- The environment files at concrete inputs.
use nora_relay.Base.{String, ◌==◌, ◌≡◌, refl, List, [], ◌∷◌, Option, none, some, if◌then◌else◌}
use nora_relay.Base.Map
use nora_relay.Text.{trim_space, trim_left, trim_right, cut_prefix}
use nora_relay.Environment.{cut_equals, drop_quote, unquote, dotenv_value, assignment, load_dot_env}
use nora_relay.Environment.Precedence.{lookup-load_dot_env}

assignment_exported : assignment " export KEY = 'a b' " ≡ some ("KEY", "a b")
unfolding assignment cut_equals drop_quote unquote dotenv_value trim_space trim_left trim_right
    cut_prefix
assignment_exported = refl

assignment_comment : assignment "# KEY=a" ≡ none
unfolding assignment_exported
assignment_comment = refl

abbrev files : String → Option (List String)
files name =
    if name == ".env.local"
    then some ("# local" ∷ "LISTEN=:1" ∷ [])
    else some ("LISTEN=:2" ∷ "DB=\"x\"" ∷ [])

lookup-load_dot_env_example : Map.lookup (load_dot_env files Map.empty) "LISTEN" ≡ some ":1"
unfolding assignment_exported Map.empty Map.lookup
lookup-load_dot_env_example = lookup-load_dot_env files Map.empty "LISTEN"
