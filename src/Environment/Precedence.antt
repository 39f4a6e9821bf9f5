-- ===== src/Environment/Precedence.antt =====
-- cmd/relay/env.go: which value a variable has after the files are loaded.
use nora_relay.Base.{
  String, ◌==◌, eq_iff, ◌≡◌, refl, List, [], ◌∷◌, Option, none, some, arith, if◌then◌else◌,
}
use nora_relay.Base.Map
use nora_relay.Base.Map.{Map, lookup-insert}
use nora_relay.Environment.{assignment, set_missing, apply_lines, apply_env_file, load_dot_env}

-- The value that an assignment gives to a variable.
abbrev pub value_for : String → Option (String × String) → Option String
value_for key none = none
value_for key (some (k, val)) = if k == key then some val else none

abbrev pub or_else : Option String → Option String → Option String
or_else (some v) o = some v
or_else none o = o

-- The value of the first line that sets the variable.
abbrev pub first_value : String → List String → Option String
first_value key [] = none
first_value key (line ∷ lines) = or_else (value_for key (assignment line)) (first_value key lines)

abbrev pub lines_of : Option (List String) → List String
lines_of none = []
lines_of (some lines) = lines

lookup-set_missing :
    (a : Option (String × String)) (env : Map String) (key : String)
    → Map.lookup (set_missing a env) key ≡ or_else (Map.lookup env key) (value_for key a)
unfolding set_missing
lookup-set_missing none env key = ground arith
lookup-set_missing (some (k, val)) env key =
    ground (arith, lookup-insert env k key val, eq_iff k key)

or_else_assoc : (a b c : Option String) → or_else (or_else a b) c ≡ or_else a (or_else b c)
or_else_assoc (some v) b c = refl
or_else_assoc none b c = refl

lookup-apply_lines :
    (lines : List String) (env : Map String) (key : String)
    → Map.lookup (apply_lines lines env) key ≡ or_else (Map.lookup env key) (first_value key lines)
unfolding apply_lines
lookup-apply_lines [] env key = ground arith
lookup-apply_lines (line ∷ lines) env key = ground (
  arith,
  lookup-apply_lines lines (set_missing (assignment line) env) key,
  lookup-set_missing (assignment line) env key,
)

lookup-apply_env_file :
    (file : Option (List String)) (env : Map String) (key : String)
    → Map.lookup (apply_env_file file env).1 key
      ≡ or_else (Map.lookup env key) (first_value key (lines_of file))
unfolding apply_env_file
lookup-apply_env_file none env key = ground arith
lookup-apply_env_file (some lines) env key = lookup-apply_lines lines env key

-- After the files are loaded, a variable has the value of the real environment if it was set
-- there, else that of the first line of .env.local that sets it, else that of the first such line
-- of .env; a file that cannot be opened sets nothing.
pub lookup-load_dot_env :
    (files : String → Option (List String)) (env : Map String) (key : String)
    → Map.lookup (load_dot_env files env) key
      ≡ or_else (Map.lookup env key) (
          or_else
            (first_value key (lines_of (files ".env.local")))
            (first_value key (lines_of (files ".env"))))
unfolding load_dot_env
lookup-load_dot_env files env key = ground (
  arith,
  lookup-apply_env_file (files ".env.local") env key,
  lookup-apply_env_file (files ".env") (apply_env_file (files ".env.local") env).1 key,
)
