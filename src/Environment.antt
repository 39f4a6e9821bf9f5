-- ===== src/Environment.antt =====
-- cmd/relay/env.go: the environment files. The process environment is a map, in which os.Setenv succeeds;
-- a file is the lines that bufio.Scanner gives, or `none` if it cannot be opened.
pub mod Precedence
mod Tests
use Prim.Native.Char.{code}
use Prim.Native.String
use nora_relay.Base.{
  ℕ, String, ◌==◌, Bool, true, false, ◌||◌, List, [], ◌∷◌, Option, none, some, nat_eq,
  if◌then◌else◌,
}
use nora_relay.Base.Map
use nora_relay.Base.Map.{Map}
use nora_relay.Text.{trim_space, trim_prefix, has_prefix}

-- strings.Cut(s, "=")
unfoldable pub cut_equals : String → Option (String × String)
cut_equals String.[] = none
cut_equals (String.◌∷◌ c s) =
    let rest = cut_equals s in
    if nat_eq (code c) b'='
    then some ("", s)
    else elim rest [ none ↦ none | some (key, val) ↦ some (String.◌∷◌ c key, val) ]

-- The text before its last character, if that is the quote.
unfoldable pub drop_quote : (quote : ℕ) → String → Option String
drop_quote quote String.[] = none
drop_quote quote (String.◌∷◌ c String.[]) = if nat_eq (code c) quote then some "" else none
drop_quote quote (String.◌∷◌ c (String.◌∷◌ d s)) = elim (drop_quote quote (String.◌∷◌ d s)) [
  | none ↦ none
  | some rest ↦ some (String.◌∷◌ c rest)
]

-- The text without the quotes around it, if it has them.
unfoldable pub unquote : String → String
unquote String.[] = ""
unquote (String.◌∷◌ c s) =
    if nat_eq (code c) 34 || nat_eq (code c) 39
    then elim (drop_quote (code c) s) [ none ↦ String.◌∷◌ c s | some rest ↦ rest ]
    else String.◌∷◌ c s

unfoldable pub dotenv_value : String → String
unfolding unquote
dotenv_value v = unquote (trim_space v)

-- The variable and the value that a line of a file gives.
unfoldable pub assignment : String → Option (String × String)
assignment text =
    let line = trim_space text in
    if line == "" || has_prefix line "#"
    then none
    else elim (cut_equals (trim_prefix line "export ")) [
      | none ↦ none
      | some (before, val) ↦
          let key = trim_space before in if key == "" then none else some (key, dotenv_value val)
    ]

-- The end of the loop's body: LookupEnv and Setenv.
unfoldable pub set_missing : Option (String × String) → Map String → Map String
set_missing none env = env
set_missing (some (key, val)) env = elim (Map.lookup env key) [
  | some _ ↦ env
  | none ↦ Map.insert key val env
]

unfoldable pub apply_lines : List String → Map String → Map String
unfolding set_missing
apply_lines [] env = env
apply_lines (line ∷ lines) env = apply_lines lines (set_missing (assignment line) env)

unfoldable pub apply_env_file : Option (List String) → Map String → Bool × Map String
apply_env_file none env = (false, env)
apply_env_file (some lines) env = (true, apply_lines lines env)

unfoldable pub load_dot_env : (files : String → Option (List String)) → Map String → Map String
unfolding apply_env_file
load_dot_env files env =
    (apply_env_file (files ".env") (apply_env_file (files ".env.local") env).1).1
