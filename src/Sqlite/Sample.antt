-- ===== src/Sqlite/Sample.antt =====
-- A faithful encoding of lists of texts, at which tests run the code of sqliteStore.
use Prim.Native.Char.{Char, code}
use nora_relay.Base.{
  ℕ, String, ◌==◌, eq_iff, ◌≡◌, ◌≢◌, refl, ap, subst, List, [], ◌∷◌, Option, none, some, arith,
  nat_eq, if◌then◌else◌,
}
use nora_relay.Sqlite.{Json}
use nora_relay.Sqlite.Refinement.{IsFaithful}

-- A text, every character behind a backslash and a quote at its end.
abbrev write_text : String → String → String
write_text String.[] rest = String.◌∷◌ "\"" rest
write_text (String.◌∷◌ c s) rest = String.◌∷◌ "\\" (String.◌∷◌ c (write_text s rest))

abbrev write_texts : List String → String
write_texts [] = ""
write_texts (t ∷ ts) = write_text t (write_texts ts)

abbrev new_text : Option (List String) → Option (List String)
new_text none = none
new_text (some ts) = some ("" ∷ ts)

abbrev put_char : Char → Option (List String) → Option (List String)
put_char c none = none
put_char c (some []) = none
put_char c (some (t ∷ ts)) = some (String.◌∷◌ c t ∷ ts)

unfoldable pub read_texts : String → Option (List String)
read_texts String.[] = some []
read_texts (String.◌∷◌ c String.[]) = if nat_eq (code c) 34 then some ("" ∷ []) else none
read_texts (String.◌∷◌ c (String.◌∷◌ d s)) =
    let ends = new_text (read_texts (String.◌∷◌ d s)) in
    let goes_on = put_char d (read_texts s) in if nat_eq (code c) 34 then ends else goes_on

read_texts-write_text :
    (t rest : String) (ts : List String)
    → read_texts rest ≡ some ts
    → read_texts (write_text t rest) ≡ some (t ∷ ts)
unfolding read_texts
read_texts-write_text String.[] String.[] ts e = ground arith
read_texts-write_text String.[] (String.◌∷◌ d s) ts e = rw (e) refl
read_texts-write_text (String.◌∷◌ c t) rest ts e = rw (read_texts-write_text t rest ts e) refl

read_texts-write_texts : (ts : List String) → read_texts (write_texts ts) ≡ some ts
unfolding read_texts
read_texts-write_texts [] = refl
read_texts-write_texts (t ∷ ts) =
    read_texts-write_text t (write_texts ts) ts (read_texts-write_texts ts)

abbrev first_code : String → ℕ
first_code String.[] = 0
first_code (String.◌∷◌ c s) = code c

write_text-ne : (t rest : String) → (write_text t rest ≢ "") × (write_text t rest ≢ "[]")
write_text-ne String.[] rest =
    (λ e. absurd (omega (arith, ap first_code e)), λ e. absurd (omega (arith, ap first_code e)))
write_text-ne (String.◌∷◌ c t) rest =
    (λ e. absurd (omega (arith, ap first_code e)), λ e. absurd (omega (arith, ap first_code e)))

abbrev marshal : List String → Option String
marshal [] = some "[]"
marshal (t ∷ ts) = some (write_texts (t ∷ ts))

abbrev pub slashed : Json
slashed = record {
  marshal = marshal;
  marshal_error = "";
  unmarshal = λ s. if s == "[]" then some [] else read_texts s;
}

abbrev text_or_empty : Option String → String
text_or_empty none = ""
text_or_empty (some s) = s

IsReadBack : List String → String → Type 0
IsReadBack origins text = (slashed.unmarshal text ≡ some origins) × (text ≢ "")

written : (origins : List String) → IsReadBack origins (text_or_empty (marshal origins))
unfolding IsReadBack
written [] = (refl, λ e. absurd (omega (arith, ap first_code e)))
written (t ∷ ts) =
    let (some_text, not_empty_list) = write_text-ne t (write_texts ts) in
    (
      ground (
        arith,
        eq_iff (write_text t (write_texts ts)) "[]",
        not_empty_list,
        read_texts-write_texts (t ∷ ts),
      ),
      some_text,
    )

slashed_back :
    (origins : List String) (text : String) → marshal origins ≡ some text → IsReadBack origins text
slashed_back origins text e = subst (IsReadBack origins) (ap text_or_empty e) (written origins)

marshal-total : (origins : List String) → (text : String) × (marshal origins ≡ some text)
marshal-total [] = ("[]", refl)
marshal-total (t ∷ ts) = (write_texts (t ∷ ts), refl)

pub slashed-IsFaithful : IsFaithful slashed
unfolding IsReadBack
slashed-IsFaithful = record { total = marshal-total; read_back = slashed_back; no_origins = refl }
