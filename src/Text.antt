-- ===== src/Text.antt =====
-- Text as the source uses it: the bytes of a string, encoding/hex, and trimming and prefixes (strings).
pub mod Hex
use Prim.Native.Char.{Char, code}
use nora_relay.Base.{
  ◌==◌, ◌||◌, true, false, Bool, nat_eq, ℕ, zero, suc, ◌+◌, ◌-◌, ◌*◌, ◌/◌, ◌%◌, String, ◌&&◌, List,
  [], ◌∷◌, ◌++◌, Option, none, some, ltb, leb, if◌then◌else◌,
}

-- The UTF-8 bytes of a code point.
abbrev pub utf8 : ℕ → List ℕ
utf8 c =
    if ltb c 0x80
    then c ∷ []
    else if ltb c 0x800
    then (0xc0 + c / 64) ∷ (0x80 + c % 64) ∷ []
    else if ltb c 0x1_0000
    then (0xe0 + c / 4096) ∷ (0x80 + c / 64 % 64) ∷ (0x80 + c % 64) ∷ []
    else (0xf0 + c / 262144) ∷ (0x80 + c / 4096 % 64) ∷ (0x80 + c / 64 % 64) ∷ (0x80 + c % 64) ∷ []

-- []byte(s)
unfoldable pub bytes : String → List ℕ
bytes String.[] = []
bytes (String.◌∷◌ c s) = utf8 (code c) ++ bytes s

-- A digit of "0123456789abcdef".
abbrev pub hex_digit : ℕ → Char
hex_digit zero = "0"
hex_digit (suc zero) = "1"
hex_digit (suc (suc zero)) = "2"
hex_digit (suc (suc (suc zero))) = "3"
hex_digit (suc (suc (suc (suc zero)))) = "4"
hex_digit (suc (suc (suc (suc (suc zero))))) = "5"
hex_digit (suc (suc (suc (suc (suc (suc zero)))))) = "6"
hex_digit (suc (suc (suc (suc (suc (suc (suc zero))))))) = "7"
hex_digit (suc (suc (suc (suc (suc (suc (suc (suc zero)))))))) = "8"
hex_digit (suc (suc (suc (suc (suc (suc (suc (suc (suc zero))))))))) = "9"
hex_digit (suc (suc (suc (suc (suc (suc (suc (suc (suc (suc zero)))))))))) = "a"
hex_digit (suc (suc (suc (suc (suc (suc (suc (suc (suc (suc (suc zero))))))))))) = "b"
hex_digit (suc (suc (suc (suc (suc (suc (suc (suc (suc (suc (suc (suc zero)))))))))))) = "c"
hex_digit (suc (suc (suc (suc (suc (suc (suc (suc (suc (suc (suc (suc (suc zero))))))))))))) = "d"
hex_digit (suc (suc (suc (suc (suc (suc (suc (suc (suc (suc (suc (suc (suc (suc zero)))))))))))))) =
    "e"
hex_digit _ = "f"

-- hex.EncodeToString
unfoldable pub hex_encode : List ℕ → String
hex_encode [] = ""
hex_encode (b ∷ bs) =
    String.◌∷◌ (hex_digit (b / 16)) (String.◌∷◌ (hex_digit (b % 16)) (hex_encode bs))

-- The value of a hexadecimal digit, given as a byte.
unfoldable pub from_hex_char : ℕ → Option ℕ
from_hex_char c =
    if leb b'0' c && leb c b'9'
    then some (c - b'0')
    else if leb b'a' c && leb c b'f'
    then some (c - b'a' + 10)
    else if leb b'A' c && leb c b'F'
    then some (c - b'A' + 10)
    else none

-- hex.DecodeString, `none` for an error
unfoldable pub hex_decode : List ℕ → Option (List ℕ)
hex_decode [] = some []
hex_decode (c ∷ []) = none
hex_decode (c ∷ d ∷ s) =
    let rest = hex_decode s in
    elim (from_hex_char c) [
      | none ↦ none
      | some high ↦ elim (from_hex_char d) [
        | none ↦ none
        | some low ↦ elim rest [ none ↦ none | some bs ↦ some ((high * 16 + low) ∷ bs) ]
      ]
    ]

-- unicode.IsSpace
abbrev is_space : ℕ → Bool
is_space c =
    leb 9 c && leb c 13
    || nat_eq c 0x20
    || nat_eq c 0x85
    || nat_eq c 0xa0
    || nat_eq c 0x1680
    || leb 0x2000 c && leb c 0x200a
    || nat_eq c 0x2028
    || nat_eq c 0x2029
    || nat_eq c 0x202f
    || nat_eq c 0x205f
    || nat_eq c 0x3000

unfoldable pub trim_left : String → String
trim_left String.[] = ""
trim_left (String.◌∷◌ c s) =
    let rest = trim_left s in if is_space (code c) then rest else String.◌∷◌ c s

unfoldable pub trim_right : String → String
trim_right String.[] = ""
trim_right (String.◌∷◌ c s) =
    let rest = trim_right s in if rest == "" && is_space (code c) then "" else String.◌∷◌ c rest

-- strings.TrimSpace
unfoldable pub trim_space : String → String
trim_space s = trim_right (trim_left s)

unfoldable pub cut_prefix : (prefix s : String) → Option String
cut_prefix String.[] s = some s
cut_prefix (String.◌∷◌ p prefix) String.[] = none
cut_prefix (String.◌∷◌ p prefix) (String.◌∷◌ c s) =
    let rest = cut_prefix prefix s in if nat_eq (code p) (code c) then rest else none

-- strings.TrimPrefix
abbrev pub trim_prefix : (s prefix : String) → String
trim_prefix s prefix = elim (cut_prefix prefix s) [ none ↦ s | some rest ↦ rest ]

-- strings.HasPrefix
abbrev pub has_prefix : (s prefix : String) → Bool
has_prefix s prefix = elim (cut_prefix prefix s) [ none ↦ false | some _ ↦ true ]
