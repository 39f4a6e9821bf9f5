-- ===== src/Migrate/Keys.antt =====
-- cmd/migrate/main.go: the keys of the source as sqliteStore reads them from the destination.
use nora_relay.Base.{String, ◌≡◌, refl, ap, ◌∙◌, List, [], ◌∷◌, Option, none, some, All, any, false}
use nora_relay.Sqlite.{KeyRow, Database, Json, Engine, has_id, decode_origins}
use nora_relay.Sqlite.Interchange.{decode_origins-marshal}
use nora_relay.Sqlite.Refinement.{IsFaithful}
use nora_relay.Sqlite.Table.{find}
use nora_relay.Migrate.{KeySource, Scan, row, unreadable, values_of, text_or_empty}
use nora_relay.Migrate.Copies.{HasRow, names}

-- The origins of a key whose column has these, or NULL.
abbrev pub Lists : Option (List String) → List String → Type 0
Lists none origins = origins ≡ []
Lists (some listed) origins = origins ≡ listed

module _ (json : Json) where
  -- The database has a row for the key, with its owner and hash, and origins that are read back as the key's.
  abbrev pub HasKey : Database → Engine × Scan KeySource → Type 0
  HasKey db (engine, unreadable e) = ⊥
  HasKey db (engine, row source) =
      (found : KeyRow) × (find (has_id source.id) db.api_keys ≡ some found)
      × (found.owner_account ≡ source.owner_account)
      × (found.key_hash ≡ source.key_hash)
      × Lists source.allowed_origins (decode_origins json found.allowed_origins)

  -- Every key of the source is there, and the other keys are as they were.
  abbrev pub HasKeys : List (Engine × Scan KeySource) → Database → Database → Type 0
  HasKeys rows db db' =
      All (HasKey db') rows
      × ((id : String)
          → any (names id) rows ≡ false
          → find (has_id id) db'.api_keys ≡ find (has_id id) db.api_keys)

  module _ (faithful : IsFaithful json) where
    read_back :
        (origins : List String)
        → decode_origins json (text_or_empty (json.marshal origins)) ≡ origins
    read_back origins =
        let (text, written) = faithful.total origins in
        ap (λ t. decode_origins json (text_or_empty t)) written
        ∙ decode_origins-marshal json faithful "" (λ bs. bs) origins text written

    values-Lists :
        (source : KeySource)
        → Lists source.allowed_origins (decode_origins json (values_of json source).allowed_origins)
    values-Lists source = go source.allowed_origins
      where
        go :
            (o : Option (List String))
            → Lists o (
                decode_origins json
                  (values_of json (record source { allowed_origins = o })).allowed_origins)
        go none = read_back []
        go (some listed) = read_back listed

    pub HasRow-HasKey :
        (db : Database) (rows : List (Engine × Scan KeySource))
        → All (HasRow json db) rows
        → All (HasKey db) rows
    HasRow-HasKey db [] h = tt
    HasRow-HasKey db ((engine, unreadable e) ∷ rows) (h, hs) = absurd h
    HasRow-HasKey db ((engine, row source) ∷ rows) (h, hs) =
        ((values_of json source, h, refl, refl, values-Lists source), HasRow-HasKey db rows hs)
