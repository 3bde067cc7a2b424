-- ===== src/Core/Cursor.antt =====
-- backend/app/core/pagination.py: the opaque cursor. Base64, ISO timestamps and the text of UUIDs are
-- Python's standard library's, as a record of functions over code points.
pub mod RoundTrip
use new_builders_stream.Prelude.{ℕ, ◌==◌, if◌then◌else◌, Option, none, some, List, [], ◌∷◌, ◌++◌}

-- The sort key of a row: `created_at`, then `id`.
pub record Position : Type 0 where
  pub created_at : ℕ
  pub id : ℕ

-- `urlsafe_b64encode`, `urlsafe_b64decode`, `isoformat`, `fromisoformat`, `str` and `uuid.UUID`;
-- none for an exception.
pub record Codec : Type 0 where
  pub b64encode : List ℕ → List ℕ
  pub b64decode : List ℕ → Option (List ℕ)
  pub isoformat : ℕ → List ℕ
  pub fromisoformat : List ℕ → Option ℕ
  pub uuid_text : ℕ → List ℕ
  pub parse_uuid : List ℕ → Option ℕ

-- _CURSOR_SEPARATOR, "|".
abbrev pub separator : ℕ
separator = 124

-- `raw.rsplit("|", 1)` into two parts; none if there is no separator.
unfoldable pub rsplit : List ℕ → Option (List ℕ × List ℕ)
rsplit [] = none
rsplit (c ∷ cs) = elim (rsplit cs) [
  | some (before, after) ↦ some (c ∷ before, after)
  | none ↦ if c == separator then some ([], cs) else none
]

module _ (codec : Codec) where
  unfoldable pub encode_cursor : Position → List ℕ
  encode_cursor p =
      codec.b64encode (codec.isoformat p.created_at ++ separator ∷ codec.uuid_text p.id)

  decode_parts : List ℕ × List ℕ → Option Position
  decode_parts (created_at_str, id_str) = elim (codec.fromisoformat created_at_str) [
    | none ↦ none
    | some created_at ↦ elim (codec.parse_uuid id_str) [
      | none ↦ none
      | some id ↦ some (record { created_at = created_at; id = id })
    ]
  ]

  decode_raw : List ℕ → Option Position
  unfolding rsplit decode_parts
  decode_raw raw = elim (rsplit raw) [ none ↦ none | some parts ↦ decode_parts parts ]

  -- none is InvalidCursorError.
  unfoldable pub decode_cursor : List ℕ → Option Position
  unfolding decode_raw
  decode_cursor cursor = elim (codec.b64decode cursor) [ none ↦ none | some raw ↦ decode_raw raw ]
