-- ===== src/Core/Cursor/RoundTrip.antt =====
-- A cursor that was handed out is read back as the position that it was made of.
use new_builders_stream.Prelude.{ℕ, ◌==◌, ◌≡◌, refl, false, none, some, List, [], ◌∷◌, ◌++◌, All}
use new_builders_stream.Core.Cursor.{
  Position, Codec, separator, rsplit, encode_cursor, decode_cursor, decode_raw, decode_parts,
}

-- What the standard library documents of these functions.
pub record IsFaithful (codec : Codec) : Type 0 where
  pub b64_decodes : (s : List ℕ) → codec.b64decode (codec.b64encode s) ≡ some s
  pub iso_parses : (t : ℕ) → codec.fromisoformat (codec.isoformat t) ≡ some t
  pub uuid_parses : (u : ℕ) → codec.parse_uuid (codec.uuid_text u) ≡ some u
  pub uuid_plain : (u : ℕ) → All (λ c. (c == separator) ≡ false) (codec.uuid_text u)

rsplit-none : (s : List ℕ) → All (λ c. (c == separator) ≡ false) s → rsplit s ≡ none
unfolding rsplit
rsplit-none [] h = refl
rsplit-none (c ∷ cs) h = rw (rsplit-none cs h.1, h.0)

rsplit-append :
    (a b : List ℕ)
    → All (λ c. (c == separator) ≡ false) b
    → rsplit (a ++ separator ∷ b) ≡ some (a, b)
unfolding rsplit
rsplit-append [] b h = rw (rsplit-none b h)
rsplit-append (c ∷ a) b h = rw (rsplit-append a b h)

-- Where the encodings of the standard library decode to what they encoded, and the text of a UUID
-- holds no separator, decode_cursor takes what encode_cursor makes back to its position.
pub decode_cursor-encode_cursor :
    (codec : Codec) (p : Position)
    → IsFaithful codec
    → decode_cursor codec (encode_cursor codec p) ≡ some p
unfolding decode_cursor encode_cursor decode_raw decode_parts
decode_cursor-encode_cursor codec p f = rw (
  decode_cursor,
  encode_cursor,
  f.b64_decodes,
  decode_raw,
  rsplit-append (codec.isoformat p.created_at) (codec.uuid_text p.id) (f.uuid_plain p.id),
  decode_parts,
  f.iso_parses,
  f.uuid_parses,
)
