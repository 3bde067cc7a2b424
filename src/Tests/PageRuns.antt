-- ===== src/Tests/PageRuns.antt =====
-- Pages of a small table, over a plain codec.
use mathlib.Core.List.{Perm}
use new_builders_stream.Prelude.{
  ℕ, zero, suc, ◌==◌, ◌≡◌, refl, false, Option, some, none, List, [], ◌∷◌, length, All, arith,
}
use new_builders_stream.Core.Cursor.{Codec, Position, separator, encode_cursor, decode_cursor}
use new_builders_stream.Core.Cursor.RoundTrip.{IsFaithful, decode_cursor-encode_cursor}
use new_builders_stream.Core.Pagination.{
  paginate, fetch_page, trim, take, get_last?, order_by, page,
}
use new_builders_stream.Core.Pagination.Order.{IsSorted}
use new_builders_stream.Core.Pagination.Walk.{walk, walk_lem}

zeros : ℕ → List ℕ
zeros zero = []
zeros (suc n) = 48 ∷ zeros n

abbrev one_number : List ℕ → Option ℕ
one_number (t ∷ []) = some t
one_number _ = none

abbrev plain : Codec
plain = record {
  b64encode = λ s. s;
  b64decode = some;
  isoformat = λ t. t ∷ [];
  fromisoformat = one_number;
  uuid_text = zeros;
  parse_uuid = λ s. some (length s);
}

length-zeros : (u : ℕ) → length (zeros u) ≡ u
unfolding zeros
length-zeros zero = refl
length-zeros (suc u) = rw (length-zeros u)

zeros_plain : (u : ℕ) → All (λ c. (c == separator) ≡ false) (zeros u)
unfolding zeros
zeros_plain zero = tt
zeros_plain (suc u) = (refl, zeros_plain u)

plain-IsFaithful : IsFaithful plain
plain-IsFaithful = record {
  b64_decodes = λ s. refl;
  iso_parses = λ t. refl;
  uuid_parses = λ u. rw (length-zeros u);
  uuid_plain = zeros_plain;
}

abbrev march_first : Position
march_first = record { created_at = 60; id = 2 }

decode_cursor-encode_cursor_example :
    decode_cursor plain (encode_cursor plain march_first) ≡ some march_first
decode_cursor-encode_cursor_example = decode_cursor-encode_cursor plain march_first plain-IsFaithful

-- Two of the rows were created at the same time.
abbrev three_rows : List Position
three_rows =
    record { created_at = 60; id = 3 } ∷ march_first ∷ record { created_at = 59; id = 5 } ∷ []

two_to_a_page :
    paginate (λ r. r) plain none 2 three_rows
    ≡ page
        (record { created_at = 59; id = 5 } ∷ march_first ∷ [])
        (some (encode_cursor plain march_first))
unfolding paginate fetch_page trim take get_last? order_by
two_to_a_page = refl

walk_lem_example :
    (all : List Position) × (walk (λ r. r) plain 4 none 2 three_rows ≡ some all)
    × IsSorted (λ r. r) all
    × Perm all three_rows
walk_lem_example =
    walk_lem (λ r. r) plain 2 4 three_rows plain-IsFaithful
      ((refl, (refl, tt)), ((refl, tt), (tt, tt))) (omega arith) (omega arith)
