-- ===== src/Pieces.antt =====
-- The fragments of a packet as the wire sees them: header 201, the index of the set, the number of
-- the fragment, the count of fragments, and the payload.
use lib_tox_tun.Base.{ℕ, ◌+◌, ◌%◌, ◌≤◌, ◌<◌, true, List, [], ◌∷◌, ◌++◌, length}
use lib_tox_tun.Data.{Data}

abbrev pub piece : ℕ → ℕ → ℕ → List ℕ → Data
piece index count k chunk = record {
  bytes = 201 ∷ index ∷ k % 256 ∷ count % 256 ∷ chunk;
  tox_header_set = true;
}

abbrev pub pieces : ℕ → ℕ → ℕ → List (List ℕ) → List Data
pieces index count k [] = []
pieces index count k (chunk ∷ chunks) =
    piece index count k chunk ∷ pieces index count (k + 1) chunks

-- Every payload has between one and `most` bytes.
abbrev pub Fit : ℕ → List (List ℕ) → Type 0
Fit most [] = Unit {0}
Fit most (c ∷ cs) = (0 < length c) × (length c ≤ most) × Fit most cs

abbrev pub joined : List (List ℕ) → List ℕ
joined [] = []
joined (c ∷ cs) = c ++ joined cs
