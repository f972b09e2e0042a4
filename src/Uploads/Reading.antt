-- ===== src/Uploads/Reading.antt =====
-- The chunked read of api/routers/classification.py against reading everything first.
use mathlib.Core.List.{append-nil, append_assoc}
use ml_engineer_challenge_so.Prelude.{
  ℕ, ◌≤◌, ◌≡◌, true, inl, inr, ltb, if◌then◌else◌, Bool-cases, List, [], ◌∷◌, ◌++◌, length,
  length-append, Result, ok, err, arith,
}
use ml_engineer_challenge_so.Errors.{ApiError, error, number, payload_too_large}
use ml_engineer_challenge_so.Uploads.{Bytes, read_chunks, read_upload}

-- The whole body: the chunks before the first empty one, which marks the end of the file.
abbrev pub body : List Bytes → Bytes
body [] = []
body ([] ∷ chunks) = []
body ((b ∷ bs) ∷ chunks) = (b ∷ bs) ++ body chunks

-- Read everything, then test the size.
abbrev pub capped : ℕ → Bytes → Result ApiError Bytes
capped max_bytes all =
    if ltb max_bytes (length all)
    then err (error payload_too_large (("max_bytes", number max_bytes) ∷ []))
    else ok all

capped_longer :
    (max_bytes : ℕ) (front back : Bytes)
    → ltb max_bytes (length front) ≡ true
    → capped max_bytes (front ++ back)
      ≡ err (error payload_too_large (("max_bytes", number max_bytes) ∷ []))
capped_longer max_bytes front back h = ground (arith, length-append front back)

read_chunks-eq :
    (max_bytes : ℕ) (buffer : Bytes) (chunks : List Bytes)
    → length buffer ≤ max_bytes
    → read_chunks max_bytes buffer chunks ≡ capped max_bytes (buffer ++ body chunks)
unfolding read_chunks
read_chunks-eq max_bytes buffer [] h = rw append-nil (ground arith)
read_chunks-eq max_bytes buffer ([] ∷ chunks) h = rw append-nil (ground arith)
read_chunks-eq max_bytes buffer ((b ∷ bs) ∷ chunks) h =
    elim (Bool-cases (ltb max_bytes (length (buffer ++ (b ∷ bs))))) [
      | inl over ↦ rw (
        over,
        ← append_assoc buffer (b ∷ bs) (body chunks),
        capped_longer max_bytes (buffer ++ (b ∷ bs)) (body chunks) over,
      )
      | inr within ↦
          rw (within, ← append_assoc buffer (b ∷ bs) (body chunks))
            (read_chunks-eq max_bytes (buffer ++ (b ∷ bs)) chunks (ground arith))
    ]

-- Reading in chunks and stopping at the limit gives what reading the whole body and then testing
-- its size would give: the body when it fits, and the size error when it does not.
pub read_upload-eq-capped :
    (chunks : List Bytes) (max_bytes : ℕ)
    → read_upload chunks max_bytes ≡ capped max_bytes (body chunks)
unfolding read_upload
read_upload-eq-capped chunks max_bytes = read_chunks-eq max_bytes [] chunks (omega arith)
