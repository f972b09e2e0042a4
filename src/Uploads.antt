-- ===== src/Uploads.antt =====
-- api/utils/validators.py, and `_read_upload` of api/routers/classification.py.
pub mod Accepts
pub mod Reading
pub mod Tests
use ml_engineer_challenge_so.Prelude.{
  ℕ, ◌+◌, ◌*◌, String, Bool, true, false, ◌&&◌, ◌||◌, not, ltb, ◌==◌, str_eq, if◌then◌else◌, List,
  [], ◌∷◌, ◌++◌, Option, none, some, or_else, any, length, Result, ok, err, ◌>>=◌, ◌>>◌, raise_if,
}
use ml_engineer_challenge_so.Errors.{
  ApiError, error, number, text, texts, null, invalid_image, unsupported_format, payload_too_large,
}

-- A byte string.
abbrev pub Bytes : Type 0
Bytes = List ℕ

-- What `Image.open` of Pillow gives: the header's facts, or one of the three groups of exceptions.
pub data Opened : Type 0 where
  header : Option String → ℕ → ℕ → String → Opened
  unidentified decompression_bomb unreadable : Opened

-- Pillow, and `str.upper`, whose Unicode tables are not modelled.
pub record Pillow : Type 0 where
  pub open_image : Bytes → Opened
  pub upper : String → String

-- `SUPPORTED_FORMATS`, in the order of `sorted`.
abbrev pub supported_formats : List String
supported_formats = "BMP" ∷ "JPEG" ∷ "PNG" ∷ "WEBP" ∷ []

abbrev pub min_dimension : ℕ
min_dimension = 16

abbrev pub max_dimension : ℕ
max_dimension = 10_000

pub record ImageMetadata : Type 0 where
  pub format : String
  pub width : ℕ
  pub height : ℕ
  pub mode : String
  pub size_bytes : ℕ

abbrev pub pixels : ImageMetadata → ℕ
pixels m = m.width * m.height

unfoldable pub is_supported : String → Bool
is_supported format = any (λ f. str_eq f format) supported_formats

unfoldable pub validate_upload_size : Bytes → ℕ → Result ApiError (Unit {0})
validate_upload_size bytes max_bytes =
    if ltb max_bytes (length bytes)
    then err (
        error payload_too_large
          (("size_bytes", number (length bytes)) ∷ ("max_bytes", number max_bytes) ∷ []))
    else if length bytes == 0
    then err (error invalid_image [])
    else ok tt

unfoldable pub inspect_image : Pillow → Bytes → Result ApiError ImageMetadata
inspect_image pillow bytes = elim (pillow.open_image bytes) [
  | header format width height mode ↦ ok (record {
    format = pillow.upper (or_else format "");
    width = width;
    height = height;
    mode = mode;
    size_bytes = length bytes;
  })
  | unidentified ↦ err (error invalid_image [])
  | decompression_bomb ↦ err (error invalid_image [])
  | unreadable ↦ err (error invalid_image [])
]

unfoldable pub validate_format : ImageMetadata → Result ApiError (Unit {0})
validate_format m = raise_if (not (is_supported m.format)) (
    error unsupported_format (
      ("detected_format", if str_eq m.format "" then null else text m.format)
      ∷ ("supported_formats", texts supported_formats)
      ∷ []))

unfoldable pub validate_dimensions : ImageMetadata → ℕ → Result ApiError (Unit {0})
validate_dimensions m max_pixels =
    let size = ("width", number m.width) ∷ ("height", number m.height) ∷ [] in
    if ltb m.width min_dimension || ltb m.height min_dimension
    then err (error invalid_image size)
    else if ltb max_dimension m.width || ltb max_dimension m.height
    then err (error invalid_image size)
    else if ltb max_pixels (pixels m)
    then err (
        error invalid_image
          (("pixels", number (pixels m)) ∷ ("max_pixels", number max_pixels) ∷ []))
    else ok tt

unfoldable pub validate_image_upload : Pillow → Bytes → ℕ → ℕ → Result ApiError ImageMetadata
validate_image_upload pillow bytes max_bytes max_pixels = do
  validate_upload_size bytes max_bytes
  metadata ← inspect_image pillow bytes
  validate_format metadata
  validate_dimensions metadata max_pixels
  ok metadata

-- The loop of `_read_upload`: `chunks` are the values of the successive calls of `file.read`.
read_chunks : ℕ → Bytes → List Bytes → Result ApiError Bytes
read_chunks max_bytes buffer [] = ok buffer
read_chunks max_bytes buffer ([] ∷ chunks) = ok buffer
read_chunks max_bytes buffer ((b ∷ bs) ∷ chunks) =
    let extended = buffer ++ (b ∷ bs) in
    let rest = read_chunks max_bytes extended chunks in
    if ltb max_bytes (length extended)
    then err (error payload_too_large (("max_bytes", number max_bytes) ∷ []))
    else rest

unfoldable pub read_upload : List Bytes → ℕ → Result ApiError Bytes
unfolding read_chunks
read_upload chunks max_bytes = read_chunks max_bytes [] chunks
