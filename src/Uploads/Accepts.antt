-- ===== src/Uploads/Accepts.antt =====
-- Which uploads api/utils/validators.py accepts.
use ml_engineer_challenge_so.Prelude.{
  ℕ, ◌≤◌, ◌<◌, ◌≡◌, ◌↔◌, String, true, Option, or_else, length, ok, err, arith, if◌then◌else◌, [],
  ◌∷◌, ◌⊎◌, refl, ltb,
}
use ml_engineer_challenge_so.Errors.{payload_too_large, invalid_image, error, number}
use ml_engineer_challenge_so.Uploads.{
  Bytes, Pillow, Opened, header, ImageMetadata, pixels, is_supported, min_dimension, max_dimension,
  validate_upload_size, inspect_image, validate_format, validate_dimensions, validate_image_upload,
}

-- The size, the format and the dimensions that the service promises to serve.
pub record IsAcceptable (m : ImageMetadata) (max_bytes max_pixels : ℕ) : Type 0 where
  pub not_empty : 1 ≤ m.size_bytes
  pub small : m.size_bytes ≤ max_bytes
  pub supported : is_supported m.format ≡ true
  pub wide : min_dimension ≤ m.width
  pub high : min_dimension ≤ m.height
  pub not_wide : m.width ≤ max_dimension
  pub not_high : m.height ≤ max_dimension
  pub area : pixels m ≤ max_pixels

-- What Pillow read from the header is what the metadata says.
abbrev pub Describes : Pillow → Bytes → ImageMetadata → Type 0
Describes pillow bytes m =
    (format : Option String) × (pillow.open_image bytes ≡ header format m.width m.height m.mode)
    × (m.format ≡ pillow.upper (or_else format ""))
    × (m.size_bytes ≡ length bytes)

validate_upload_size-ok :
    (bytes : Bytes) (max_bytes : ℕ) {u : Unit {0}}
    → validate_upload_size bytes max_bytes ≡ ok u
    → (1 ≤ length bytes) × (length bytes ≤ max_bytes)
unfolding validate_upload_size
validate_upload_size-ok bytes max_bytes h = ground arith

-- The helper of `inspect_image` by the value that Pillow returned.
inspect_image-ok :
    (pillow : Pillow) (bytes : Bytes) (m : ImageMetadata) (opened : Opened)
    → pillow.open_image bytes ≡ opened
    → inspect_image pillow bytes ≡ ok m
    → Describes pillow bytes m
unfolding inspect_image
inspect_image-ok pillow bytes m (header format w h mode) e r =
    (format, ground arith, ground arith, ground arith)
inspect_image-ok pillow bytes m _ e r = absurd (ground arith)

validate_format-ok :
    (m : ImageMetadata) {u : Unit {0}} → validate_format m ≡ ok u → is_supported m.format ≡ true
unfolding validate_format
validate_format-ok m h = ground arith

validate_dimensions-ok :
    (m : ImageMetadata) (max_pixels : ℕ)
    → validate_dimensions m max_pixels ≡ ok tt
    → (min_dimension ≤ m.width)
      × (min_dimension ≤ m.height)
      × (m.width ≤ max_dimension)
      × (m.height ≤ max_dimension)
      × (pixels m ≤ max_pixels)
unfolding validate_dimensions
validate_dimensions-ok m max_pixels h = ground arith

module _ (pillow : Pillow) (bytes : Bytes) (max_bytes max_pixels : ℕ) (m : ImageMetadata) where
  steps :
      validate_image_upload pillow bytes max_bytes max_pixels ≡ ok m
      → (validate_upload_size bytes max_bytes ≡ ok tt)
        × (inspect_image pillow bytes ≡ ok m)
        × (validate_format m ≡ ok tt)
        × (validate_dimensions m max_pixels ≡ ok tt)
  unfolding validate_image_upload
  steps h = ground arith

  sound :
      validate_image_upload pillow bytes max_bytes max_pixels ≡ ok m
      → Describes pillow bytes m × IsAcceptable m max_bytes max_pixels
  sound h =
      let (size, read, format, dimensions) = steps h in
      let described = inspect_image-ok pillow bytes m (pillow.open_image bytes) refl read in
      let sizes = validate_upload_size-ok bytes max_bytes size in
      let bounds = validate_dimensions-ok m max_pixels dimensions in
      (
        described,
        record {
          not_empty = omega (arith, described.3);
          small = omega (arith, described.3);
          supported = validate_format-ok m format;
          wide = bounds.0;
          high = bounds.1;
          not_wide = bounds.2;
          not_high = bounds.3;
          area = bounds.4;
        },
      )

  complete :
      Describes pillow bytes m × IsAcceptable m max_bytes max_pixels
      → validate_image_upload pillow bytes max_bytes max_pixels ≡ ok m
  unfolding validate_image_upload validate_upload_size inspect_image validate_format
      validate_dimensions
  complete ((format, opened, upper, size), a) = ground arith

  -- An upload is accepted with the metadata `m` exactly when `m` is what Pillow read from its
  -- header and its size, format, edges and area are all within the limits.
  pub validate_image_upload_iff :
      (validate_image_upload pillow bytes max_bytes max_pixels ≡ ok m)
      ↔ (Describes pillow bytes m × IsAcceptable m max_bytes max_pixels)
  validate_image_upload_iff = (sound, complete)

-- An upload over the size limit, or an empty one within it, is rejected with an error that names
-- only its size, whatever Pillow would have made of the bytes.
pub validate_image_upload-size_first :
    (pillow : Pillow) (bytes : Bytes) (max_bytes max_pixels : ℕ)
    → (length bytes ≡ 0) ⊎ (max_bytes < length bytes)
    → validate_image_upload pillow bytes max_bytes max_pixels
      ≡ err (
          if ltb max_bytes (length bytes)
          then error payload_too_large
              (("size_bytes", number (length bytes)) ∷ ("max_bytes", number max_bytes) ∷ [])
          else error invalid_image [])
unfolding validate_image_upload validate_upload_size
validate_image_upload-size_first pillow bytes max_bytes max_pixels h = ground arith
