-- ===== src/Uploads/Tests.antt =====
-- Runs of api/utils/validators.py, over a Pillow that reads one kind of header.
use ml_engineer_challenge_so.Prelude.{◌≡◌, refl, some, List, [], ◌∷◌, ok, arith}
use ml_engineer_challenge_so.Uploads.{
  Pillow, Bytes, header, unreadable, ImageMetadata, is_supported, validate_image_upload,
  read_upload,
}
use ml_engineer_challenge_so.Uploads.Reading.{read_upload-eq-capped}
use ml_engineer_challenge_so.Uploads.Accepts.{validate_image_upload_iff}

-- A stream of at least one byte is a PNG of 32 by 20.
abbrev png_reader : Pillow
png_reader = record {
  open_image = λ bytes. elim bytes [ [] ↦ unreadable | b ∷ bs ↦ header (some "PNG") 32 20 "RGB" ];
  upper = λ s. s;
}

abbrev picture : ImageMetadata
picture = record { format = "PNG"; width = 32; height = 20; mode = "RGB"; size_bytes = 2 }

validate_image_upload_iff_example :
    validate_image_upload png_reader (7 ∷ 8 ∷ []) 10 1000 ≡ ok picture
unfolding is_supported
validate_image_upload_iff_example =
    (validate_image_upload_iff png_reader (7 ∷ 8 ∷ []) 10 1000 picture).1 (
      (some "PNG", refl, refl, refl),
      record {
        not_empty = omega arith;
        small = omega arith;
        supported = refl;
        wide = omega arith;
        high = omega arith;
        not_wide = omega arith;
        not_high = omega arith;
        area = omega arith;
      },
    )

abbrev chunks : List Bytes
chunks = (1 ∷ 2 ∷ []) ∷ (3 ∷ []) ∷ [] ∷ (4 ∷ []) ∷ []

read_upload-eq-capped_example : read_upload chunks 3 ≡ ok (1 ∷ 2 ∷ 3 ∷ [])
read_upload-eq-capped_example = read_upload-eq-capped chunks 3
