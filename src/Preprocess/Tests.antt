-- ===== src/Preprocess/Tests.antt =====
-- A picture of 640 x 479 pixels through api/utils/image_processing.py, for a model of 224.
use ml_engineer_challenge_so.Prelude.{min, ◌≡◌, arith}
use ml_engineer_challenge_so.Prelude.Int.{pos}
use ml_engineer_challenge_so.Preprocess.{
  Size, preprocess_image, resize_short_edge, center_crop, resize_target, round_quotient,
}
use ml_engineer_challenge_so.Preprocess.Crop.{IsCentred, preprocess_image-IsCentred}

abbrev picture : Size
picture = record { width = 640; height = 479 }

preprocess_image-IsCentred_example :
    (min 342 256 ≡ 256)
    × IsCentred 342 224 (pos 59) (pos 283)
    × IsCentred 256 224 (pos 16) (pos 240)
unfolding preprocess_image resize_short_edge center_crop resize_target round_quotient
preprocess_image-IsCentred_example =
    preprocess_image-IsCentred picture 224 (omega arith) (omega arith)
