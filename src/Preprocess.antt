-- ===== src/Preprocess.antt =====
-- The geometry of api/utils/image_processing.py: the sizes that Pillow is asked for, and the box that
-- it cuts out. Pillow resamples and copies the pixels. The divisions of the code are of integers far
-- below 2 ^ 50 and `round` goes to the even neighbour at a half, so that the rounding of the floats
-- does not show; the crop ratio is the default 0.875, which is 7 / 8.
pub mod Crop
pub mod Tests
use ml_engineer_challenge_so.Prelude.{
  ℕ, ◌+◌, ◌*◌, ◌/◌, ◌%◌, max, Bool, true, false, ltb, leb, ◌==◌, if◌then◌else◌,
}
use ml_engineer_challenge_so.Prelude.Int.{ℤ, pos, negsuc, sub_ℕ}

-- `image.size`
pub record Size : Type 0 where
  pub width : ℕ
  pub height : ℕ

-- The four corners that `image.crop` takes.
pub record Box : Type 0 where
  pub left : ℤ
  pub top : ℤ
  pub right : ℤ
  pub bottom : ℤ

-- `round(a / b)`, for a positive b.
unfoldable pub round_quotient : ℕ → ℕ → ℕ
round_quotient a b =
    let q = a / b in
    let r = a % b in
    if ltb (2 * r) b then q else if ltb b (2 * r) then q + 1 else if q % 2 == 0 then q else q + 1

-- The size after `resize_short_edge`.
unfoldable pub resize_short_edge : Size → ℕ → Size
resize_short_edge s target =
    if leb s.width s.height
    then record { width = target; height = max 1 (round_quotient (s.height * target) s.width) }
    else record { width = max 1 (round_quotient (s.width * target) s.height); height = target }

-- `round(n / 2)`, which is odd in n.
unfoldable pub half_round : ℤ → ℤ
half_round (pos n) = pos (round_quotient n 2)
half_round (negsuc n) = sub_ℕ 0 (round_quotient (n + 1) 2)

unfoldable pub plus : ℤ → ℕ → ℤ
plus (pos n) size = pos (n + size)
plus (negsuc n) size = sub_ℕ size (n + 1)

-- The box of `center_crop`.
unfoldable pub center_crop : Size → ℕ → Box
unfolding half_round plus
center_crop s size =
    let left = half_round (sub_ℕ s.width size) in
    let top = half_round (sub_ℕ s.height size) in
    record { left = left; top = top; right = plus left size; bottom = plus top size }

-- `int(np.floor(image_size / 0.875))`
unfoldable pub resize_target : ℕ → ℕ
resize_target image_size = 8 * image_size / 7

-- `preprocess_image`: the size that the image is brought to, and the box that is cut from it.
unfoldable pub preprocess_image : Size → ℕ → Size × Box
preprocess_image s image_size =
    let resized = resize_short_edge s (resize_target image_size) in
    (resized, center_crop resized image_size)
