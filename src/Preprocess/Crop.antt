-- ===== src/Preprocess/Crop.antt =====
-- The crop of api/utils/image_processing.py lies inside the resized image.
use native.Mathlib.Nat.{le-div_iff_mul-le, mul-le-mul_right}
use ml_engineer_challenge_so.Prelude.{
  ℕ, ◌+◌, ◌*◌, ◌/◌, ◌-◌, ◌≤◌, ◌<◌, min, ◌≡◌, inl, inr, arith, leb, le→leb, leb→le, Bool-cases,
  false,
}
use ml_engineer_challenge_so.Prelude.Int.{ℤ, pos, sub_ℕ}
use ml_engineer_challenge_so.Preprocess.{
  Size, round_quotient, resize_short_edge, center_crop, resize_target, preprocess_image, half_round,
  plus,
}

round_quotient-ge : (a b q : ℕ) → 0 < b → q * b ≤ a → q ≤ round_quotient a b
unfolding round_quotient
round_quotient-ge a b q h k =
    let least = (le-div_iff_mul-le {k = b} {x = q} {y = a} h).1 k in ground (arith, least)

-- Half of a number, up to a half.
round_half : (n : ℕ) → (2 * round_quotient n 2 ≤ n + 1) × (n ≤ 2 * round_quotient n 2 + 1)
unfolding round_quotient
round_half n = ground arith

-- One side of the box: where it starts, that it ends inside, and that it is centred.
pub data IsCentred (whole size : ℕ) : ℤ → ℤ → Type 0 where
  centred :
      (start : ℕ)
      → start + size ≤ whole
      → 2 * start ≤ whole - size + 1
      → whole - size ≤ 2 * start + 1
      → IsCentred whole size (pos start) (pos (start + size))

side :
    (whole size : ℕ)
    → size ≤ whole
    → IsCentred whole size
        (half_round (sub_ℕ whole size))
        (plus (half_round (sub_ℕ whole size)) size)
unfolding half_round plus
side whole size h =
    let (upper, lower) = round_half (whole - size) in
    rw (le→leb size whole h)
      (centred (round_quotient (whole - size) 2) (omega (arith, upper, lower, h)) upper lower)

narrower : {a b : ℕ} → leb a b ≡ false → b ≤ a
narrower h = ground arith

-- The resized image has the target as its short edge, and no shorter other edge.
pub resize_short_edge-ge :
    (s : Size) (target : ℕ)
    → 0 < s.width
    → 0 < s.height
    → (min (resize_short_edge s target).width (resize_short_edge s target).height ≡ target)
      × (target ≤ (resize_short_edge s target).width)
      × (target ≤ (resize_short_edge s target).height)
unfolding resize_short_edge
resize_short_edge-ge s target w h = elim (Bool-cases (leb s.width s.height)) [
  | inl upright ↦
      let tall =
        round_quotient-ge (s.height * target) s.width target w
          (omega (arith, mul-le-mul_right target (leb→le s.width s.height upright))) in
      rw upright (omega (arith, tall), omega arith, omega (arith, tall))
  | inr wide ↦
      let long =
        round_quotient-ge (s.width * target) s.height target h
          (omega (arith, mul-le-mul_right target (narrower wide))) in
      rw wide (omega (arith, long), omega (arith, long), omega arith)
]

-- For an image and a model size that are not empty, the resized image has the short edge 8 / 7 of
-- the model size, rounded down, and the box that is cut from it is a square of the model size that
-- lies inside it, centred in both directions up to half a pixel: Pillow never pads the crop.
pub preprocess_image-IsCentred :
    (s : Size) (image_size : ℕ)
    → 0 < s.width
    → 0 < s.height
    → (min (preprocess_image s image_size).0.width (preprocess_image s image_size).0.height
        ≡ 8 * image_size / 7)
      × IsCentred
          (preprocess_image s image_size).0.width
          image_size
          (preprocess_image s image_size).1.left
          (preprocess_image s image_size).1.right
      × IsCentred
          (preprocess_image s image_size).0.height
          image_size
          (preprocess_image s image_size).1.top
          (preprocess_image s image_size).1.bottom
unfolding preprocess_image center_crop resize_target
preprocess_image-IsCentred s image_size w h =
    let (short, wide, tall) = resize_short_edge-ge s (8 * image_size / 7) w h in
    (short, side _ image_size (omega (arith, wide)), side _ image_size (omega (arith, tall)))
