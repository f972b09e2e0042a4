-- ===== src/Detect/Tests.antt =====
-- A run of the decoder of api/services/detection_service.py on two queries over two classes.
use mathlib.Core.List.{Perm}
use mathlib.Core.List.Perm
use ml_engineer_challenge_so.Prelude.{
  take, ℕ, ◌+◌, ◌-◌, ◌*◌, ◌/◌, max, min, true, ◌≡◌, refl, ltb, leb, if◌then◌else◌, List, [], ◌∷◌,
  map, ok,
}
use ml_engineer_challenge_so.Models.Tests.{version_model}
use ml_engineer_challenge_so.Inference.Tests.{test_vision}
use ml_engineer_challenge_so.Detect.{
  Arrays, Corners, Detection, decode, gather, above, box_to_absolute,
}
use ml_engineer_challenge_so.Detect.Places.{nowhere, at}
use ml_engineer_challenge_so.Detect.Confident.{SortsFalling, IsFalling, decode-IsFalling}

abbrev largest : List ℕ → ℕ
largest [] = 0
largest (x ∷ xs) = max x (largest xs)

-- The place of the larger of two.
abbrev larger : List ℕ → ℕ
larger (x ∷ y ∷ _) = if ltb x y then 1 else 0
larger _ = 0

-- The order of up to two scores.
abbrev argsort_two : List ℕ → List ℕ
argsort_two [] = []
argsort_two (x ∷ []) = 0 ∷ []
argsort_two (x ∷ y ∷ []) = if leb y x then 0 ∷ 1 ∷ [] else 1 ∷ 0 ∷ []
argsort_two (x ∷ y ∷ z ∷ xs) = []

abbrev arrays : Arrays test_vision
arrays = record {
  preprocess_for_detection = λ b n. ok (n, 100, 50);
  expand = λ a. a;
  score_rows = λ t. ok [];
  box_rows = λ t. ok [];
  argmax = λ rows. ok (map larger rows);
  amax = λ rows. ok (map largest rows);
  argsort_descending = argsort_two;
  le = leb;
  add = λ a b. a + b;
  sub = λ a b. a - b;
  half = λ a. a / 2;
  scale = λ a n. a * n;
  clip = λ a n. min a (1_000_000 * n);
  round2 = λ a. a;
  number_text = λ n. "class";
  is_confidence = λ x. leb x 1_000_000;
  is_coordinate = λ x. true;
}

abbrev boxes : List (Corners ℕ)
boxes = (500_000, 500_000, 200_000, 200_000) ∷ (100_000, 100_000, 400_000, 100_000) ∷ []

abbrev found : List (Detection ℕ)
found =
    record {
      label = "dog";
      class_id = 1;
      confidence = 900_000;
      box = record { x_min = 0; y_min = 2_500_000; x_max = 30_000_000; y_max = 7_500_000 };
    }
    ∷ record {
      label = "cat";
      class_id = 0;
      confidence = 700_000;
      box = record {
        x_min = 40_000_000;
        y_min = 20_000_000;
        x_max = 60_000_000;
        y_max = 30_000_000;
      };
    }
    ∷ []

decodes :
    decode arrays
      ((700_000 ∷ 200_000 ∷ []) ∷ (100_000 ∷ 900_000 ∷ []) ∷ [])
      boxes
      (version_model "v1")
      100
      50
      500_000
      10
    ≡ ok found
unfolding decode above gather box_to_absolute
decodes = refl

sorts : SortsFalling arrays (700_000 ∷ 900_000 ∷ [])
sorts =
    (900_000 ∷ 700_000 ∷ [], at refl (at refl nowhere), Perm.swap 700_000 900_000 [], (refl, tt))

decode-IsFalling_example :
    (zs : List ℕ) × Perm zs (700_000 ∷ 900_000 ∷ [])
    × IsFalling arrays zs
    × (900_000 ∷ 700_000 ∷ [] ≡ map (λ x. x) (take 10 zs))
decode-IsFalling_example =
    decode-IsFalling arrays ((700_000 ∷ 200_000 ∷ []) ∷ (100_000 ∷ 900_000 ∷ []) ∷ []) boxes
      (version_model "v1") 100 50 500_000 10 (700_000 ∷ 900_000 ∷ []) found refl sorts decodes
