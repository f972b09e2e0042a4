-- ===== src/Similarity/Tests.antt =====
-- A search of api/services/similarity_service.py, with three hits of which one is padding and one
-- too far away.
use ml_engineer_challenge_so.Prelude.{ℕ, true, ◌≡◌, refl, arith, ltb, leb, [], ◌∷◌, some, ok}
use ml_engineer_challenge_so.Prelude.Dict.{lookup, insert}
use ml_engineer_challenge_so.Prelude.Int.{pos, negsuc}
use ml_engineer_challenge_so.Config.{default_settings}
use ml_engineer_challenge_so.Uploads.{
  validate_image_upload, validate_upload_size, inspect_image, validate_format, is_supported,
  validate_dimensions,
}
use ml_engineer_challenge_so.Models.{LoadedModel, ModelService, register, get, get_embedder, run}
use ml_engineer_challenge_so.Models.Tests.{test_host, version_model, one_version}
use ml_engineer_challenge_so.Inference.Tests.{test_vision}
use ml_engineer_challenge_so.Similarity.{
  Faiss, SimilarityIndex, SimilarityResponse, load, embed, find_similar,
}
use ml_engineer_challenge_so.Similarity.Ranked.{AreRanked, find_similar-AreRanked}

abbrev pub faiss : Faiss test_vision
faiss = record {
  Index = ℕ;
  ntotal = λ i. 2;
  search = λ i query k. (900_000, pos 1) ∷ (100_000, pos 0) ∷ (0, negsuc 0) ∷ [];
  read_index = λ p. ok 0;
  read_manifest =
      λ p. ok (record { labels = some (0 ∷ 1 ∷ []); paths = some ("a.png" ∷ "b.png" ∷ []) });
  read_metadata = λ p. ok tt;
  expand = λ a. a;
  number_text = λ n. "class";
  path_text = λ p. p;
  lt = ltb;
  is_similarity = λ x. leb x 1_000_000;
}

abbrev index : SimilarityIndex faiss
index = record { index = 0; labels = 0 ∷ 1 ∷ []; paths = "a.png" ∷ "b.png" ∷ [] }

abbrev embedder : LoadedModel test_host
embedder = record (version_model "v1") { name = "tiny-imagenet-embedder" }

abbrev models : ModelService test_host
models = register embedder true one_version

loads : load faiss "a" ≡ ok index
unfolding load
loads = refl

embeds : embed faiss default_settings models (1 ∷ []) ≡ ok (embedder, 64)
unfolding embed validate_image_upload validate_upload_size inspect_image validate_format
    is_supported validate_dimensions get_embedder get lookup register insert run
embeds = refl

find_similar-AreRanked_example :
    (r : SimilarityResponse ℕ) × (find_similar faiss index
        ("cat" ∷ "dog" ∷ [])
        default_settings
        models
        (1 ∷ [])
        "request"
        3
        500_000
        7
      ≡ ok r)
    × AreRanked faiss index ("cat" ∷ "dog" ∷ []) 1 ((900_000, pos 1) ∷ []) r.results
find_similar-AreRanked_example =
    find_similar-AreRanked faiss "a" index ("cat" ∷ "dog" ∷ []) default_settings models (1 ∷ [])
      "request" 3 500_000 7 embedder 64 loads (omega arith)
      (λ query k. (omega arith, (omega arith, (tt, tt)))) embeds (refl, tt)
