-- ===== src/Similarity.antt =====
-- api/services/similarity_service.py: the index with its manifest, and the search. The numbers of
-- `metadata` are not read; the log is left out.
pub mod Ranked
pub mod Tests
use ml_engineer_challenge_so.Prelude.{
  ℕ, suc, ◌+◌, String, Bool, true, false, not, ◌==◌, ltb, if◌then◌else◌, List, [], ◌∷◌, ◌++◌, map,
  keep, length, get_elem?, Option, none, some, or_else, Result, ok, err, ◌>>=◌, ◌>>◌, raise_if,
  or_raise,
}
use ml_engineer_challenge_so.Prelude.Int.{ℤ, pos, negsuc}
use ml_engineer_challenge_so.Config.{Settings}
use ml_engineer_challenge_so.Errors.{Raised, application, builtin, error, texts, model_unavailable}
use ml_engineer_challenge_so.Uploads.{Bytes, validate_image_upload}
use ml_engineer_challenge_so.Models.{Host, Files, LoadedModel, ModelService, get_embedder, run}
use ml_engineer_challenge_so.Inference.{Vision, ModelProvenance, provenance_of, lifted}

-- `similarity_manifest.json`; a key that is missing is `none`.
pub record Manifest : Type 0 where
  pub labels : Option (List ℕ)
  pub paths : Option (List String)

-- FAISS, JSON and numpy: the reading of the three files, the size of an index, `array[None, ...]`,
-- the search as pairs of the first row of scores and of row numbers, `str` of a number and of a
-- path, the order of floats, and pydantic's test of the bounds of a similarity, from -1 to 1.
pub record Faiss {H : Host} (N : Vision H) : Type 1 where
  pub Index : Type 0
  pub ntotal : Index → ℕ
  pub search : Index → H.Tensor → ℕ → List (N.F × ℤ)
  pub read_index : H.files.FilePath → Result Raised Index
  pub read_manifest : H.files.FilePath → Result Raised Manifest
  pub read_metadata : H.files.FilePath → Result Raised (Unit {0})
  pub expand : N.Array → H.Tensor
  pub number_text : ℕ → String
  pub path_text : H.files.FilePath → String
  pub lt : N.F → N.F → Bool
  pub is_similarity : N.F → Bool

pub record SimilarImage (F : Type 0) : Type 0 where
  pub rank : ℕ
  pub similarity : F
  pub label : String
  pub class_id : ℕ
  pub reference : String

pub record SimilarityResponse (F : Type 0) : Type 0 where
  pub results : List (SimilarImage F)
  pub index_size : ℕ
  pub inference_time_ms : F
  pub correlation_id : String
  pub provenance : ModelProvenance

module _ {H : Host} {N : Vision H} (I : Faiss N) where
  open N use {F}

  pub record SimilarityIndex : Type 0 where
    pub index : I.Index
    pub labels : List ℕ
    pub paths : List String

  -- The three files, in the order of the check.
  abbrev files : H.files.FilePath → List H.files.FilePath
  files dir =
      H.files.slash dir "similarity.index"
      ∷ H.files.slash dir "similarity_manifest.json"
      ∷ H.files.slash dir "similarity_metadata.json"
      ∷ []

  is_complete : List H.files.FilePath → Bool
  is_complete [] = true
  is_complete (p ∷ ps) = false

  check_files : H.files.FilePath → Result Raised (Unit {0})
  unfolding is_complete
  check_files dir =
      let missing = keep (λ p. not (H.files.exists p)) (files dir) in
      raise_if (not (is_complete missing))
        (application (error model_unavailable (("missing", texts (map I.path_text missing)) ∷ [])))

  -- The check of the labels, and what follows it.
  matched : I.Index → List ℕ → Option (List String) → Result Raised SimilarityIndex
  matched index labels paths = do
    raise_if (not (I.ntotal index == length labels)) (application (error model_unavailable []))
    references ← or_raise paths (builtin "KeyError")
    ok (record { index = index; labels = labels; paths = references })

  labelled : I.Index → Manifest → Result Raised SimilarityIndex
  unfolding matched
  labelled index manifest = do
    labels ← or_raise manifest.labels (builtin "KeyError")
    matched index labels manifest.paths

  read_files : H.files.FilePath → Result Raised SimilarityIndex
  unfolding labelled
  read_files dir = do
    index ← I.read_index (H.files.slash dir "similarity.index")
    manifest ← I.read_manifest (H.files.slash dir "similarity_manifest.json")
    I.read_metadata (H.files.slash dir "similarity_metadata.json")
    labelled index manifest

  -- `SimilarityIndex.load`
  unfoldable pub load : H.files.FilePath → Result Raised SimilarityIndex
  unfolding check_files read_files
  load dir = do check_files dir; read_files dir

  -- The embedder, and the embedding of an upload.
  unfoldable pub embed :
      Settings → ModelService H → Bytes → Result Raised (LoadedModel H × H.Tensor)
  embed settings models image_bytes = do
    metadata ← lifted (
        validate_image_upload N.pillow image_bytes settings.max_upload_bytes
          settings.max_image_pixels)
    m ← get_embedder models none
    array ← N.preprocess_image image_bytes m.image_size
    embedding ← run m (I.expand array)
    ok (m, embedding)

  module _ (s : SimilarityIndex) (class_names : List String) where
    -- The result for a row of the index, as the next one after `results`.
    similar_image : F → ℕ → List (SimilarImage F) → Result Raised (SimilarImage F)
    similar_image score row results = do
      label_index ← or_raise (get_elem? s.labels row) (builtin "IndexError")
      reference ← or_raise (get_elem? s.paths row) (builtin "IndexError")
      raise_if (not (I.is_similarity (N.round6 score))) (builtin "ValidationError")
      ok (record {
        rank = length results + 1;
        similarity = N.round6 score;
        label = or_else (get_elem? class_names label_index) (I.number_text label_index);
        class_id = label_index;
        reference = reference;
      })

    -- The loop over the hits: a negative row is padding.
    unfoldable pub collect :
        F → List (F × ℤ) → List (SimilarImage F) → Result Raised (List (SimilarImage F))
    unfolding similar_image
    collect min_similarity [] results = ok results
    collect min_similarity ((score, negsuc n) ∷ hits) results = collect min_similarity hits results
    collect min_similarity ((score, pos row) ∷ hits) results =
        let skipped = collect min_similarity hits results in
        let taken =
          similar_image score row results
          >>= (λ r. collect min_similarity hits (results ++ (r ∷ []))) in
        if I.lt score min_similarity then skipped else taken

    unfoldable pub find_similar :
        Settings
        → ModelService H
        → Bytes
        → String
        → ℕ
        → F
        → F
        → Result Raised (SimilarityResponse F)
    unfolding embed collect
    find_similar settings models image_bytes correlation_id top_k min_similarity elapsed_ms = do
      (m, embedding) ← embed settings models image_bytes
      results ← collect min_similarity (I.search s.index embedding top_k) []
      ok (record {
        results = results;
        index_size = I.ntotal s.index;
        inference_time_ms = elapsed_ms;
        correlation_id = correlation_id;
        provenance = provenance_of m;
      })
