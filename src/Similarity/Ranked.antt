-- ===== src/Similarity/Ranked.antt =====
-- What a search of api/services/similarity_service.py answers.
use mathlib.Core.List.{append-nil, append_assoc}
use ml_engineer_challenge_so.Prelude.{
  ℕ, zero, suc, ap, ◌+◌, ◌<◌, ◌≤◌, String, Bool, true, false, not, ◌==◌, ◌≡◌, refl, subst, ◌∙◌,
  arith, Bool-cases, inl, inr, List, [], ◌∷◌, ◌++◌, keep, length, length-append, get_elem?, All,
  Option, some, or_else, ok, or_raise, raise_if-eq-ok, raise_if, Ensures, returns, >>=-Ensures,
  >>-Ensures, Ensures-eq-ok,
}
use ml_engineer_challenge_so.Prelude.Int.{ℤ, pos, negsuc}
use ml_engineer_challenge_so.Config.{Settings}
use ml_engineer_challenge_so.Uploads.{Bytes}
use ml_engineer_challenge_so.Errors.{builtin}
use ml_engineer_challenge_so.Models.{Host, LoadedModel, ModelService}
use ml_engineer_challenge_so.Inference.{Vision, provenance_of}
use ml_engineer_challenge_so.Similarity.{
  Faiss, SimilarImage, SimilarityIndex, SimilarityResponse, load, matched, labelled, read_files,
  check_files, similar_image, collect, embed, find_similar,
}

get_elem-total :
    {A : Type 0} (xs : List A) (i : ℕ) → i < length xs → (x : A) × (get_elem? xs i ≡ some x)
get_elem-total [] i h = absurd (omega (arith, h))
get_elem-total (x ∷ xs) zero h = (x, refl)
get_elem-total (x ∷ xs) (suc i) h = get_elem-total xs i (omega (arith, h))

module _ {H : Host} {N : Vision H} (I : Faiss N) where
  open N use {F}

  -- A hit that the answer shows: a row of the index, no less similar than asked.
  abbrev pub is_shown : F → F × ℤ → Bool
  is_shown min_similarity (score, pos row) = not (I.lt score min_similarity)
  is_shown min_similarity (score, negsuc n) = false

  abbrev pub IsRow : ℕ → F × ℤ → Type 0
  IsRow n (score, pos row) = row < n
  IsRow n (score, negsuc m) = Unit

  -- A score that the response can hold.
  abbrev pub IsInBounds : F × ℤ → Type 0
  IsInBounds (score, row) = I.is_similarity (N.round6 score) ≡ true

  module _ (s : SimilarityIndex I) (class_names : List String) where
    -- Results that show these hits one for one, numbered from `k`, each with the class and the path
    -- of its row.
    pub data AreRanked : ℕ → List (F × ℤ) → List (SimilarImage F) → Type 0 where
      nothing : {k : ℕ} → AreRanked k [] []
      next :
          {k row : ℕ} {score : F} {hits : List (F × ℤ)} {r : SimilarImage F}
          {rs : List (SimilarImage F)}
          → r.rank ≡ k
          → r.similarity ≡ N.round6 score
          → get_elem? s.labels row ≡ some r.class_id
          → get_elem? s.paths row ≡ some r.reference
          → r.label ≡ or_else (get_elem? class_names r.class_id) (I.number_text r.class_id)
          → AreRanked (suc k) hits rs
          → AreRanked k ((score, pos row) ∷ hits) (r ∷ rs)

    collect-AreRanked :
        (min_similarity : F) (hits : List (F × ℤ)) (before : List (SimilarImage F))
        → length s.labels ≤ length s.paths
        → All (IsRow (length s.labels)) hits
        → All IsInBounds (keep (is_shown min_similarity) hits)
        → (rs : List (SimilarImage F)) × (collect I s class_names min_similarity hits before
            ≡ ok (before ++ rs))
          × AreRanked (suc (length before)) (keep (is_shown min_similarity) hits) rs
    unfolding collect similar_image
    collect-AreRanked min_similarity [] before fits rows bounds = ([], rw append-nil refl, nothing)
    collect-AreRanked min_similarity ((score, negsuc n) ∷ hits) before fits rows bounds =
        collect-AreRanked min_similarity hits before fits rows.1 bounds
    collect-AreRanked min_similarity ((score, pos row) ∷ hits) before fits rows bounds =
        elim (Bool-cases (I.lt score min_similarity)) [
          | inl low ↦
              rw low (collect-AreRanked min_similarity hits before fits rows.1 (rw low at bounds))
          | inr high ↦
              let (here, later) = rw high at bounds in
              let (label, labelled) = get_elem-total s.labels row rows.0 in
              let (path, placed) = get_elem-total s.paths row (omega (arith, rows.0, fits)) in
              let r : SimilarImage F = record {
                rank = length before + 1;
                similarity = N.round6 score;
                label = or_else (get_elem? class_names label) (I.number_text label);
                class_id = label;
                reference = path;
              } in
              let (rs, e, ranked) =
                collect-AreRanked min_similarity hits (before ++ (r ∷ [])) fits rows.1 later in
              let longer : suc (length (before ++ (r ∷ []))) ≡ suc (suc (length before)) =
                omega (arith, length-append before (r ∷ [])) in
              rw (high, labelled, placed, here)
                (
                  r ∷ rs,
                  e ∙ ap ok (append_assoc before (r ∷ []) rs),
                  next (omega arith) refl labelled placed refl (
                      subst (λ (k : ℕ). AreRanked k (keep (is_shown min_similarity) hits) rs) longer
                        ranked),
                )
        ]

  -- As many labels as vectors.
  abbrev pub IsMatched : SimilarityIndex I → Type 0
  IsMatched s = I.ntotal s.index ≡ length s.labels

  matched-IsMatched :
      (index : I.Index) (labels : List ℕ) (paths : Option (List String))
      → Ensures IsMatched (matched I index labels paths)
  unfolding matched
  matched-IsMatched index labels paths =
      >>-Ensures IsMatched (raise_if (not (I.ntotal index == length labels)) _) _ (λ checked.
        >>=-Ensures IsMatched (or_raise paths _) _ (λ references.
          returns
            (ground (arith, raise_if-eq-ok (not (I.ntotal index == length labels)) _ checked))))

  read_files-IsMatched : (dir : H.files.FilePath) → Ensures IsMatched (read_files I dir)
  unfolding read_files labelled
  read_files-IsMatched dir =
      >>=-Ensures IsMatched (I.read_index (H.files.slash dir "similarity.index")) _ (λ index.
        >>=-Ensures IsMatched (I.read_manifest (H.files.slash dir "similarity_manifest.json")) _
          (λ manifest.
            >>-Ensures IsMatched (I.read_metadata (H.files.slash dir "similarity_metadata.json"))
              (labelled I index manifest)
              (λ read.
                >>=-Ensures IsMatched (or_raise manifest.labels (builtin "KeyError")) _
                  (λ labels. matched-IsMatched index labels manifest.paths))))

  load-IsMatched : (dir : H.files.FilePath) → Ensures IsMatched (load I dir)
  unfolding load
  load-IsMatched dir =
      >>-Ensures IsMatched (check_files I dir) (read_files I dir)
        (λ complete. read_files-IsMatched dir)

  -- With an index that was loaded, with a path for each label, and where the search finds rows of
  -- the index, a query whose upload and embedding succeed, and whose hits to be shown have rounded
  -- scores that a response can hold, from -1 to 1, is answered: it shows the
  -- hits that are no padding and no less similar than asked, all of them, in the order of the
  -- search and numbered from 1, each with the class and the path that the manifest has for its row.
  pub find_similar-AreRanked :
      (dir : H.files.FilePath) (s : SimilarityIndex I) (class_names : List String)
      (settings : Settings) (models : ModelService H) (image_bytes : Bytes)
      (correlation_id : String) (top_k : ℕ) (min_similarity elapsed_ms : F) (m : LoadedModel H)
      (embedding : H.Tensor)
      → load I dir ≡ ok s
      → length s.labels ≤ length s.paths
      → ((query : H.Tensor) (k : ℕ) → All (IsRow (I.ntotal s.index)) (I.search s.index query k))
      → embed I settings models image_bytes ≡ ok (m, embedding)
      → All IsInBounds (keep (is_shown min_similarity) (I.search s.index embedding top_k))
      → (r : SimilarityResponse F) × (find_similar I s class_names settings models image_bytes
            correlation_id top_k min_similarity elapsed_ms
          ≡ ok r)
        × AreRanked s class_names 1
            (keep (is_shown min_similarity) (I.search s.index embedding top_k))
            r.results
  unfolding find_similar
  find_similar-AreRanked dir s class_names settings models image_bytes correlation_id top_k
        min_similarity elapsed_ms m embedding loaded fits rows embedded bounds =
      let known =
        subst (λ (n : ℕ). All (IsRow n) (I.search s.index embedding top_k))
          (Ensures-eq-ok (load I dir) s (load-IsMatched dir) loaded) (rows embedding top_k) in
      let (rs, e, ranked) =
        collect-AreRanked s class_names min_similarity (I.search s.index embedding top_k) [] fits
          known bounds in
      let r : SimilarityResponse F = record {
        results = rs;
        index_size = I.ntotal s.index;
        inference_time_ms = elapsed_ms;
        correlation_id = correlation_id;
        provenance = provenance_of m;
      } in
      (r, rw (embedded, e) refl, ranked)
