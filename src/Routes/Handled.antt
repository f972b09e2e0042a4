-- ===== src/Routes/Handled.antt =====
-- Every way in which the route of api/routers/classification.py ends.
use ml_engineer_challenge_so.Prelude.{
  String, true, false, str_eq, ltb, ◌≡◌, [], ◌∷◌, ◌++◌, length, some, Result, ok, err,
}
use ml_engineer_challenge_so.Prelude.Float.{Float}
use ml_engineer_challenge_so.Errors.{ApiError, Raised, application}
use ml_engineer_challenge_so.Uploads.Reading.{body}
use ml_engineer_challenge_so.RateLimit.{RateLimitDecision, Store, enforce, headers}
use ml_engineer_challenge_so.RateLimit.Commands.{SortedSet}
use ml_engineer_challenge_so.Models.{Host, LoadedModel, get_classifier, key, model_key}
use ml_engineer_challenge_so.Cache.{RedisServer, Codec}
use ml_engineer_challenge_so.Inference.{Vision, Payload, ClassificationResponse, provenance_of}
use ml_engineer_challenge_so.Inference.Outcomes.{IsAudited, resolved}
use ml_engineer_challenge_so.Routes.{
  Call, App, Answer, Deployment, choice, request_of, inference_record, classifier_name,
}

-- What the limiter says to the caller, with its store after the call.
abbrev pub limited_by :
    {H : Host} {W : Float} {Z : SortedSet}
    → Deployment H W
    → {F : Type 0} → Call F
    → Store Z
    → Result ApiError RateLimitDecision × Store Z
limited_by {Z = Z} D c limiter =
    enforce Z D.redis D.settings c.now c.member c.principal.user_id c.principal.tier limiter

module _ {H : Host} {W : Float} (N : Vision H) {R : RedisServer} (J : Codec (Payload N.F))
    {Z : SortedSet} (D : Deployment H W) (c : Call N.F) where
  open N use {F}

  -- The call of `classify` on an upload is audited as `IsAudited` says.
  abbrev pub IsLogged : App N R Z → Result Raised (ClassificationResponse F) → App N R Z → Type 0
  IsLogged before r after =
      IsAudited N J D.settings D.models (request_of D c (body c.chunks)) before.services
        (r, after.services)

  pub data IsHandled (before : App N R Z) : Answer F × App N R Z → Type 0 where
    limited :
        {e : ApiError} {after : App N R Z}
        → limited_by D c before.limiter ≡ (err e, after.limiter)
        → after.services ≡ before.services
        → after.inferences ≡ before.inferences
        → IsHandled before (err (application e), after)
    oversized :
        {e : ApiError} {after : App N R Z} (decision : RateLimitDecision)
        → limited_by D c before.limiter ≡ (ok decision, after.limiter)
        → ltb D.settings.max_upload_bytes (length (body c.chunks)) ≡ true
        → after.services ≡ before.services
        → after.inferences ≡ before.inferences
        → IsHandled before (err (application e), after)
    served :
        {r : ClassificationResponse F} {after : App N R Z} (decision : RateLimitDecision)
        (m : LoadedModel H)
        → limited_by D c before.limiter ≡ (ok decision, after.limiter)
        → resolved D.models (request_of D c (body c.chunks)) ≡ ok m
        → ((version : String)
            → (choice D c).0 ≡ some version
            → str_eq version "" ≡ false
            → key m ≡ model_key classifier_name version)
        → r.provenance ≡ provenance_of m
        → after.inferences ≡ before.inferences ++ (inference_record (provenance_of m) true ∷ [])
        → IsLogged before (ok r) after
        → IsHandled before (ok (headers decision, r), after)
    failed :
        {e : Raised} {after : App N R Z} (decision : RateLimitDecision) (m : LoadedModel H)
        → limited_by D c before.limiter ≡ (ok decision, after.limiter)
        → get_classifier D.models (choice D c).0 ≡ ok m
        → after.inferences ≡ before.inferences ++ (inference_record (provenance_of m) false ∷ [])
        → IsLogged before (err e) after
        → IsHandled before (err e, after)
    masked :
        {e e' : Raised} {after : App N R Z} (decision : RateLimitDecision)
        → limited_by D c before.limiter ≡ (ok decision, after.limiter)
        → get_classifier D.models (choice D c).0 ≡ err e'
        → after.inferences ≡ before.inferences
        → IsLogged before (err e) after
        → IsHandled before (err e', after)
