-- ===== src/Auth/Keys.antt =====
-- The key store of api/middleware/auth.py: its loop against a lookup by hash.
use ml_engineer_challenge_so.Prelude.{
  String, false, str_eq, eq_iff, if◌then◌else◌, ◌≡◌, refl, subst, ap, sym, ◌∙◌, arith, List, [],
  ◌∷◌, Option, none, some, Bool-cases, inl, inr,
}
use ml_engineer_challenge_so.Prelude.Dict.{lookup, insert, lookup-insert}
use ml_engineer_challenge_so.Config.{UserTier}
use ml_engineer_challenge_so.Auth.{
  ApiKeyRecord, ApiKeyStore, init, init_from, resolve_from, resolve, add, new_record,
}

-- Each hash stands once.
abbrev pub IsDistinct : ApiKeyStore → Type 0
IsDistinct [] = Unit
IsDistinct ((h, r) ∷ store) = (lookup h store ≡ none) × IsDistinct store

absent_after :
    (h j : String) (r : ApiKeyRecord) (store : ApiKeyStore)
    → str_eq j h ≡ false
    → lookup j store ≡ none
    → (if str_eq h j then some r else lookup j store) ≡ none
absent_after h j r store other e = ground (arith, eq_iff j h, eq_iff h j)

insert-IsDistinct :
    (h : String) (r : ApiKeyRecord) (store : ApiKeyStore)
    → IsDistinct store
    → IsDistinct (insert h r store)
unfolding insert lookup
insert-IsDistinct h r [] d = (refl, tt)
insert-IsDistinct h r ((j, w) ∷ store) d = elim (Bool-cases (str_eq j h)) [
  | inl same ↦ rw same d
  | inr other ↦ rw other (
    lookup-insert h j r store ∙ absent_after h j r store other d.0,
    insert-IsDistinct h r store d.1,
  )
]

resolve_from-none :
    (h : String) (m : Option ApiKeyRecord) (store : ApiKeyStore)
    → lookup h store ≡ none
    → resolve_from h m store ≡ m
unfolding lookup resolve_from
resolve_from-none h m [] e = refl
resolve_from-none h m ((j, w) ∷ store) e = elim (Bool-cases (str_eq j h)) [
  | inl same ↦ absurd (cc (rw same at e))
  | inr other ↦ rw other (resolve_from-none h m store (rw other at e))
]

resolve_from-lookup :
    (h : String) (store : ApiKeyStore)
    → IsDistinct store
    → resolve_from h none store ≡ lookup h store
unfolding lookup resolve_from
resolve_from-lookup h [] d = refl
resolve_from-lookup h ((j, w) ∷ store) d = elim (Bool-cases (str_eq j h)) [
  | inl same ↦ rw same (
      resolve_from-none h (some w) store
        (subst (λ i. lookup i store ≡ none) ((eq_iff j h).0 same) d.0))
  | inr other ↦ rw other (resolve_from-lookup h store d.1)
]

-- The stores that a start and `add` build.
pub data Reach (sha256 : String → String) : ApiKeyStore → Type 0 where
  started : (records : List ApiKeyRecord) → Reach sha256 (init records)
  added :
      {store : ApiKeyStore} (api_key user_id : String) (tier : UserTier)
      → Reach sha256 store
      → Reach sha256 (add sha256 api_key user_id tier store)

init_from-IsDistinct :
    (store : ApiKeyStore) (records : List ApiKeyRecord)
    → IsDistinct store
    → IsDistinct (init_from store records)
unfolding init_from
init_from-IsDistinct store [] d = d
init_from-IsDistinct store (r ∷ records) d =
    init_from-IsDistinct (insert r.key_hash r store) records
      (insert-IsDistinct r.key_hash r store d)

Reach-IsDistinct :
    (sha256 : String → String) (store : ApiKeyStore) → Reach sha256 store → IsDistinct store
unfolding init add
Reach-IsDistinct sha256 _ (started records) = init_from-IsDistinct [] records tt
Reach-IsDistinct sha256 _ (added {store = store} api_key user_id tier r) =
    insert-IsDistinct (sha256 api_key) (new_record sha256 api_key user_id tier) store
      (Reach-IsDistinct sha256 store r)

-- In every store that a start and any additions have built, the loop over all records gives what
-- a lookup by the key's hash gives; and after an addition, a key with the hash of the added one
-- resolves to the added user and tier, and any other key as before.
pub resolve-lookup :
    (sha256 : String → String) (store : ApiKeyStore) (api_key user_id key : String)
    (tier : UserTier)
    → Reach sha256 store
    → (resolve sha256 key store ≡ lookup (sha256 key) store)
      × (resolve sha256 key (add sha256 api_key user_id tier store) ≡ (
          if str_eq (sha256 api_key) (sha256 key)
          then some (new_record sha256 api_key user_id tier)
          else resolve sha256 key store))
unfolding resolve add
resolve-lookup sha256 store api_key user_id key tier r =
    let before = resolve_from-lookup (sha256 key) store (Reach-IsDistinct sha256 store r) in
    let store' = add sha256 api_key user_id tier store in
    let after =
      resolve_from-lookup (sha256 key) store'
        (Reach-IsDistinct sha256 store' (added api_key user_id tier r)) in
    (
      before,
      after
          ∙ lookup-insert (sha256 api_key) (sha256 key) (new_record sha256 api_key user_id tier)
              store
          ∙ ap
              (λ (o : Option ApiKeyRecord).
                if str_eq (sha256 api_key) (sha256 key)
                then some (new_record sha256 api_key user_id tier)
                else o)
              (sym before),
    )
