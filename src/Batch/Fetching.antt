-- ===== src/Batch/Fetching.antt =====
-- `_fetch_image` of worker/tasks.py against the whole body.
use mathlib.Core.List.{append-nil, append_assoc}
use ml_engineer_challenge_so.Prelude.{
  ℕ, ◌≤◌, ◌≡◌, refl, ltb, inl, inr, Bool-cases, [], ◌++◌, length, length-append, Option, ap, subst,
  ◌∙◌, ◌↔◌, none, some, ok, arith, >>-eq-ok, raise_if-eq-ok,
}
use ml_engineer_challenge_so.Uploads.{Bytes}
use ml_engineer_challenge_so.Batch.{
  Body, finished, broken, chunk, Declared, absent, malformed, declared, Response, unreachable,
  refused, streamed, receive, fetch_image, check_declared, value_error,
}

abbrev prepend : Bytes → Option Bytes → Option Bytes
prepend bytes none = none
prepend bytes (some later) = some (bytes ++ later)

-- All bytes of a body that ends.
abbrev pub whole : Body → Option Bytes
whole finished = some []
whole broken = none
whole (chunk bytes rest) = prepend bytes (whole rest)

prepend-eq-some :
    (bytes : Bytes) (o : Option Bytes) (out : Bytes)
    → prepend bytes o ≡ some out
    → (later : Bytes) × (o ≡ some later) × (bytes ++ later ≡ out)
prepend-eq-some bytes none out h = absurd (cc h)
prepend-eq-some bytes (some later) out h = (later, refl, cc h)

receive-ok :
    (max_bytes : ℕ) (buffer : Bytes) (body : Body) (out : Bytes)
    → length buffer ≤ max_bytes
    → receive max_bytes buffer body ≡ ok out
    → (length out ≤ max_bytes) × (prepend buffer (whole body) ≡ some out)
unfolding receive
receive-ok max_bytes buffer finished out within h =
    let same : buffer ≡ out = cc h in
    (
      subst (λ (b : Bytes). length b ≤ max_bytes) same within,
      rw append-nil (ap (λ (b : Bytes). some b) same),
    )
receive-ok max_bytes buffer broken out within h = absurd (cc h)
receive-ok max_bytes buffer (chunk bytes rest) out within h =
    elim (Bool-cases (ltb max_bytes (length (buffer ++ bytes)))) [
      | inl over ↦ absurd (cc (rw over at h))
      | inr fits ↦
          let (bound, all) =
            receive-ok max_bytes (buffer ++ bytes) rest out (ground arith) (rw fits at h) in
          let (later, ends, joined) = prepend-eq-some (buffer ++ bytes) (whole rest) out all in
          (bound, rw (ends, ← append_assoc buffer bytes later) (ap (λ (b : Bytes). some b) joined))
    ]

receive_complete :
    (max_bytes : ℕ) (buffer : Bytes) (body : Body) (out : Bytes)
    → prepend buffer (whole body) ≡ some out
    → length out ≤ max_bytes
    → receive max_bytes buffer body ≡ ok out
unfolding receive
receive_complete max_bytes buffer finished out h bound = rw (← append-nil buffer) (cc h)
receive_complete max_bytes buffer broken out h bound = absurd (cc h)
receive_complete max_bytes buffer (chunk bytes rest) out h bound =
    let (later, ends, joined) = prepend-eq-some buffer (prepend bytes (whole rest)) out h in
    let (last, ends', joined') = prepend-eq-some bytes (whole rest) later ends in
    let total : (buffer ++ bytes) ++ last ≡ out =
      append_assoc buffer bytes last ∙ ap (λ (b : Bytes). buffer ++ b) joined' ∙ joined in
    let next =
      receive_complete max_bytes (buffer ++ bytes) rest out
        (rw ends' (ap (λ (b : Bytes). some b) total)) bound in
    rw next (ground (arith, length-append (buffer ++ bytes) last, ap length total))

-- The declared length is absent or within the limit.
abbrev pub Permitted : ℕ → Declared → Type 0
Permitted max_bytes absent = Unit
Permitted max_bytes malformed = ⊥
Permitted max_bytes (declared n) = n ≤ max_bytes

-- A response that streams `out` to its end.
pub data Delivers (max_bytes : ℕ) : Response → Bytes → Type 0 where
  delivered :
      (length' : Declared) (body : Body) {out : Bytes}
      → Permitted max_bytes length'
      → whole body ≡ some out
      → length out ≤ max_bytes
      → Delivers max_bytes (streamed length' body) out

check_declared-ok :
    (max_bytes : ℕ) (d : Declared) → check_declared d max_bytes ≡ ok tt → Permitted max_bytes d
unfolding check_declared
check_declared-ok max_bytes absent h = tt
check_declared-ok max_bytes malformed h = cc h
check_declared-ok max_bytes (declared n) h =
    let within = raise_if-eq-ok (ltb max_bytes n) value_error h in ground arith

check-Permitted :
    (max_bytes : ℕ) (d : Declared) → Permitted max_bytes d → check_declared d max_bytes ≡ ok tt
unfolding check_declared
check-Permitted max_bytes absent h = refl
check-Permitted max_bytes malformed h = absurd h
check-Permitted max_bytes (declared n) h = ground arith

fetched :
    (response : Response) (max_bytes : ℕ) (out : Bytes)
    → fetch_image response max_bytes ≡ ok out
    → Delivers max_bytes response out
unfolding fetch_image
fetched unreachable max_bytes out h = absurd (cc h)
fetched (refused status) max_bytes out h = absurd (cc h)
fetched (streamed d body) max_bytes out h =
    let (small, received) = >>-eq-ok (check_declared d max_bytes) _ h in
    let (bound, all) = receive-ok max_bytes [] body out (omega arith) received in
    let (later, ends, joined) = prepend-eq-some [] (whole body) out all in
    delivered d body (check_declared-ok max_bytes d small)
      (ends ∙ ap (λ (b : Bytes). some b) joined) bound

delivered_fetch :
    (response : Response) (max_bytes : ℕ) (out : Bytes)
    → Delivers max_bytes response out
    → fetch_image response max_bytes ≡ ok out
unfolding fetch_image
delivered_fetch _ max_bytes out (delivered d body small ends bound) =
    rw (check-Permitted max_bytes d small)
      (receive_complete max_bytes [] body out (rw ends refl) bound)

-- A fetch gives the bytes `out` exactly when the response is a stream that reaches its end, whose
-- chunks joined are `out`, whose size is within the limit, and whose declared length, if there is
-- one, is a number within the limit. In every other case the fetch raises.
pub fetch_image_iff :
    (response : Response) (max_bytes : ℕ) (out : Bytes)
    → (fetch_image response max_bytes ≡ ok out) ↔ Delivers max_bytes response out
fetch_image_iff response max_bytes out =
    (fetched response max_bytes out, delivered_fetch response max_bytes out)
