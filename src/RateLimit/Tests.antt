-- ===== src/RateLimit/Tests.antt =====
-- Sorted sets as lists, which have the laws of `IsSortedSet`, and runs of the limiter over them.
use ml_engineer_challenge_so.Prelude.{
  ℕ, ◌≤◌, ◌≡◌, refl, ap, Bool, not, leb, if◌then◌else◌, Bool-cases, inl, inr, keep, List, [], ◌∷◌,
  ◌++◌, length, All, arith, err,
}
use ml_engineer_challenge_so.Errors.{rate_limit_error}
use ml_engineer_challenge_so.Config.{Settings, free, default_settings, rate_limit_for}
use ml_engineer_challenge_so.RateLimit.Commands.{
  SortedSet, IsSortedSet, IsSorted, Entry, in_range, lowest_score,
}
use ml_engineer_challenge_so.RateLimit.{
  Key, Store, answering, empty_key, sliding_window, check, enforce, decide,
}
use ml_engineer_challenge_so.RateLimit.Window.{start, request, recent-le-limit}
use ml_engineer_challenge_so.RateLimit.Window.Counts.{recent}
use ml_engineer_challenge_so.RateLimit.Retry.{retry_after_suffices}

pub insert_entry : Entry → List Entry → List Entry
insert_entry e [] = e ∷ []
insert_entry e (f ∷ fs) = if leb e.score f.score then e ∷ f ∷ fs else f ∷ insert_entry e fs

All-insert_entry :
    (n : ℕ) (e : Entry) (fs : List Entry)
    → n ≤ e.score
    → All (λ f. n ≤ f.score) fs
    → All (λ f. n ≤ f.score) (insert_entry e fs)
unfolding insert_entry
All-insert_entry n e [] h a = (h, tt)
All-insert_entry n e (f ∷ fs) h a = ground (arith, All-insert_entry n e fs h a.1)

All-later :
    (m n : ℕ) (fs : List Entry) → m ≤ n → All (λ f. n ≤ f.score) fs → All (λ f. m ≤ f.score) fs
All-later m n [] h a = tt
All-later m n (f ∷ fs) h a = (omega arith, All-later m n fs h a.1)

pub insert_entry-IsSorted :
    (e : Entry) (fs : List Entry) → IsSorted fs → IsSorted (insert_entry e fs)
unfolding insert_entry
insert_entry-IsSorted e [] s = (tt, tt)
insert_entry-IsSorted e (f ∷ fs) s = elim (Bool-cases (leb e.score f.score)) [
  | inl le ↦ rw le ((ground arith, All-later e.score f.score fs (ground arith) s.0), s)
  | inr gt ↦
      rw gt (All-insert_entry f.score e fs (ground arith) s.0, insert_entry-IsSorted e fs s.1)
]

All-keep_entries :
    (n : ℕ) (p : Entry → Bool) (fs : List Entry)
    → All (λ f. n ≤ f.score) fs
    → All (λ f. n ≤ f.score) (keep p fs)
All-keep_entries n p [] a = tt
All-keep_entries n p (f ∷ fs) a = ground (arith, All-keep_entries n p fs a.1)

pub keep-IsSorted : (p : Entry → Bool) (fs : List Entry) → IsSorted fs → IsSorted (keep p fs)
keep-IsSorted p [] s = tt
keep-IsSorted p (f ∷ fs) s = elim (Bool-cases (p f)) [
  | inl kept ↦ rw kept (All-keep_entries f.score p fs s.0, keep-IsSorted p fs s.1)
  | inr gone ↦ rw gone (keep-IsSorted p fs s.1)
]

abbrev Sorted : Type 0
Sorted = (fs : List Entry) × IsSorted fs

abbrev pub list_set : SortedSet
list_set = record {
  Z = Sorted;
  empty = ([], tt);
  zadd = λ score member z. (
    insert_entry (record { score = score; member = member }) z.0,
    insert_entry-IsSorted (record { score = score; member = member }) z.0 z.1,
  );
  zremrangebyscore = λ lo hi z.
      (keep (λ e. not (in_range lo hi e)) z.0, keep-IsSorted (λ e. not (in_range lo hi e)) z.0 z.1);
  zcard = λ z. length z.0;
  lowest = λ z. lowest_score z.0;
}

insert_entry_split :
    (e : Entry) (fs : List Entry)
    → (front : List Entry) × (back : List Entry) × (fs ≡ front ++ back)
      × (insert_entry e fs ≡ front ++ (e ∷ back))
unfolding insert_entry
insert_entry_split e [] = ([], [], refl, refl)
insert_entry_split e (f ∷ fs) = elim (Bool-cases (leb e.score f.score)) [
  | inl le ↦ ([], f ∷ fs, refl, rw le)
  | inr gt ↦
      let (front, back, before, after) = insert_entry_split e fs in
      (f ∷ front, back, ap (λ t. f ∷ t) before, rw gt (ap (λ t. f ∷ t) after))
]

list_set-IsSortedSet : IsSortedSet list_set
list_set-IsSortedSet = record {
  entries = λ z. z.0;
  entries-empty = refl;
  entries_sorted = λ z. z.1;
  zcard_lem = λ z. refl;
  lowest_lem = λ z. refl;
  zremrangebyscore_lem = λ lo hi z. refl;
  zadd_lem =
      λ score member z fresh. insert_entry_split (record { score = score; member = member }) z.0;
}

-- One request at 1 s, and a second at 30 s, with a limit of one.
abbrev after_first : Key list_set
after_first = (sliding_window list_set 1000 60000 1 "a" (empty_key list_set)).1

second_rejected : (sliding_window list_set 30000 60000 1 "b" after_first).0.allowed ≡ 0
unfolding sliding_window insert_entry
second_rejected = refl

third_admitted : (sliding_window list_set 61000 60000 1 "c" after_first).0.allowed ≡ 1
unfolding sliding_window insert_entry
third_admitted = refl

recent-le-limit_example : recent 60000 30000 (1000 ∷ []) ≤ 1
unfolding sliding_window insert_entry list_set-IsSortedSet
recent-le-limit_example =
    recent-le-limit list_set list_set-IsSortedSet 60000 1
      (request (request (start 0) 1000 "a" (omega arith) refl) 30000 "b" (omega arith) refl) 30000

retry_after_suffices_example :
    (sliding_window list_set 62000 60000 1 "c"
      (sliding_window list_set 30000 60000 1 "b" after_first).1).0.allowed
    ≡ 1
unfolding sliding_window insert_entry list_set-IsSortedSet decide
retry_after_suffices_example =
    retry_after_suffices list_set list_set-IsSortedSet 60000 1
      (request (start 0) 1000 "a" (omega arith) refl) (omega arith) 30000 62000 "b" "c" refl
      (omega arith)

abbrev no_keys : Store list_set
no_keys key = empty_key list_set

abbrev closed_settings : Settings
closed_settings = record default_settings { rate_limit_free_rpm = 0 }

refused :
    (enforce list_set answering closed_settings 5000 "m" "ann" free no_keys).0
    ≡ err (rate_limit_error 56 0)
unfolding enforce check sliding_window decide rate_limit_for rate_limit_error
refused = refl
