-- ===== src/Relations/Simple/Snapshots.antt =====
-- Which tuples a check sees that asks for a version: those of the oldest state kept that is not
-- older.
use inventory_api.Base.{
  ℕ, ◌≤◌, ◌<◌, ◌≡◌, refl, sym, inl, inr, ◌∙◌, ap, true, ◌||◌, Option, none, some, List, [], ◌∷◌,
  ◌++◌, map, arith, ◌==◌, nat_eq, leb, if◌then◌else◌, contains, contains-append, find_first,
  is_some, Option-cases, Bool-cases, format_int64, parse_int64-format_int64, int64_mod,
}
use inventory_api.Relations.Simple.Keys.{SimpleTupleKey}
use inventory_api.Relations.Simple.{
  SimpleRelations, snapshot_at, insert_sorted, sort, requested_version, versions, or_empty,
  get_tuples_for_token, tuples_found,
}

-- The tuples of a version that can still be read: the current one or one that was retained.
abbrev pub tuples_at : ℕ → SimpleRelations → Option (List SimpleTupleKey)
tuples_at v s = if v == s.version then some s.tuples else snapshot_at v s.snapshots

contains-insert_sorted :
    (w v : ℕ) (vs : List ℕ) → contains w (insert_sorted v vs) ≡ (v == w || contains w vs)
unfolding contains insert_sorted
contains-insert_sorted w v [] = refl
contains-insert_sorted w v (x ∷ xs) = ground (arith, contains-insert_sorted w v xs)

contains-sort : (w : ℕ) (vs : List ℕ) → contains w (sort vs) ≡ contains w vs
unfolding contains sort
contains-sort w [] = refl
contains-sort w (v ∷ vs) = ground (arith, contains-insert_sorted w v (sort vs), contains-sort w vs)

-- Sorted in a form that goes with a search from the left.
abbrev IsAbove : ℕ → List ℕ → Type 0
IsAbove v vs = (w : ℕ) → contains w vs ≡ true → v ≤ w

abbrev IsSorted : List ℕ → Type 0
IsSorted [] = Unit {0}
IsSorted (v ∷ vs) = IsAbove v vs × IsSorted vs

IsAbove-nil : (v : ℕ) → IsAbove v []
unfolding contains
IsAbove-nil v w c = cc

insert_sorted-IsSorted : (v : ℕ) (vs : List ℕ) → IsSorted vs → IsSorted (insert_sorted v vs)
unfolding insert_sorted
insert_sorted-IsSorted v [] h = (IsAbove-nil v, tt)
insert_sorted-IsSorted v (x ∷ xs) h = elim (Bool-cases (leb v x)) [
  | inl below ↦ rw below (λ w c. unfold contains in ground (arith, h.0 w), h)
  | inr above ↦
      rw above (
        λ w c. ground (arith, contains-insert_sorted w v xs, h.0 w),
        insert_sorted-IsSorted v xs h.1,
      )
]

sort-IsSorted : (vs : List ℕ) → IsSorted (sort vs)
unfolding sort
sort-IsSorted [] = tt
sort-IsSorted (v ∷ vs) = insert_sorted-IsSorted v (sort vs) (sort-IsSorted vs)

-- The first that is not below `n` is a member, and the least such member.
find_first_least :
    (n v : ℕ) (vs : List ℕ)
    → IsSorted vs
    → find_first (leb n) vs ≡ some v
    → (n ≤ v) × (contains v vs ≡ true) × ((w : ℕ) → n ≤ w → contains w vs ≡ true → v ≤ w)
unfolding find_first contains
find_first_least n v [] h e = cc
find_first_least n v (x ∷ xs) h e = elim (Bool-cases (leb n x)) [
  | inl hit ↦ (ground arith, ground arith, λ w k c. ground (arith, h.0 w))
  | inr miss ↦
      let (a, b, c) = find_first_least n v xs h.1 (rw miss at e) in
      (a, ground arith, λ w k d. ground (arith, c w))
]

find_first-none :
    (n v : ℕ) (vs : List ℕ) → find_first (leb n) vs ≡ none → contains v vs ≡ true → v < n
unfolding find_first contains
find_first-none n v [] e c = cc
find_first-none n v (x ∷ xs) e c = ground (arith, find_first-none n v xs)

contains-snapshot_versions :
    (w : ℕ) (ss : List (ℕ × List SimpleTupleKey))
    → contains w (map (λ (p : ℕ × List SimpleTupleKey). p.0) ss) ≡ is_some (snapshot_at w ss)
unfolding contains snapshot_at
contains-snapshot_versions w [] = refl
contains-snapshot_versions w ((v, ts) ∷ rest) = ground (arith, contains-snapshot_versions w rest)

contains-current : (w v : ℕ) → contains w (v ∷ []) ≡ (w == v)
unfolding contains
contains-current w v = ground arith

contains-versions :
    (w : ℕ) (s : SimpleRelations) → contains w (versions s) ≡ is_some (tuples_at w s)
contains-versions w s =
    rw
      (
        contains-sort w (map (λ (p : ℕ × List SimpleTupleKey). p.0) s.snapshots ++ s.version ∷ []),
        contains-append w (map (λ (p : ℕ × List SimpleTupleKey). p.0) s.snapshots) (s.version ∷ []),
        contains-snapshot_versions w s.snapshots,
        contains-current w s.version,
      )
      ground arith

or_empty-some : (o : Option (List SimpleTupleKey)) → is_some o ≡ true → o ≡ some (or_empty o)
or_empty-some o h = ground arith

requested_version-format_int64 : (n : ℕ) → n < int64_mod → requested_version (format_int64 n) ≡ n
unfolding requested_version
requested_version-format_int64 n h = rw (requested_version, parse_int64-format_int64 n h) refl

get_tuples_for_token-format_int64 :
    (n : ℕ) (s : SimpleRelations)
    → n < int64_mod
    → get_tuples_for_token (format_int64 n) s ≡ tuples_found (find_first (leb n) (versions s)) s
unfolding get_tuples_for_token
get_tuples_for_token-format_int64 n s small =
    ap (λ m. tuples_found (find_first (leb m) (versions s)) s)
      (requested_version-format_int64 n small)

tuples_at-tuples_found :
    (v : ℕ) (s : SimpleRelations)
    → is_some (tuples_at v s) ≡ true
    → tuples_at v s ≡ some (tuples_found (some v) s)
unfolding tuples_found
tuples_at-tuples_found v s here = ground (arith, or_empty-some (snapshot_at v s.snapshots))

tuples_at-get_tuples_for_token :
    (n v : ℕ) (s : SimpleRelations)
    → n < int64_mod
    → find_first (leb n) (versions s) ≡ some v
    → is_some (tuples_at v s) ≡ true
    → tuples_at v s ≡ some (get_tuples_for_token (format_int64 n) s)
tuples_at-get_tuples_for_token n v s small e here =
    rw (get_tuples_for_token-format_int64 n s small, e) (tuples_at-tuples_found v s here)

versions-IsSorted : (s : SimpleRelations) → IsSorted (versions s)
versions-IsSorted s =
    sort-IsSorted (map (λ (p : ℕ × List SimpleTupleKey). p.0) s.snapshots ++ s.version ∷ [])

current_version-tuples_at : (s : SimpleRelations) → is_some (tuples_at s.version s) ≡ true
current_version-tuples_at s = ground arith

no_version-current :
    (n : ℕ) (s : SimpleRelations) → n ≤ s.version → find_first (leb n) (versions s) ≡ none → ⊥
no_version-current n s reached e = omega (
  arith,
  reached,
  find_first-none n s.version (versions s) e
      (contains-versions s.version s ∙ current_version-tuples_at s),
)

oldest_version :
    (n : ℕ) (s : SimpleRelations)
    → n ≤ s.version
    → (v : ℕ) × (find_first (leb n) (versions s) ≡ some v)
oldest_version n s reached = elim (Option-cases (find_first (leb n) (versions s))) [
  | inl e ↦ absurd (no_version-current n s reached e)
  | inr found ↦ found
]

-- A check that asks for a version up to the current one, any int64, reads the tuples of the oldest version
-- that is still there and not older than the one asked for.
pub get_tuples_for_token_lem :
    (n : ℕ) (s : SimpleRelations)
    → n < int64_mod
    → n ≤ s.version
    → (v : ℕ) × (n ≤ v)
      × (tuples_at v s ≡ some (get_tuples_for_token (format_int64 n) s))
      × ((w : ℕ) → n ≤ w → is_some (tuples_at w s) ≡ true → v ≤ w)
get_tuples_for_token_lem n s small reached =
    let (v, e) = oldest_version n s reached in
    let (above, here, least) = find_first_least n v (versions s) (versions-IsSorted s) e in
    (
      v,
      above,
      tuples_at-get_tuples_for_token n v s small e (sym (contains-versions v s) ∙ here),
      λ w k i. least w k (contains-versions w s ∙ i),
    )
