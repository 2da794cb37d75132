-- ===== src/Relations/Simple/Sessions.antt =====
-- What a caller reads after its own writes.
use inventory_api.Base.{
  nat_eq, ◌<◌, ◌≡◌, refl, sym, ap, ◌∙◌, Bool, true, false, ◌&&◌, not, Option, none, some, List, [],
  ◌∷◌, map, arith, Text, ==_refl, contains, contains-keep, contains-set_of, keep, set_of,
  format_int64, int64_mod, is_some, All, Result, ok,
}
use inventory_api.Model.Consistency.{Consistency, at_least_as_fresh}
use inventory_api.Model.References.{RelationsTuple, Relationship, TupleFilter}
use inventory_api.Relations.Codes.{
  Code, FencingCheck, CheckResult, CheckBulkResult, CheckBulkResultPair,
}
use inventory_api.Relations.Simple.Keys.{SimpleTupleKey, key_eq, simple_matches_tuple_filter}
use inventory_api.Relations.Simple.{
  SimpleRelations, key_of, check, create_tuples, delete_tuples, get_tuples_for_token,
  advance_version, consistency_to_simple_token,
}
use inventory_api.Relations.Simple.Snapshots.{get_tuples_for_token_lem, tuples_at}
use inventory_api.Relations.Simple.Writes.{
  created, without, create_tuples_lem, delete_tuples_lem, contains-put_all,
}
use inventory_api.Relations.Simple.Queries.{read_tuples, check_bulk, tuple_of, pair_in}

current-tuples_at : (s : SimpleRelations) → tuples_at s.version s ≡ some s.tuples
current-tuples_at s = ground (arith, ==_refl s.version)

-- A read at the current version sees the current tuples.
get_tuples_for_token-current :
    (s : SimpleRelations)
    → s.version < int64_mod
    → get_tuples_for_token (format_int64 s.version) s ≡ s.tuples
get_tuples_for_token-current s small =
    let (v, above, here, least) = get_tuples_for_token_lem s.version s small (omega arith) in
    let now : is_some (tuples_at s.version s) ≡ true = ap is_some (current-tuples_at s) in
    let same : v ≡ s.version = omega (arith, above, least s.version (omega arith) now) in
    cc (sym here ∙ ap (λ w. tuples_at w s) same ∙ current-tuples_at s)

abbrev pub relationship_of : RelationsTuple → Relationship
relationship_of t = record { object = t.object; relation = t.relation; subject = t.subject }

allowed-check :
    (t : RelationsTuple) (s : SimpleRelations)
    → s.version < int64_mod
    → (c : CheckResult) × (check (relationship_of t) (at_least_as_fresh (format_int64 s.version)) s
        ≡ (ok c, s))
      × (c.allowed ≡ contains (key_of t) s.tuples)
unfolding check consistency_to_simple_token
allowed-check t s small = (_, refl, ap (contains (key_of t)) (get_tuples_for_token-current s small))

-- Read your writes: after a CreateTuples that is not refused, a check at least as fresh as its token
-- allows every tuple that was created, also where the version wraps around.
pub check-create_tuples :
    (t : RelationsTuple) (ts : List RelationsTuple) (upsert : Bool) (fencing : Option FencingCheck)
    (s : SimpleRelations)
    → s.create_tuples_error ≡ none
    → contains (key_of t) (map key_of ts) ≡ true
    → (token : Text) × (s' : SimpleRelations) × (create_tuples ts upsert fencing s ≡ (ok token, s'))
      × (c : CheckResult) × (check (relationship_of t) (at_least_as_fresh token) s' ≡ (ok c, s'))
      × (c.allowed ≡ true)
unfolding advance_version
check-create_tuples t ts upsert fencing s h member =
    let (c, e, a) = allowed-check t (created ts s) (omega arith) in
    (
      format_int64 (created ts s).version,
      created ts s,
      create_tuples_lem ts upsert fencing s h,
      c,
      e,
      a ∙ contains-put_all (key_of t) ts s.tuples ∙ ground arith,
    )

-- After a DeleteTuples that is not refused, a check at least as fresh as its token allows a tuple
-- exactly if it was there before and the filter does not match it, also where the version wraps around.
pub check-delete_tuples :
    (t : RelationsTuple) (f : TupleFilter) (fencing : Option FencingCheck) (s : SimpleRelations)
    → s.delete_tuples_error ≡ none
    → (token : Text) × (s' : SimpleRelations) × (delete_tuples f fencing s ≡ (ok token, s'))
      × (c : CheckResult) × (check (relationship_of t) (at_least_as_fresh token) s' ≡ (ok c, s'))
      × (c.allowed
          ≡ (contains (key_of t) s.tuples && not (simple_matches_tuple_filter (key_of t) f)))
unfolding advance_version
check-delete_tuples t f fencing s h =
    let (c, e, a) = allowed-check t (without f s) (omega arith) in
    (
      format_int64 (without f s).version,
      without f s,
      delete_tuples_lem f fencing s h,
      c,
      e,
      a
          ∙ contains-keep (key_of t) (λ k. not (simple_matches_tuple_filter k f)) s.tuples
          ∙ ground arith,
    )

keep-none :
    (p : SimpleTupleKey → Bool) (ks : List SimpleTupleKey)
    → ((k : SimpleTupleKey) → contains k ks ≡ true → p k ≡ false)
    → keep p ks ≡ []
unfolding keep contains
keep-none p [] h = refl
keep-none p (k ∷ ks) h =
    let here : contains k (k ∷ ks) ≡ true = ground (arith, ==_refl k) in
    let later : (j : SimpleTupleKey) → contains j ks ≡ true → p j ≡ false =
      λ j c. h j (ground (arith, c)) in
    rw (h k here) (keep-none p ks later)

kept-mismatch :
    (f : TupleFilter) (s : SimpleRelations) (k : SimpleTupleKey)
    → contains k (set_of (without f s).tuples) ≡ true
    → simple_matches_tuple_filter k f ≡ false
unfolding advance_version
kept-mismatch f s k c = ground (
  arith,
  contains-set_of k (without f s).tuples,
  contains-keep k (λ (j : SimpleTupleKey). not (simple_matches_tuple_filter j f)) s.tuples,
)

-- After a DeleteTuples that is not refused, nothing is left that its filter matches.
pub read_tuples-delete_tuples :
    (f : TupleFilter) (fencing : Option FencingCheck) (s : SimpleRelations)
    → s.delete_tuples_error ≡ none
    → read_tuples f (delete_tuples f fencing s).1 ≡ []
unfolding read_tuples advance_version
read_tuples-delete_tuples f fencing s h =
    ap
      (λ (x : List SimpleTupleKey).
        map tuple_of (keep (λ k. simple_matches_tuple_filter k f) (set_of x)))
      (ap (λ (x : Result Code Text × SimpleRelations). x.1.tuples)
        (delete_tuples_lem f fencing s h))
    ∙ ap (map tuple_of) (
        keep-none (λ k. simple_matches_tuple_filter k f) (set_of (without f s).tuples)
          (kept-mismatch f s))

-- A pair of a bulk check, with the token of the bulk check, says what a check of its request says.
abbrev pub AgreesWithCheck : Consistency → SimpleRelations → Text → CheckBulkResultPair → Type 0
AgreesWithCheck c s token p =
    (r : CheckResult) × (check p.request c s ≡ (ok r, s))
    × (r.allowed ≡ p.result.allowed)
    × (r.consistency_token ≡ token)

module _ (c : Consistency) (s : SimpleRelations) where
  pairs-AgreesWithCheck :
      (rels : List Relationship)
      → All
          (AgreesWithCheck c s (format_int64 s.version))
          (map (pair_in (get_tuples_for_token (consistency_to_simple_token c) s)) rels)
  unfolding check
  pairs-AgreesWithCheck [] = tt
  pairs-AgreesWithCheck (rel ∷ rels) = ((_, refl, refl, refl), pairs-AgreesWithCheck rels)

  requests-pair_in :
      (tuples : List SimpleTupleKey) (rels : List Relationship)
      → map (λ (p : CheckBulkResultPair). p.request) (map (pair_in tuples) rels) ≡ rels
  requests-pair_in tuples [] = refl
  requests-pair_in tuples (rel ∷ rels) = ap (◌∷◌ rel) (requests-pair_in tuples rels)

  -- A bulk check answers each of its requests as a single check of it does, in the order of the
  -- requests and with the same token.
  pub check_bulk-check :
      (rels : List Relationship)
      → (b : CheckBulkResult) × (check_bulk rels c s ≡ ok b)
        × (map (λ (p : CheckBulkResultPair). p.request) b.pairs ≡ rels)
        × All (AgreesWithCheck c s b.consistency_token) b.pairs
  unfolding check_bulk
  check_bulk-check rels = (
    _,
    refl,
    requests-pair_in (get_tuples_for_token (consistency_to_simple_token c) s) rels,
    pairs-AgreesWithCheck rels,
  )
