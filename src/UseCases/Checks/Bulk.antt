-- ===== src/UseCases/Checks/Bulk.antt =====
-- A bulk check of the use case answers as its single checks do.
use inventory_api.Base.{
  none, ◌≡◌, refl, ap, ◌∙◌, ◌⊎◌, inl, inr, false, some, List, [], ◌∷◌, map, length, All, Text,
  codes, ok, bind_ok, then_ok, format_int64, nat_eq, ==_refl, suc,
}
use inventory_api.Model.Consistency.{
  Consistency, at_least_as_fresh, minimize_latency, normalize_consistency,
}
use inventory_api.Model.References.{Relationship}
use inventory_api.Relations.Codes.{CheckResult}
use inventory_api.Relations.Simple
use inventory_api.Relations.Simple.Keys.{SimpleTupleKey}
use inventory_api.Relations.Simple.{
  SimpleRelations, get_tuples_for_token, consistency_to_simple_token,
}
use inventory_api.Relations.Simple.Queries
use inventory_api.Relations.Simple.Queries.{simple_queries, pair_in}
use inventory_api.Store.Repository.{ResourceRepository}
use inventory_api.UseCases.Reports.{Environment}
use inventory_api.UseCases.Checks.{
  check, check_bulk, enforce_on, enforce_all, resolve_consistency, bulk_result, relationship,
  check_bulk_result_from_model, validate_bulk_result_length, check_permission, no_managed_token,
}
use inventory_api.UseCases.Commands.{CheckBulkItem, CheckBulkResultPair, BulkResult}

module _ (R : ResourceRepository) (env : Environment) (s : R.State) (q : SimpleRelations)
    (c : Consistency) where
  -- A pair of a bulk result answers an item, without an error, as the single check of it does.
  abbrev pub Agrees : CheckBulkItem → CheckBulkResultPair → Type 0
  Agrees i p =
      (p.request ≡ i)
      × (p.result.error ≡ none)
      × ((r : CheckResult) × (check R simple_queries env s q i.relation i.subject i.resource
              (some c)
            ≡ ok r)
          × (r.allowed ≡ p.result.allowed))

  -- The pairs answer the items one for one, in order.
  abbrev pub AllAgree : List CheckBulkItem → List CheckBulkResultPair → Type 0
  AllAgree [] [] = Unit {0}
  AllAgree [] (p ∷ ps) = ⊥
  AllAgree (i ∷ items) [] = ⊥
  AllAgree (i ∷ items) (p ∷ ps) = Agrees i p × AllAgree items ps

  -- A consistency that the caller states in full.
  abbrev pub IsExplicit : Type 0
  IsExplicit = (c ≡ minimize_latency) ⊎ ((token : Text) × (c ≡ at_least_as_fresh token))

  explicit_resolved :
      (i : CheckBulkItem)
      → IsExplicit
      → resolve_consistency R env s (some c) i.resource false ≡ ok c
  unfolding resolve_consistency
  explicit_resolved i (inl e) = rw e refl
  explicit_resolved i (inr (token, e)) = rw e refl

  abbrev tuples : List SimpleTupleKey
  tuples = get_tuples_for_token (consistency_to_simple_token c) q

  item-Agrees :
      (i : CheckBulkItem)
      → IsExplicit
      → enforce_on env (codes "check") i.resource ≡ ok tt
      → (r : CheckResult) × (check R simple_queries env s q i.relation i.subject i.resource (some c)
          ≡ ok r)
        × (r.allowed
            ≡ (pair_in tuples (relationship i.resource i.relation i.subject)).result.allowed)
  unfolding check check_permission Simple.check
  item-Agrees i explicit permitted =
      (_, bind_ok _ _ _ permitted (explicit_resolved i explicit), refl)

  abbrev rels_of : List CheckBulkItem → List Relationship
  rels_of = map (λ i. relationship i.resource i.relation i.subject)

  abbrev pairs_of : List CheckBulkItem → List CheckBulkResultPair
  pairs_of items =
      (check_bulk_result_from_model
        (record { pairs = map (pair_in tuples) (rels_of items); consistency_token = [] })).pairs

  items-AllAgree :
      (items : List CheckBulkItem)
      → IsExplicit
      → All (λ (i : CheckBulkItem). enforce_on env (codes "check") i.resource ≡ ok tt) items
      → AllAgree items (pairs_of items)
  unfolding check_bulk_result_from_model
  items-AllAgree [] explicit permitted = tt
  items-AllAgree (i ∷ items) explicit (here, rest) =
      ((refl, refl, item-Agrees i explicit here), items-AllAgree items explicit rest)

  length-pairs : (rels : List Relationship) → length (map (pair_in tuples) rels) ≡ length rels
  length-pairs [] = refl
  length-pairs (rel ∷ rels) = ap suc (length-pairs rels)

  answered :
      (rels : List Relationship)
      → bulk_result R simple_queries env s q (length rels) (Queries.check_bulk rels c q)
        ≡ ok (
            check_bulk_result_from_model (record {
              pairs = map (pair_in tuples) rels;
              consistency_token = format_int64 q.version;
            }))
  unfolding bulk_result validate_bulk_result_length Queries.check_bulk
  answered rels = rw (length-pairs rels, ==_refl (length rels)) refl

  no_managed : IsExplicit → no_managed_token (some c) ≡ ok tt
  unfolding normalize_consistency
  no_managed (inl e) = rw e refl
  no_managed (inr (token, e)) = rw e refl

  -- Over the simple backend, a bulk check at a consistency that the caller states in full, and that the
  -- caller may make, answers its items in order, each as the single check of it does, if the caller may
  -- make those.
  pub check_bulk-AllAgree :
      (items : List CheckBulkItem)
      → IsExplicit
      → enforce_all env (codes "check_bulk") (map (λ (i : CheckBulkItem). i.resource) items) ≡ ok tt
      → All (λ (i : CheckBulkItem). enforce_on env (codes "check") i.resource ≡ ok tt) items
      → (b : BulkResult) × (check_bulk R simple_queries env s q
            (record { items = items; consistency = some c })
          ≡ ok b)
        × AllAgree items b.pairs
  unfolding check_bulk
  check_bulk-AllAgree items explicit permitted each = (
    check_bulk_result_from_model (record {
      pairs = map (pair_in tuples) (rels_of items);
      consistency_token = format_int64 q.version;
    }),
    then_ok _ _ (no_managed explicit) ∙ then_ok _ _ permitted ∙ answered (rels_of items),
    items-AllAgree items explicit each,
  )
