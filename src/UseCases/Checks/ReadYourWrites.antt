-- ===== src/UseCases/Checks/ReadYourWrites.antt =====
-- A check that the repository of resources makes fresh enough sees what the consumer wrote.
use inventory_api.Base.{
  ◌≡◌, refl, ap, ◌∙◌, sym, Bool, true, false, Option, none, some, List, map, nonempty, Text, codes,
  contains, Result, ok, bind_ok,
}
use inventory_api.Model.Consistency.{at_least_as_acknowledged, at_least_as_fresh}
use inventory_api.Model.References.{RelationsTuple}
use inventory_api.Model.Resource.{Resource}
use inventory_api.Relations.Codes.{Code, CheckResult, FencingCheck}
use inventory_api.Relations.Simple
use inventory_api.Relations.Simple.Keys.{key_eq}
use inventory_api.Relations.Simple.{SimpleRelations, key_of}
use inventory_api.Relations.Simple.Queries.{simple_queries}
use inventory_api.Relations.Simple.Sessions.{relationship_of, check-create_tuples}
use inventory_api.Store.Repository.{Fault, relations, ResourceRepository}
use inventory_api.UseCases.Reports.{Environment, map_error}
use inventory_api.UseCases.Checks.{
  check, enforce_on, resolve_consistency, resolve_from_db, check_permission,
  lookup_consistency_token_from_db, reporter_key_from_resource_ref,
}

module _ (R : ResourceRepository) (env : Environment) (s : R.State) (t : RelationsTuple)
    (r : Resource) where
  stored_token :
      R.find_resource_by_keys (reporter_key_from_resource_ref t.object) s ≡ ok r
      → lookup_consistency_token_from_db R env s t.object ≡ ok r.consistency_token
  unfolding lookup_consistency_token_from_db
  stored_token found = rw (found, lookup_consistency_token_from_db) refl

  -- An acknowledged check is as fresh as the token that is stored with the resource.
  resolved :
      (override : Bool)
      → R.find_resource_by_keys (reporter_key_from_resource_ref t.object) s ≡ ok r
      → nonempty r.consistency_token ≡ true
      → resolve_consistency R env s (some at_least_as_acknowledged) t.object override
        ≡ ok (at_least_as_fresh r.consistency_token)
  unfolding resolve_consistency resolve_from_db
  resolved override found given = rw (stored_token found) (rw given refl)

  -- Read your writes, through both stores: where the repository holds, for the object of a tuple, a
  -- resource with the token of a CreateTuples that was not refused, a permitted check that asks for
  -- what is acknowledged allows the tuple if it was among those created.
  pub check-acknowledged :
      (ts : List RelationsTuple) (upsert : Bool) (fencing : Option FencingCheck)
      (q : SimpleRelations)
      → q.create_tuples_error ≡ none
      → contains (key_of t) (map key_of ts) ≡ true
      → R.find_resource_by_keys (reporter_key_from_resource_ref t.object) s ≡ ok r
      → nonempty r.consistency_token ≡ true
      → (Simple.create_tuples ts upsert fencing q).0 ≡ ok r.consistency_token
      → enforce_on env (codes "check") t.object ≡ ok tt
      → let q' = (Simple.create_tuples ts upsert fencing q).1 in
        (c : CheckResult) × (check R simple_queries env s q' t.relation t.subject t.object
            (some at_least_as_acknowledged)
          ≡ ok c)
        × (c.allowed ≡ true)
  unfolding check check_permission
  check-acknowledged ts upsert fencing q fine member found given written permitted =
      let (token, q', e, c, checked, allowed) =
        check-create_tuples t ts upsert fencing q fine member in
      let same : token ≡ r.consistency_token =
        cc (ap (λ (x : Result Code Text × SimpleRelations). x.0) e, written) in
      let state : (Simple.create_tuples ts upsert fencing q).1 ≡ q' =
        ap (λ (x : Result Code Text × SimpleRelations). x.1) e in
      (
        c,
        bind_ok _ _ _ permitted (resolved false found given)
            ∙ ap
                (λ (x : Result Code CheckResult × SimpleRelations).
                  map_error {E = Code} {F = Fault} relations x.0)
                (ap
                    (λ (z : Text × SimpleRelations).
                      Simple.check (relationship_of t) (at_least_as_fresh z.0) z.1)
                    (λ i. (sym same i, state i))
                  ∙ checked),
        allowed,
      )
