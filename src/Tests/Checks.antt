-- ===== src/Tests/Checks.antt =====
-- The properties of the checks, and of the subject of a caller, at concrete inputs.
use inventory_api.Base.{
  ◌≡◌, ◌≢◌, refl, ap, sym, ◌∙◌, inl, inr, Bool, true, false, Option, none, some, List, [], ◌∷◌, map,
  ok, ℕ, ◌+◌, arith, ascii, Text, codes, contains, ==_refl, All, length, trim_space, nonempty, ◌⊎◌,
  list_eq, nat_eq, ◌==◌,
}
use inventory_api.Model.Resource.{Resource}
use inventory_api.Model.Consistency.{minimize_latency, at_least_as_acknowledged}
use inventory_api.Model.References.{RelationsTuple, new_workspace_relations_tuple}
use inventory_api.Access.Authentication.{Claims, is_authenticated}
use inventory_api.Access.Authorization.{AuthzContext, grpc, simple_check}
use inventory_api.Relations.Codes.{CheckResult}
use inventory_api.Relations.Simple
use inventory_api.Relations.Simple.Keys.{key_eq}
use inventory_api.Relations.Simple.{SimpleRelations, new_simple_relations, key_of}
use inventory_api.Relations.Simple.Queries.{simple_queries}
use inventory_api.Store.Fake.{fake_repository, find_resource_by_keys}
use inventory_api.Store.State.{FakeRepository}
use inventory_api.UseCases.SelfSubject.{RedHatRbacSelfSubjectStrategy, derive_subject_id, domain_of}
use inventory_api.UseCases.SelfSubject.Identities.{derive_subject_id-distinct}
use inventory_api.UseCases.Checks.{
  check, check_bulk, enforce_on, enforce_all, reporter_key_from_resource_ref,
}
use inventory_api.UseCases.Commands.{CheckBulkItem, BulkResult}
use inventory_api.UseCases.Checks.ReadYourWrites.{check-acknowledged}
use inventory_api.UseCases.Checks.Bulk.{AllAgree, check_bulk-AllAgree}
use inventory_api.Tests.Data.{host}
use inventory_api.Tests.Stores.{host_repository}
use inventory_api.Tests.Reports.{caller, by_service, held_host}

abbrev strategy : RedHatRbacSelfSubjectStrategy
strategy = record {
  enabled = true;
  x_rh_identity_domain = codes "redhat";
  oidc_issuer_domains = (codes "sso", codes "internal") ∷ [];
}

abbrev by_name : Text → AuthzContext
by_name name = record { protocol = grpc; subject = some (record caller { subject_id = name }) }

derives : derive_subject_id strategy (by_name (codes "ann")) ≡ ok (codes "internal/ann")
unfolding derive_subject_id inventory_api.Base.look inventory_api.Base.list_beq
derives = refl

derives_padded : derive_subject_id strategy (by_name (codes " ann ")) ≡ ok (codes "internal/ann")
unfolding derive_subject_id inventory_api.Base.look inventory_api.Base.list_beq
derives_padded = refl

derive_subject_id-distinct_example :
    (c d : Claims) × ((by_name (codes "ann")).subject ≡ some c)
    × ((by_name (codes " ann ")).subject ≡ some d)
    × (is_authenticated (some c) ≡ true)
    × (is_authenticated (some d) ≡ true)
    × (domain_of strategy c ≡ domain_of strategy d)
    × (trim_space c.subject_id ≡ trim_space d.subject_id)
unfolding contains
derive_subject_id-distinct_example =
    derive_subject_id-distinct strategy (by_name (codes "ann")) (by_name (codes " ann "))
      (codes "internal/ann") (record { header = refl; issuers = (refl, tt) }) derives derives_padded
      refl

abbrev pub in_w1 : RelationsTuple
in_w1 = new_workspace_relations_tuple (codes "w1") host

-- The consumer wrote the relation of the host, and its token went into the repository.
abbrev replicated : FakeRepository
replicated = record host_repository {
  resources_by_primary_key =
      map (λ p. (p.0, record p.1 { consistency_token = codes "2" }))
        host_repository.resources_by_primary_key;
}

abbrev replicated_host : Resource
replicated_host = record held_host { consistency_token = codes "2" }

found_replicated :
    fake_repository.find_resource_by_keys (reporter_key_from_resource_ref in_w1.object) replicated
    ≡ ok replicated_host
unfolding find_resource_by_keys inventory_api.Base.list_beq reporter_key_from_resource_ref
    new_workspace_relations_tuple inventory_api.Base.look
found_replicated = refl

created_w1 : contains (key_of in_w1) (map key_of (in_w1 ∷ [])) ≡ true
unfolding contains
created_w1 = ground (arith, ==_refl (key_of in_w1))

token_w1 : (Simple.create_tuples (in_w1 ∷ []) true none new_simple_relations).0 ≡ ok (codes "2")
unfolding Simple.create_tuples new_simple_relations inventory_api.Base.format_int
    inventory_api.Base.format_int64 Simple.advance_version
token_w1 = refl

may_check : enforce_on by_service (codes "check") in_w1.object ≡ ok tt
unfolding enforce_on new_workspace_relations_tuple
    inventory_api.Access.Authorization.enforce_meta_authz_object simple_check
    inventory_api.Base.list_beq
may_check = refl

check-acknowledged_example :
    (c : CheckResult) × (check fake_repository simple_queries by_service replicated
        (Simple.create_tuples (in_w1 ∷ []) true none new_simple_relations).1
        in_w1.relation
        in_w1.subject
        in_w1.object
        (some at_least_as_acknowledged)
      ≡ ok c)
    × (c.allowed ≡ true)
unfolding new_simple_relations
check-acknowledged_example =
    check-acknowledged fake_repository by_service replicated in_w1 replicated_host (in_w1 ∷ []) true
      none new_simple_relations refl created_w1 found_replicated refl token_w1 may_check

abbrev pub item : CheckBulkItem
item = record { resource = in_w1.object; relation = in_w1.relation; subject = in_w1.subject }

may_check_bulk :
    enforce_all by_service
      (codes "check_bulk")
      (map (λ (i : CheckBulkItem). i.resource) (item ∷ []))
    ≡ ok tt
unfolding enforce_all new_workspace_relations_tuple
    inventory_api.Access.Authorization.enforce_meta_authz_object simple_check
    inventory_api.Base.list_beq
may_check_bulk = refl

check_bulk-AllAgree_example :
    (b : BulkResult) × (check_bulk fake_repository simple_queries by_service replicated
        new_simple_relations
        (record { items = item ∷ []; consistency = some minimize_latency })
      ≡ ok b)
    × AllAgree fake_repository by_service replicated new_simple_relations minimize_latency
        (item ∷ [])
        b.pairs
check_bulk-AllAgree_example =
    check_bulk-AllAgree fake_repository by_service replicated new_simple_relations minimize_latency
      (item ∷ []) (inl refl) may_check_bulk (may_check, tt)
