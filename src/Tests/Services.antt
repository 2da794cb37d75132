-- ===== src/Tests/Services.antt =====
-- The properties of the service at concrete requests.
use inventory_api.Base.{
  ◌≡◌, refl, inl, inr, ◌⊎◌, Bool, true, false, Option, none, some, List, [], ◌∷◌, map, ok, err,
  ascii, Text, codes, All,
}
use inventory_api.Model.Representation.{str}
use inventory_api.Relations.Simple.{new_simple_relations}
use inventory_api.Relations.Simple.Queries.{simple_queries}
use inventory_api.Store.State.{new_fake_resource_repository}
use inventory_api.Store.Fake.{fake_repository, find_resource_by_keys}
use inventory_api.UseCases.Commands.{CheckBulkItem}
use inventory_api.UseCases.Reports.First.{IsFresh}
use inventory_api.UseCases.Checks.{enforce_on, enforce_all}
use inventory_api.Services.Messages.{
  ReportResourceRequest, ResourceReferenceMessage, CheckBulkRequestItem, BulkResponse, immediate,
  wants_minimize_latency,
}
use inventory_api.Services.Conversions.{to_report_resource_command, to_check_bulk_items}
use inventory_api.Services.Resources.{report_resource_request, check_bulk_request}
use inventory_api.Services.Resources.Keys.{IsHeldThenDeleted, delete_request-report_request}
use inventory_api.Services.Resources.Answers.{AllAnswered, check_bulk_request-AllAnswered}
use inventory_api.Services.Tuples.{
  RelationshipMessage, relationship_to_relations_tuple, read_tuples_item_to_proto,
}
use inventory_api.Services.Tuples.RoundTrip.{trimmed, read-relationship_to_tuple}
use inventory_api.Tests.Reports.{by_service, host_command}
use inventory_api.Tests.Checks.{in_w1, item}

-- The report of the host as it arrives, with spaces and capitals.
abbrev host_request : ReportResourceRequest
host_request = record {
  resource_type = codes "Host";
  reporter_type = codes " HBI";
  reporter_instance_id = codes "One";
  representations = some (record {
    metadata = some (record {
      local_resource_id = codes "host-1 ";
      api_href = codes "https://hosts/1";
      console_href = [];
      reporter_version = [];
      transaction_id = codes "tx";
    });
    common = some ((codes "workspace_id", str (codes "w1")) ∷ []);
    reporter = some ((codes "os", str (codes "linux")) ∷ []);
  });
  write_visibility = immediate;
}

abbrev host_reference : ResourceReferenceMessage
host_reference = record {
  resource_type = codes "Host";
  resource_id = codes "host-1 ";
  reporter = some (record { reporter_type = codes " HBI"; instance_id = some (codes "One") });
}

converted : to_report_resource_command host_request ≡ ok host_command
unfolding to_report_resource_command
converted = refl

IsFresh-host : IsFresh by_service host_command new_fake_resource_repository 11
unfolding find_resource_by_keys new_fake_resource_repository inventory_api.Base.look
IsFresh-host = record { missing = refl; next = refl; unseen = refl }

delete_request-report_request_example :
    ((report_resource_request fake_repository by_service host_request
        new_fake_resource_repository).1
      ≡ new_fake_resource_repository)
    ⊎ IsHeldThenDeleted host_request host_command
        (some host_reference)
        by_service
        by_service
        new_fake_resource_repository
        (report_resource_request fake_repository by_service host_request
          new_fake_resource_repository).1
delete_request-report_request_example =
    delete_request-report_request host_request host_command (some host_reference) by_service
      by_service new_fake_resource_repository 11 converted IsFresh-host
      (record { same_id = refl; same_type = refl; same_reporter = refl; same_instance = refl })

-- Whether the host is in the workspace.
abbrev host_item : CheckBulkRequestItem
host_item = record {
  object = some host_reference;
  relation = codes "workspace";
  subject = some (record {
    resource = some (record {
      resource_type = codes "workspace";
      resource_id = codes "w1";
      reporter = some (record { reporter_type = codes "rbac"; instance_id = none });
    });
    relation = none;
  });
}

abbrev asked : List CheckBulkItem
asked =
    record item {
      resource = record item.resource {
        reporter = some (record { reporter_type = codes "hbi"; instance_id = some (codes "one") });
      };
    }
    ∷ []

converted_items : to_check_bulk_items (host_item ∷ []) ≡ ok asked
unfolding to_check_bulk_items inventory_api.Model.References.new_workspace_relations_tuple
converted_items = refl

may_check_all :
    enforce_all by_service (codes "check_bulk") (map (λ (i : CheckBulkItem). i.resource) asked)
    ≡ ok tt
unfolding enforce_all inventory_api.Access.Authorization.enforce_meta_authz_object
    inventory_api.Access.Authorization.simple_check inventory_api.Base.list_beq
may_check_all = refl

may_check_item :
    All (λ (i : CheckBulkItem). enforce_on by_service (codes "check") i.resource ≡ ok tt) asked
unfolding enforce_on inventory_api.Access.Authorization.enforce_meta_authz_object
    inventory_api.Access.Authorization.simple_check inventory_api.Base.list_beq
may_check_item = (refl, tt)

check_bulk_request-AllAnswered_example :
    (b : BulkResponse CheckBulkRequestItem) × (check_bulk_request fake_repository simple_queries
        by_service new_fake_resource_repository new_simple_relations
        (record { items = host_item ∷ []; consistency = some (wants_minimize_latency true) })
      ≡ ok b)
    × AllAnswered fake_repository by_service new_fake_resource_repository new_simple_relations
        (some (wants_minimize_latency true))
        (host_item ∷ [])
        b.pairs
unfolding inventory_api.Services.Conversions.consistency_from_proto
check_bulk_request-AllAnswered_example =
    check_bulk_request-AllAnswered fake_repository by_service new_fake_resource_repository
      new_simple_relations (some (wants_minimize_latency true)) (host_item ∷ []) asked
      converted_items (inl refl) may_check_all may_check_item

-- The relation of the host as a message.
abbrev host_in_w1 : RelationshipMessage
host_in_w1 = record {
  resource = some (record {
    object_type = some (record { namespace = codes "hbi"; name = codes "host" });
    id = codes " host-1";
  });
  relation = codes "workspace";
  subject = some (record {
    subject = some (record {
      object_type = some (record { namespace = codes "rbac"; name = codes "workspace" });
      id = codes "w1";
    });
    relation = none;
  });
}

converted_tuple : relationship_to_relations_tuple host_in_w1 ≡ ok in_w1
unfolding relationship_to_relations_tuple
    inventory_api.Model.References.new_workspace_relations_tuple
converted_tuple = refl

read-relationship_to_tuple_example : read_tuples_item_to_proto in_w1 ≡ trimmed host_in_w1
read-relationship_to_tuple_example = read-relationship_to_tuple host_in_w1 in_w1 converted_tuple
