-- ===== src/Tests/Reports.antt =====
-- The properties of ReportResource and Delete at concrete inputs.
use inventory_api.Base.{
  ◌≡◌, ◌≢◌, refl, ap, sym, ◌∙◌, inl, inr, Bool, true, false, Option, none, some, List, [], ◌∷◌, map,
  ok, ℕ, ◌+◌, arith, ascii, Text, codes, contains, ==_refl, All, length, trim_space, nonempty, ◌⊎◌,
  list_eq, nat_eq, ◌==◌,
}
use inventory_api.Model.ReporterResource.{ReporterResource}
use inventory_api.Model.Resource.{Resource, matches_key}
use inventory_api.Model.SchemaService.{SchemaReads, validate_report_against_schema}
use inventory_api.Access.Authentication.{Claims, oidc}
use inventory_api.Access.Authorization.{AuthzContext, grpc, simple_check}
use inventory_api.Relations.Simple.Keys.{key_eq}
use inventory_api.Store.Fake.{fake_repository, find_resource_by_keys}
use inventory_api.Store.State.{FakeRepository, new_fake_resource_repository}
use inventory_api.Store.Fake.Saves.{reloaded, unlinked}
use inventory_api.Store.Fake.Updates.{Holds}
use inventory_api.UseCases.Reports.{Environment, notified, report_resource, admit}
use inventory_api.UseCases.Commands.{ReportResourceCommand, consistent}
use inventory_api.UseCases.Reports.Calls.{IsReported, report_resource-IsReported}
use inventory_api.UseCases.Reports.Runs.{
  Call, report, delete_at, Keeps, all_called, all_called-Keeps,
}
use inventory_api.UseCases.Reports.Admission.{report_resource-simple_check}
use inventory_api.UseCases.Reports.Repeats.{refusal, report_resource-report_resource}
use inventory_api.Tests.Data.{host, host_resource, alive_host, host_report}
use inventory_api.Tests.Stores.{host_repository}

abbrev pub caller : Claims
caller = record {
  subject_id = codes "service";
  organization_id = [];
  issuer = codes "sso";
  client_id = codes "hbi";
  auth_type = oidc;
}

-- Every reporter may report what it likes.
abbrev no_rules : SchemaReads
no_rules = record {
  resource_schema = λ t. ok (
      some (record {
        validate = λ r. none;
        calculate = λ c p key. ok (record { tuples_to_create = none; tuples_to_delete = none });
      }));
  reporter_schema = λ t r. ok (
      some (record {
        validate = λ r. none;
        calculate = λ c p key. ok (record { tuples_to_create = none; tuples_to_delete = none });
      }));
}

abbrev pub by_service : Environment
by_service = record {
  context = some (record { protocol = grpc; subject = some caller });
  authorizer = some simple_check;
  config = record {
    read_after_write_enabled = true;
    read_after_write_allowlist = codes "*" ∷ [];
    consumer_enabled = true;
    default_to_at_least_as_acknowledged = true;
    idempotency_check_enabled = true;
  };
  schemas = no_rules;
  has_listen_manager = true;
  next_transaction_id = ok (codes "fresh");
  retry_transaction_id = ok (codes "again");
  next_resource_id = ok 11;
  next_reporter_resource_id = ok 12;
  now = 50;
  later = 51;
  wait = notified;
}

abbrev pub host_command : ReportResourceCommand
host_command = record {
  local_resource_id = codes "host-1";
  resource_type = codes "host";
  reporter_type = codes "hbi";
  reporter_instance_id = codes "one";
  api_href = codes "https://hosts/1";
  console_href = none;
  reporter_version = none;
  transaction_id = some (codes "tx");
  reporter_representation = host_report.reporter_data;
  common_representation = host_report.common_data;
  write_visibility = consistent;
}

-- The host as the repository has it.
abbrev pub held_host : Resource
held_host = reloaded host_resource alive_host

Holds-host : Holds host held_host (unlinked alive_host) host_repository
unfolding matches_key find_resource_by_keys new_fake_resource_repository inventory_api.Base.look
    inventory_api.Base.list_beq inventory_api.Base.equal_fold inventory_api.Store.Fake.resource_of
    inventory_api.Store.Fake.reporter_resource_snapshot_of
    inventory_api.Model.Serialization.deserialize_resource
    inventory_api.Model.Serialization.deserialize_reporter_resource
    inventory_api.Model.Serialization.deserialize_reporter_resource_key
Holds-host = record {
  is_single = record { single = refl; typed = refl; owned = refl };
  matching = refl;
  alone = ((λ h. cc), tt);
  seen = refl;
  in_step = inl refl;
  quiet = λ now. refl;
  found = refl;
}

report_resource-IsReported_example :
    ((report_resource fake_repository by_service host_command host_repository).1 ≡ host_repository)
    ⊎ IsReported by_service host_command held_host
        (unlinked alive_host)
        (report_resource fake_repository by_service host_command host_repository).1
unfolding inventory_api.Model.ReporterResource.new_reporter_resource_key
report_resource-IsReported_example =
    report_resource-IsReported by_service host_command held_host (unlinked alive_host)
      host_repository Holds-host (omega arith)

abbrev calls : List Call
calls =
    report by_service host_command
    ∷ delete_at by_service host
    ∷ report by_service (record host_command { common_representation = none })
    ∷ []

Keeps-host : Keeps host 1 (length calls) host_repository
Keeps-host = record {
  resource = held_host;
  rr = unlinked alive_host;
  held = Holds-host;
  same_id = refl;
  room = omega arith;
}

all_called-Keeps_example : Keeps host 1 0 (all_called calls host_repository)
unfolding inventory_api.Model.ReporterResource.new_reporter_resource_key
all_called-Keeps_example =
    all_called-Keeps host 1 calls host_repository (refl, (refl, (refl, tt))) Keeps-host

-- The first report of the host is stored.
first_report :
    ((report_resource fake_repository by_service host_command new_fake_resource_repository).0
      ≡ none)
    × (nonempty
          (report_resource fake_repository by_service host_command
            new_fake_resource_repository).1.resources_by_primary_key
        ≡ true)
unfolding report_resource inventory_api.Access.Authorization.enforce_meta_authz_object simple_check
    inventory_api.Base.list_beq inventory_api.Store.Fake.has_transaction_id_been_processed contains
    new_fake_resource_repository inventory_api.Store.Fake.fake_transaction find_resource_by_keys
    inventory_api.Model.Resource.report_event_of inventory_api.Model.Resource.reporter_part
    inventory_api.Model.ReporterResource.new_reporter_resource
    inventory_api.Model.Resource.common_part
    inventory_api.Model.ReporterResource.new_reporter_resource_key
    inventory_api.Model.Events.new_resource_report_event inventory_api.Store.Fake.save
    inventory_api.Base.look inventory_api.Base.put inventory_api.Base.remove
    inventory_api.Store.Fake.store inventory_api.Store.State.stored_resource
    inventory_api.Store.Fake.save_snapshots inventory_api.Model.Serialization.serialize_resource
    inventory_api.Model.Serialization.serialize_reporter_resource
    inventory_api.Model.Resource.new_resource
first_report = (refl, refl)

-- Another call, later, with other fresh ids and other data, under the same transaction id.
abbrev later_call : Environment
later_call = record by_service {
  next_transaction_id = ok (codes "other");
  next_resource_id = ok 21;
  now = 70;
  later = 71;
}

abbrev second_command : ReportResourceCommand
second_command = record host_command { common_representation = none }

abbrev after_first : FakeRepository
after_first =
    all_called (delete_at later_call host ∷ [])
      (report_resource fake_repository by_service host_command new_fake_resource_repository).1

report_resource-report_resource_example :
    report_resource fake_repository later_call second_command after_first
    ≡ (refusal (admit later_call second_command), after_first)
report_resource-report_resource_example =
    report_resource-report_resource by_service later_call host_command second_command (codes "tx")
      (delete_at later_call host ∷ []) new_fake_resource_repository refl refl refl refl refl
      first_report.0

abbrev filled : FakeRepository → Bool
filled s = nonempty s.resources_by_primary_key

changes :
    (report_resource fake_repository by_service host_command new_fake_resource_repository).1
    ≢ new_fake_resource_repository
unfolding new_fake_resource_repository
changes h = cc (first_report.1, ap filled h)

report_resource-simple_check_example :
    (context : AuthzContext) × (claims : Claims) × (by_service.context ≡ some context)
    × (context.subject ≡ some claims)
    × (context.protocol ≡ grpc)
    × (validate_report_against_schema no_rules
          (codes "host")
          (codes "hbi")
          host_command.common_representation
          host_command.reporter_representation
        ≡ ok tt)
report_resource-simple_check_example =
    report_resource-simple_check fake_repository by_service host_command
      new_fake_resource_repository refl changes
