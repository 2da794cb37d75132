-- ===== src/Tests/Outbox.antt =====
-- The property of the outbox at a concrete report.
use inventory_api.Base.{
  ◌≡◌, refl, none, some, [], ok, Result, err, codes, ascii, List, ◌∷◌, ℕ, Text,
}
use inventory_api.Model.Values.{Fallible, Uuid}
use inventory_api.Model.Resource.{Resource, update_resource}
use inventory_api.Consumer.Messages.{TupleEvent}
use inventory_api.Store.Repository.{updated}
use inventory_api.Outbox.{
  reported, OutboxEvent, of_tuple, event_key, event_to_publish, new_outbox_events, nothing,
  kessel_tuples,
}
use inventory_api.Outbox.Versions.{new_outbox_events-update_resource}
use inventory_api.Tests.Data.{host, host_report, host_resource}
use inventory_api.Tests.Resources.{updates, updated_event}

abbrev print_uuid : Uuid → Text
print_uuid id = id ∷ []

abbrev nil_event : OutboxEvent
nil_event = record {
  operation = updated;
  aggregate_type = kessel_tuples;
  aggregate_id = 0;
  tx_id = [];
  payload = nothing;
}

abbrev value_of : Fallible (OutboxEvent × OutboxEvent) → OutboxEvent × OutboxEvent
value_of (ok x) = x
value_of (err e) = (nil_event, nil_event)

-- The two events for the report of the host.
abbrev written : OutboxEvent × OutboxEvent
written =
    value_of (new_outbox_events print_uuid 40 (ok 9) (reported updated_event) updated (codes "tx"))

publishes :
    event_to_publish updated (update_resource host host_report 30 31 host_resource).0
    ≡ ok (some (reported updated_event))
unfolding event_to_publish update_resource
    inventory_api.Model.Resource.find_reporter_resource_to_update_by_key
    inventory_api.Base.find_first inventory_api.Model.Resource.advance_common_version
    inventory_api.Model.Resource.matches_key inventory_api.Base.list_beq
    inventory_api.Model.Resource.report_on inventory_api.Model.Resource.report_event_of
    inventory_api.Model.Resource.reporter_part
    inventory_api.Model.ReporterResource.update_reporter_resource
    inventory_api.Model.Resource.common_part inventory_api.Model.Events.new_resource_report_event
publishes = refl

writes :
    new_outbox_events print_uuid 40 (ok 9) (reported updated_event) updated (codes "tx")
    ≡ ok (written.0, written.1)
unfolding new_outbox_events update_resource
    inventory_api.Model.Resource.find_reporter_resource_to_update_by_key
    inventory_api.Base.find_first inventory_api.Model.Resource.advance_common_version
    inventory_api.Model.Resource.matches_key inventory_api.Base.list_beq
    inventory_api.Model.Resource.report_on inventory_api.Model.Resource.report_event_of
    inventory_api.Model.Resource.reporter_part
    inventory_api.Model.ReporterResource.update_reporter_resource
    inventory_api.Model.Resource.common_part inventory_api.Model.Events.new_resource_report_event
    inventory_api.Model.Events.set_timestamps
writes = refl

new_outbox_events-update_resource_example :
    (e : TupleEvent) × (written.1.payload ≡ of_tuple e)
    × (written.1.tx_id ≡ codes "tx")
    × (e.reporter_resource_key ≡ event_key (reported updated_event))
    × (e.common_version ≡ (update_resource host host_report 30 31 host_resource).0.common_version)
new_outbox_events-update_resource_example =
    new_outbox_events-update_resource host host_report 30 31 host_resource print_uuid 40 (ok 9)
      (reported updated_event) (codes "tx") written.0 written.1 updates publishes writes
