-- ===== src/Outbox/Versions.antt =====
-- The outbox tells the consumer the versions that the resource has.
use inventory_api.Base.{
  ℕ, ◌≡◌, ap, ◌∙◌, sym, Option, none, some, [], ◌∷◌, Text, CaseTables, ok, ok->>=, arith,
}
use inventory_api.Model.Values.{Time, Uuid, Fallible}
use inventory_api.Model.ReporterResource.{ReporterResourceKey}
use inventory_api.Model.Events.{ResourceReportEvent, set_timestamps}
use inventory_api.Model.Resource.{Resource, Report, update_resource, created_at}
use inventory_api.Model.Resource.Lifecycle.{update_resource-IsUpdated}
use inventory_api.Model.Resource.Versions.{current_common_version-update_resource}
use inventory_api.Consumer.Messages.{TupleEvent, new_tuple_event}
use inventory_api.Store.Repository.{EventOperationType, updated}
use inventory_api.Outbox.{
  DomainEvent, reported, OutboxEvent, of_tuple, event_key, common_version_of, reporter_version_of,
  new_outbox_events, event_to_publish, resource_payload, kessel_tuples,
}

tuple_versions :
    (key : ReporterResourceKey) (c r : Option ℕ) (t : TupleEvent)
    → new_tuple_event key c r ≡ ok t
    → (t.reporter_resource_key ≡ key)
      × (t.common_version ≡ c)
      × (t.reporter_representation_version ≡ r)
unfolding new_tuple_event
tuple_versions key c r t h = (ground (arith, h), ground (arith, h), ground (arith, h))

-- The second event of the outbox is for the tuples of the resource.
tuple_event_of :
    (print_uuid : Uuid → Text) (now : Time) (fresh : Fallible Uuid) (d : DomainEvent)
    (operation : EventOperationType) (txid : Text) (resource tuples : OutboxEvent)
    → new_outbox_events print_uuid now fresh d operation txid ≡ ok (resource, tuples)
    → (t : TupleEvent) × (new_tuple_event
          (event_key d)
          (common_version_of d)
          (reporter_version_of d)
        ≡ ok t)
      × (tuples.payload ≡ of_tuple t)
      × (tuples.aggregate_type ≡ kessel_tuples)
      × (tuples.tx_id ≡ txid)
unfolding new_outbox_events
tuple_event_of print_uuid now fresh d operation txid resource tuples h =
    let (t, h1, made) =
      ok->>= (new_tuple_event (event_key d) (common_version_of d) (reporter_version_of d)) _
        (sym h) in
    let (payload, h2, e) = ok->>= (resource_payload print_uuid now fresh operation d) _ h1 in
    (t, made, cc, cc, cc)

first_published :
    (q : Resource) (e : ResourceReportEvent) (d : DomainEvent)
    → q.resource_report_events ≡ e ∷ []
    → event_to_publish updated q ≡ ok (some d)
    → d ≡ reported e
unfolding event_to_publish
first_published q e d events k = cc (rw (events, event_to_publish) at k)

module _ ⦃t : CaseTables⦄ (key : ReporterResourceKey) (p : Report) (now later : Time)
    (r : Resource) where
  -- The event that a successful Update leaves is the one that is published.
  published :
      (d : DomainEvent)
      → (update_resource key p now later r).1 ≡ none
      → event_to_publish updated (update_resource key p now later r).0 ≡ ok (some d)
      → (e : ResourceReportEvent) × ((update_resource key p now later r).0.resource_report_events
          ≡ e ∷ [])
        × (d ≡ reported e)
  unfolding event_to_publish
  published d h k =
      let u = update_resource-IsUpdated key r p now later h in
      let e = set_timestamps (created_at r) later u.event in
      let events = ap (λ (q : Resource). q.resource_report_events) u.result in
      (e, events, first_published (update_resource key p now later r).0 e d events k)

  -- After a successful Update, the outbox event for the tuples carries the transaction id that Save was
  -- given, and tells the consumer the common version that the resource now has.
  pub new_outbox_events-update_resource :
      (print_uuid : Uuid → Text) (clock : Time) (fresh : Fallible Uuid) (d : DomainEvent)
      (txid : Text) (resource tuples : OutboxEvent)
      → (update_resource key p now later r).1 ≡ none
      → event_to_publish updated (update_resource key p now later r).0 ≡ ok (some d)
      → new_outbox_events print_uuid clock fresh d updated txid ≡ ok (resource, tuples)
      → (e : TupleEvent) × (tuples.payload ≡ of_tuple e)
        × (tuples.tx_id ≡ txid)
        × (e.reporter_resource_key ≡ event_key d)
        × (e.common_version ≡ (update_resource key p now later r).0.common_version)
  unfolding common_version_of
  new_outbox_events-update_resource print_uuid clock fresh d txid resource tuples h k o =
      let (event, events, same) = published d h k in
      let (e, made, payload, aggregate, tx) =
        tuple_event_of print_uuid clock fresh d updated txid resource tuples o in
      let (keyed, common, version) =
        tuple_versions (event_key d) (common_version_of d) (reporter_version_of d) e made in
      (
        e,
        payload,
        tx,
        keyed,
        common
            ∙ ap common_version_of same
            ∙ current_common_version-update_resource key p now later r event h events,
      )
