-- ===== src/Model/Resource/Reports.antt =====
-- What the event of a successful report says, in terms of the arguments that it was made of.
use inventory_api.Base.{
  ℕ, ◌≡◌, ◌∙◌, ap, ◌⊎◌, inl, inr, true, false, Option, none, some, arith, ok, is_some, Option-cases,
  Text,
}
use inventory_api.Model.ReporterResource.{ReporterResource, ReporterResourceKey}
use inventory_api.Model.Representation.{ReporterRepresentation, CommonRepresentation}
use inventory_api.Model.Events.{
  ResourceReportEvent, new_resource_report_event, current_common_version,
}
use inventory_api.Model.Resource.{Report, is_given, report_event_of, reporter_part, common_part}

-- One of the two representations of the event carries the transaction of the report.
abbrev pub CarriesTransaction : Text → ResourceReportEvent → Type 0
CarriesTransaction txid e =
    ((c : ReporterRepresentation) × (e.reporter_representation ≡ some c)
      × (c.transaction_id ≡ txid))
    ⊎ ((d : CommonRepresentation) × (e.common_representation ≡ some d) × (d.transaction_id ≡ txid))

module _ (rr : ReporterResource) (key : ReporterResourceKey) (v : Option ℕ) (p : Report) where
  -- The version of the common part is the version that was passed in, if that is there exactly when
  -- the report has common data.
  common_part_version :
      (c : Option CommonRepresentation)
      → common_part rr.resource_id key v p ≡ ok c
      → is_some v ≡ is_given p.common_data
      → elim c [ none ↦ none | some cr ↦ some cr.version ] ≡ v
  unfolding common_part
  common_part_version c h k = ground arith

  reporter_part_state :
      (c : ReporterRepresentation)
      → reporter_part rr.id rr.representation_version rr.generation v p ≡ ok (some c)
      → (c.reporter_resource_id ≡ rr.id)
        × (c.version ≡ rr.representation_version)
        × (c.generation ≡ rr.generation)
        × (c.common_version ≡ v)
        × (c.tombstone ≡ false)
  unfolding reporter_part
  reporter_part_state c h = ground arith

  pub report_event_of_parts :
      (e : ResourceReportEvent)
      → report_event_of rr key v p ≡ ok e
      → (reporter_part rr.id rr.representation_version rr.generation v p
          ≡ ok e.reporter_representation)
        × (common_part rr.resource_id key v p ≡ ok e.common_representation)
  unfolding report_event_of new_resource_report_event
  report_event_of_parts e h = ground arith

  pub current_common_version-report_event_of :
      (e : ResourceReportEvent)
      → report_event_of rr key v p ≡ ok e
      → is_some v ≡ is_given p.common_data
      → current_common_version e ≡ v
  unfolding current_common_version
  current_common_version-report_event_of e h k =
      common_part_version e.common_representation (report_event_of_parts e h).1 k

  -- The reporter part of the event carries the state of the reporter resource.
  pub reporter_representation-report_event_of :
      (e : ResourceReportEvent) (c : ReporterRepresentation)
      → report_event_of rr key v p ≡ ok e
      → e.reporter_representation ≡ some c
      → (c.reporter_resource_id ≡ rr.id)
        × (c.version ≡ rr.representation_version)
        × (c.generation ≡ rr.generation)
        × (c.common_version ≡ v)
        × (c.tombstone ≡ false)
  reporter_representation-report_event_of e c h k =
      reporter_part_state c (rw k at (report_event_of_parts e h).0)

  reporter_part_transaction :
      (c : ReporterRepresentation)
      → reporter_part rr.id rr.representation_version rr.generation v p ≡ ok (some c)
      → c.transaction_id ≡ p.transaction_id
  unfolding reporter_part
  reporter_part_transaction c h = ground arith

  common_part_transaction :
      (d : CommonRepresentation)
      → common_part rr.resource_id key v p ≡ ok (some d)
      → d.transaction_id ≡ p.transaction_id
  unfolding common_part
  common_part_transaction d h = ground arith

  not_both_absent :
      (e : ResourceReportEvent)
      → report_event_of rr key v p ≡ ok e
      → e.reporter_representation ≡ none
      → is_some e.common_representation ≡ true
  unfolding report_event_of new_resource_report_event
  not_both_absent e h k = ground arith

  pub report_event_of-CarriesTransaction :
      (e : ResourceReportEvent)
      → report_event_of rr key v p ≡ ok e
      → CarriesTransaction p.transaction_id e
  report_event_of-CarriesTransaction e h =
      let (reporter, common) = report_event_of_parts e h in
      elim (Option-cases e.reporter_representation) [
        | inr (c, there) ↦ inl (
          c,
          there,
          reporter_part_transaction c
              (reporter ∙ ap (λ (o : Option ReporterRepresentation). ok o) there),
        )
        | inl absent ↦ elim (Option-cases e.common_representation) [
          | inr (d, there) ↦ inr (
            d,
            there,
            common_part_transaction d
                (common ∙ ap (λ (o : Option CommonRepresentation). ok o) there),
          )
          | inl gone ↦ cc (rw gone at (not_both_absent e h absent))
        ]
      ]
