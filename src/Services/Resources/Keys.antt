-- ===== src/Services/Resources/Keys.antt =====
-- A delete request addresses what a report request of the same names created.
use inventory_api.Base.{
  ◌≡◌, ◌≢◌, refl, ap, ◌∙◌, sym, ◌⊎◌, inl, inr, Bool, true, false, Option, none, some, CaseTables,
  Result, ok, err, Text, is_some, [], ◌∷◌, Result-cases, nonempty, ok->>=, ◌>>=◌, ◌>>◌, guard,
  arith, trim_space,
}
use inventory_api.Model.Values.{Uuid, Fallible, new_trimmed, new_resource_type, new_reporter_type}
use inventory_api.Store.State.{FakeRepository}
use inventory_api.Store.Fake.{fake_repository}
use inventory_api.UseCases.Commands.{ReportResourceCommand}
use inventory_api.UseCases.Reports.{Environment, key_of, report_resource}
use inventory_api.UseCases.Reports.Calls.{IsDeleted, delete-IsDeleted}
use inventory_api.UseCases.Reports.First.{IsFresh, IsHeld, report_resource-IsHeld}
use inventory_api.Services.Messages.{
  ReportResourceRequest, ResourceReferenceMessage, get_metadata, get_reporter_data, get_common,
  get_resource_id, get_resource_type, get_reporter, get_type, get_instance_id,
}
use inventory_api.Services.Conversions.{
  to_report_resource_command, reporter_key_from_resource_reference, if_nonempty,
  representation_from_proto_struct,
}
use inventory_api.Services.Resources.{report_resource_request, delete_resource_request}

-- A reference that names what a report is about.
pub record Names (m : Option ResourceReferenceMessage) (r : ReportResourceRequest) : Type 0 where
  pub same_id : get_resource_id m ≡ (get_metadata r.representations).local_resource_id
  pub same_type : get_resource_type m ≡ r.resource_type
  pub same_reporter : get_type (get_reporter m) ≡ r.reporter_type
  pub same_instance : get_instance_id (get_reporter m) ≡ r.reporter_instance_id

-- The parts of the key of a command.
pub record Parts ⦃t : CaseTables⦄ (r : ReportResourceRequest) (cmd : ReportResourceCommand)
    : Type 0 where
  pub id_part :
      new_trimmed (get_metadata r.representations).local_resource_id ≡ ok cmd.local_resource_id
  pub type_part : new_resource_type r.resource_type ≡ ok cmd.resource_type
  pub reporter_part : new_reporter_type r.reporter_type ≡ ok cmd.reporter_type
  pub instance_part : new_reporter_type r.reporter_instance_id ≡ ok cmd.reporter_instance_id

-- A chain whose result is not an error had none in its first steps.
four_steps :
    {A B C D X : Type 0} (a : Fallible A) (b : Fallible B) (c : Fallible C) (d : Fallible D)
    (k : A → B → C → D → Fallible X) {x : X}
    → ok x ≡ (a >>= (λ a'. b >>= (λ b'. c >>= (λ c'. d >>= (λ d'. k a' b' c' d')))))
    → (a' : A) × (b' : B) × (c' : C) × (d' : D) × (a ≡ ok a')
      × (b ≡ ok b')
      × (c ≡ ok c')
      × (d ≡ ok d')
      × (ok x ≡ k a' b' c' d')
four_steps (err e) b c d k h = cc
four_steps (ok a) (err e) c d k h = cc
four_steps (ok a) (ok b) (err e) d k h = cc
four_steps (ok a) (ok b) (ok c) (err e) k h = cc
four_steps (ok a) (ok b) (ok c) (ok d) k h = (a, b, c, d, refl, refl, refl, refl, h)

five_steps :
    {A B C D F X : Type 0} (a : Fallible A) (b : Fallible B) (c : Fallible C) (d : Fallible D)
    (f : Fallible F) (k : A → B → C → D → F → Fallible X) {x : X}
    → ok x
      ≡ (a >>= (λ a'. b >>= (λ b'. c >>= (λ c'. d >>= (λ d'. f >>= (λ f'. k a' b' c' d' f'))))))
    → (a' : A) × (b' : B) × (c' : C) × (d' : D) × (f' : F) × (ok x ≡ k a' b' c' d' f')
five_steps (err e) b c d f k h = cc
five_steps (ok a) b c d f k h =
    let (b', c', d', f', eb, ec, ed, ef, h') = four_steps b c d f (k a) h in (a, b', c', d', f', h')

field :
    (f : ReportResourceCommand → Text) {c d : ReportResourceCommand}
    → ◌≡◌ {A = Fallible ReportResourceCommand} (ok c) (ok d)
    → ◌≡◌ {A = Fallible Text} (ok (f d)) (ok (f c))
field f h = sym (ap (λ (x : Fallible ReportResourceCommand). x >>= (λ c. ok (f c))) h)

module _ ⦃t : CaseTables⦄ where
  command-Parts :
      (r : ReportResourceRequest) (cmd : ReportResourceCommand)
      → to_report_resource_command r ≡ ok cmd
      → Parts r cmd
  unfolding to_report_resource_command
  command-Parts r cmd h =
      let m = get_metadata r.representations in
      let (a, b, c, d, ea, eb, ec, ed, h') =
        four_steps (new_trimmed m.local_resource_id) (new_resource_type r.resource_type)
          (new_reporter_type r.reporter_type) (new_reporter_type r.reporter_instance_id) _
          (sym h) in
      let (e, f, g, i, j, made) =
        five_steps (new_trimmed m.api_href) (if_nonempty new_trimmed m.console_href)
          (if_nonempty new_trimmed m.reporter_version)
          (representation_from_proto_struct (get_reporter_data r.representations))
          (representation_from_proto_struct (get_common r.representations)) _ h' in
      record {
        id_part = ea ∙ field (λ q. q.local_resource_id) made;
        type_part = eb ∙ field (λ q. q.resource_type) made;
        reporter_part = ec ∙ field (λ q. q.reporter_type) made;
        instance_part = ed ∙ field (λ q. q.reporter_instance_id) made;
      }

  -- What is not empty once it is trimmed was not empty before.
  given_instance :
      (s x : Text) → new_reporter_type s ≡ ok x → if_nonempty new_reporter_type s ≡ ok (some x)
  unfolding if_nonempty new_reporter_type new_trimmed trim_space inventory_api.Base.drop_spaces
  given_instance [] x h = cc
  given_instance (c ∷ cs) x h = rw h refl

  pub reporter_key-to_command :
      (m : Option ResourceReferenceMessage) (r : ReportResourceRequest)
      (cmd : ReportResourceCommand)
      → Names m r
      → to_report_resource_command r ≡ ok cmd
      → reporter_key_from_resource_reference m ≡ ok (key_of cmd)
  unfolding reporter_key_from_resource_reference
  reporter_key-to_command m r cmd n h =
      let p = command-Parts r cmd h in
      rw
        (
          n.same_id,
          n.same_type,
          n.same_reporter,
          n.same_instance,
          p.id_part,
          p.type_part,
          p.reporter_part,
          given_instance r.reporter_instance_id cmd.reporter_instance_id p.instance_part,
        )
        refl

  module _ (r : ReportResourceRequest) (cmd : ReportResourceCommand)
      (m : Option ResourceReferenceMessage) (env env' : Environment) (s : FakeRepository) where
    -- What a delete request leaves of a resource that is held at the key: all of it, with an error, or
    -- its tombstone.
    abbrev pub IsHeldThenDeleted : FakeRepository → Type 0
    IsHeldThenDeleted s1 =
        (h : IsHeld env cmd s s1) × (let (e, s') =
            delete_resource_request fake_repository env' m s1 in
          ((is_some e ≡ true) × (s' ≡ s1))
          ⊎ ((e ≡ none) × IsDeleted env' (key_of cmd) h.resource h.rr s'))

    after_report :
        (id : Uuid)
        → to_report_resource_command r ≡ ok cmd
        → IsFresh env cmd s id
        → Names m r
        → let s1 = (report_resource fake_repository env cmd s).1 in (s1 ≡ s) ⊎ IsHeldThenDeleted s1
    unfolding delete_resource_request
    after_report id made fresh n = elim (report_resource-IsHeld env cmd s id fresh) [
      | inl e ↦ inl e
      | inr h ↦ inr (
        h,
        rw (reporter_key-to_command m r cmd n made, delete_resource_request)
            (delete-IsDeleted env' (key_of cmd) h.resource h.rr _ h.held),
      )
    ]

    reported_as :
        to_report_resource_command r ≡ ok cmd
        → (report_resource_request fake_repository env r s).1
          ≡ (report_resource fake_repository env cmd s).1
    unfolding report_resource_request
    reported_as made = rw (made, report_resource_request) refl

    -- A report request at a key where nothing is found, under a fresh id, changes nothing; or a delete
    -- request that follows it, by any caller, of a reference with the names of the report, gives an error
    -- and changes nothing, or leaves a tombstone where the report left its resource.
    pub delete_request-report_request :
        (id : Uuid)
        → to_report_resource_command r ≡ ok cmd
        → IsFresh env cmd s id
        → Names m r
        → let s1 = (report_resource_request fake_repository env r s).1 in
          (s1 ≡ s) ⊎ IsHeldThenDeleted s1
    delete_request-report_request id made fresh n =
        rw (reported_as made) (after_report id made fresh n)
