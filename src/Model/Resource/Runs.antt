-- ===== src/Model/Resource/Runs.antt =====
-- A resource through a sequence of reports and deletes, as the use cases of
-- internal/biz/usecase/resources/resource_service.go apply them: a method that returns an error
-- leaves nothing behind, for the transaction is rolled back.
use inventory_api.Base.{
  ℕ, suc, ◌+◌, ◌<◌, ◌≡◌, refl, sym, ap, ◌∙◌, inl, inr, Bool, true, false, Option, none, some, List,
  [], ◌∷◌, ◌++◌, arith, CaseTables, length, contains, nat_eq, IsDistinct, Bool-cases,
}
use inventory_api.Model.Values.{Error, Time, uint_mod}
use inventory_api.Model.ReporterResource.{ReporterResourceKey}
use inventory_api.Model.Events.{ResourceReportEvent, current_common_version, set_timestamps}
use inventory_api.Model.Resource.Lifecycle.{update_resource-IsUpdated}
use inventory_api.Model.Resource.Versions.{
  current_common_version-update_resource, IsVersioned, IsNext, HasVersionRoom, Advances,
  update_resource-Advances,
}
use inventory_api.Model.Resource.{
  Resource, Report, is_given, update_resource, delete_resource, delete_on, write_through,
  created_at,
}

pub data Operation : Type 0 where
  report : ReporterResourceKey → Report → Time → Time → Operation
  delete : ReporterResourceKey → Time → Operation

abbrev kept : Resource → Resource × Option Error → Resource
kept r (r', none) = r'
kept r (r', some e) = r

abbrev pub versions_of : Option ℕ → List ℕ
versions_of none = []
versions_of (some v) = v ∷ []

-- The versions of the common representations in the events, which are what Save stores.
abbrev pub versions_in : List ResourceReportEvent → List ℕ
versions_in [] = []
versions_in (e ∷ es) = elim e.common_representation [
  | none ↦ versions_in es
  | some c ↦ c.version ∷ versions_in es
]

-- The versions under which a report stored common data: none, if it failed.
abbrev pub stored_in : Resource × Option Error → List ℕ
stored_in (r', none) = versions_in r'.resource_report_events
stored_in (r', some e) = []

module _ ⦃t : CaseTables⦄ where
  unfoldable pub apply : Operation → Resource → Resource
  apply (report key p now later) r = kept r (update_resource key p now later r)
  apply (delete key now) r = kept r (delete_resource key now r)

  unfoldable pub stored : Operation → Resource → List ℕ
  stored (report key p now later) r = stored_in (update_resource key p now later r)
  stored (delete key now) r = []

  -- The versions under which a sequence of operations stores common data.
  unfoldable pub stored_versions : List Operation → Resource → List ℕ
  unfolding apply stored
  stored_versions [] r = []
  stored_versions (o ∷ os) r = stored o r ++ stored_versions os (apply o r)

-- Versions that follow one after the other.
abbrev pub Ascends : Option ℕ → List ℕ → Type 0
Ascends last [] = Unit {0}
Ascends last (v ∷ vs) = IsNext (some v) last × Ascends (some v) vs

-- There is room for a number of further versions.
abbrev pub HasRoomFor : ℕ → Option ℕ → Type 0
HasRoomFor n none = n < uint_mod
HasRoomFor n (some v) = v + n < uint_mod

pub HasRoomFor-HasVersionRoom :
    (n : ℕ) (last : Option ℕ) → HasRoomFor (suc n) last → HasVersionRoom last
HasRoomFor-HasVersionRoom n none h = tt
HasRoomFor-HasVersionRoom n (some v) h = omega (arith, h)

HasRoomFor-pred : (n : ℕ) (last : Option ℕ) → HasRoomFor (suc n) last → HasRoomFor n last
HasRoomFor-pred n none h = omega (arith, h)
HasRoomFor-pred n (some v) h = omega (arith, h)

HasRoomFor-next :
    (n : ℕ) (next last : Option ℕ) → IsNext next last → HasRoomFor (suc n) last → HasRoomFor n next
HasRoomFor-next n none last e h = absurd e
HasRoomFor-next n (some v) none e h = omega (arith, e, h)
HasRoomFor-next n (some v) (some w) e h = omega (arith, e, h)

Ascends-next :
    (next last : Option ℕ) (rest : List ℕ)
    → IsNext next last
    → Ascends next rest
    → Ascends last (versions_of next ++ rest)
Ascends-next none last rest e h = absurd e
Ascends-next (some v) last rest e h = (e, h)

-- What one operation does, as far as versions go: the counters stay in step and there is one version
-- less of room, and what it stores leads from the last version before to the last version after.
record Continues (n : ℕ) (r r' : Resource) (vs : List ℕ) : Type 0 where
  versioned : IsVersioned r'
  room : HasRoomFor n r'.last_common_version
  leads :
      (rest : List ℕ)
      → Ascends r'.last_common_version rest
      → Ascends r.last_common_version (vs ++ rest)

stays :
    (n : ℕ) (r r' : Resource)
    → IsVersioned r
    → HasRoomFor (suc n) r.last_common_version
    → r'.common_version ≡ r.common_version
    → r'.last_common_version ≡ r.last_common_version
    → Continues n r r' []
stays n r r' h k e f = record {
  versioned = rw (e, f) h;
  room = rw f (HasRoomFor-pred n r.last_common_version k);
  leads = λ rest a. rw f at a;
}

advances :
    (n : ℕ) (given : Bool) (r r' : Resource)
    → IsVersioned r
    → HasRoomFor (suc n) r.last_common_version
    → Advances given r.last_common_version r'.common_version r'.last_common_version
    → Continues n r r' (versions_of r'.common_version)
advances n true r r' h k a = record {
  versioned = inr (sym a.1);
  room = rw a.1 (HasRoomFor-next n r'.common_version r.last_common_version a.0 k);
  leads = λ rest b. Ascends-next r'.common_version r.last_common_version rest a.0 (rw a.1 at b);
}
advances n false r r' h k a = rw a.0 record {
  versioned = inl refl;
  room = rw a.1 (HasRoomFor-pred n r.last_common_version k);
  leads = λ rest b. rw a.1 at b;
}

report_kept :
    (n : ℕ) (given : Bool) (r : Resource) (x : Resource × Option Error)
    → IsVersioned r
    → HasRoomFor (suc n) r.last_common_version
    → Advances given r.last_common_version x.0.common_version x.0.last_common_version
    → (x.1 ≡ none → versions_in x.0.resource_report_events ≡ versions_of x.0.common_version)
    → Continues n r (kept r x) (stored_in x)
report_kept n given r (r', some e) h k a same = stays n r r h k refl refl
report_kept n given r (r', none) h k a same = rw (same refl) (advances n given r r' h k a)

delete_kept :
    (n : ℕ) (r : Resource) (x : Resource × Option Error)
    → IsVersioned r
    → HasRoomFor (suc n) r.last_common_version
    → x.0.common_version ≡ r.common_version
    → x.0.last_common_version ≡ r.last_common_version
    → Continues n r (kept r x) []
delete_kept n r (r', some x) h k e f = stays n r r h k refl refl
delete_kept n r (r', none) h k e f = stays n r r' h k e f

module _ ⦃t : CaseTables⦄ where
  delete_on_versions :
      (key : ReporterResourceKey) (now : Time) (r : Resource)
      → ((delete_resource key now r).0.common_version ≡ r.common_version)
        × ((delete_resource key now r).0.last_common_version ≡ r.last_common_version)
  unfolding delete_resource delete_on write_through
  delete_on_versions key now r = ground arith

  versions_in_single :
      (e : ResourceReportEvent) → versions_in (e ∷ []) ≡ versions_of (current_common_version e)
  unfolding current_common_version
  versions_in_single e = ground arith

  -- The common representation that a successful Update stores has the version of the aggregate.
  versions_in-update_resource :
      (key : ReporterResourceKey) (p : Report) (now later : Time) (r : Resource)
      → (update_resource key p now later r).1 ≡ none
      → versions_in (update_resource key p now later r).0.resource_report_events
        ≡ versions_of (update_resource key p now later r).0.common_version
  versions_in-update_resource key p now later r h =
      let u = update_resource-IsUpdated key r p now later h in
      let e = set_timestamps (created_at r) later u.event in
      let events : (update_resource key p now later r).0.resource_report_events ≡ e ∷ [] =
        ap (λ (q : Resource). q.resource_report_events) u.result in
      ap versions_in events
      ∙ versions_in_single e
      ∙ ap versions_of (current_common_version-update_resource key p now later r e h events)

  apply-Continues :
      (n : ℕ) (o : Operation) (r : Resource)
      → IsVersioned r
      → HasRoomFor (suc n) r.last_common_version
      → Continues n r (apply o r) (stored o r)
  unfolding apply stored
  apply-Continues n (report key p now later) r h k =
      report_kept n (is_given p.common_data) r (update_resource key p now later r) h k
        (update_resource-Advances key p now later r h
          (HasRoomFor-HasVersionRoom n r.last_common_version k))
        (versions_in-update_resource key p now later r)
  apply-Continues n (delete key now) r h k =
      let (e, f) = delete_on_versions key now r in
      delete_kept n r (delete_resource key now r) h k e f

  -- From a resource whose counters are in step, with room for as many versions as there are
  -- operations, the common representations in the events of the reports that succeed have versions
  -- that follow one after the other, whatever deletes, reports without common data and failed
  -- operations stand in between.
  pub stored_versions-Ascends :
      (os : List Operation) (r : Resource)
      → IsVersioned r
      → HasRoomFor (length os) r.last_common_version
      → Ascends r.last_common_version (stored_versions os r)
  unfolding stored_versions
  stored_versions-Ascends [] r h k = tt
  stored_versions-Ascends (o ∷ os) r h k =
      let c = apply-Continues (length os) o r h k in
      c.leads (stored_versions os (apply o r))
        (stored_versions-Ascends os (apply o r) c.versioned c.room)

Ascends-contains : (v w : ℕ) (vs : List ℕ) → Ascends (some v) vs → contains w vs ≡ true → v < w
unfolding contains
Ascends-contains v w [] h c = cc
Ascends-contains v w (x ∷ xs) h c = ground (arith, Ascends-contains x w xs)

Ascends-IsDistinct : (last : Option ℕ) (vs : List ℕ) → Ascends last vs → IsDistinct vs
Ascends-IsDistinct last [] h = tt
Ascends-IsDistinct last (v ∷ vs) h = (
  elim (Bool-cases (contains v vs)) [
    | inl c ↦ absurd (omega (arith, Ascends-contains v v vs h.1 c))
    | inr c ↦ c
  ],
  Ascends-IsDistinct (some v) vs h.1,
)

-- From a resource whose counters are in step, with room for as many versions as there are operations,
-- no two of the common representations in the events of a sequence of operations have one version.
pub stored_versions-IsDistinct :
    ⦃t : CaseTables⦄ (os : List Operation) (r : Resource)
    → IsVersioned r
    → HasRoomFor (length os) r.last_common_version
    → IsDistinct (stored_versions os r)
stored_versions-IsDistinct os r h k =
    Ascends-IsDistinct r.last_common_version (stored_versions os r)
      (stored_versions-Ascends os r h k)
