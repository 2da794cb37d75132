-- ===== src/Model/Values.antt =====
-- internal/biz/model/common.go and errors.go: the tiny types, their constructors and the sentinel
-- errors. A tiny type over a string is the string; an error is its sentinel, without its message,
-- which `%w` keeps.
use inventory_api.Base.{
  ℕ, Bool, false, ◌||◌, contains, [], ◌∷◌, ◌+◌, ◌-◌, ◌%◌, ◌^◌, not, nonempty, Text, trim_space,
  to_lower, replace_all, CaseTables, ◌==◌, nat_eq, if◌then◌else◌, Result, ok, ◌>>=◌, ◌>>◌, guard,
}

pub data Error : Type 0 where
  empty invalid_uuid invalid_data : Error
  resource_schema_not_found reporter_schema_not_found : Error
  resource_exists reporter_exists reporter_not_allowed no_schema : Error
  schema_mismatch missing_common missing_reporter : Error
  no_representation_provided reporter_resource_not_found : Error
  representations_missing common_unpaired reporter_unpaired : Error
  field_name_required relation_name_required unexpected_event : Error
  subject_namespace_required subject_resource_type_required : Error

abbrev pub Fallible {ℓ} : Type ℓ → Type ℓ
Fallible = Result Error

-- Points in time, with 0 for the zero time.
abbrev pub Time : Type 0
Time = ℕ

-- A UUID as a number; `uuid.Nil` is 0.
abbrev pub Uuid : Type 0
Uuid = ℕ

abbrev pub nil_uuid : Uuid
nil_uuid = 0

-- A Go `uint` on a 64-bit system.
abbrev pub uint_mod : ℕ
uint_mod = 2 ^ 64

-- Version.Increment and Generation.Increment, which roll over.
unfoldable pub increment : ℕ → ℕ
increment v = (v + 1) % uint_mod

-- Version.Decrement, which stops at 0.
unfoldable pub decrement : ℕ → ℕ
decrement v = if v == 0 then 0 else v - 1

unfoldable pub new_uuid : Uuid → Fallible Uuid
new_uuid id = do guard (not (id == nil_uuid)) invalid_uuid; ok id

-- The shared shape of the constructors: trim, then refuse the empty string.
unfoldable pub new_trimmed : Text → Fallible Text
unfolding trim_space
new_trimmed s = do let s' = trim_space s; guard (nonempty s') empty; ok s'

-- strings.ContainsAny
unfoldable pub contains_any : Text → Text → Bool
unfolding contains
contains_any [] chars = false
contains_any (c ∷ cs) chars = contains c chars || contains_any cs chars

-- NewRelation of internal/biz/model/relation.go
unfoldable pub new_relation : Text → Fallible Text
unfolding new_trimmed contains_any
new_relation s = do
  s' ← new_trimmed s
  guard (not (contains_any s' (32 ∷ 9 ∷ 10 ∷ 13 ∷ []))) invalid_data
  ok s'

module _ ⦃t : CaseTables⦄ where
  unfoldable pub new_resource_type : Text → Fallible Text
  unfolding new_trimmed to_lower replace_all
  new_resource_type s = do s' ← new_trimmed s; ok (to_lower (replace_all b'/' b'_' s'))

  -- NewReporterType and NewReporterInstanceId
  unfoldable pub new_reporter_type : Text → Fallible Text
  unfolding new_trimmed to_lower
  new_reporter_type s = do s' ← new_trimmed s; ok (to_lower s')
