-- ===== src/Model/Consistency.antt =====
-- internal/biz/model/consistency.go: a closed set of variants; nil reads as unspecified.
use inventory_api.Base.{Option, none, some, Text}

pub data Consistency : Type 0 where
  unspecified minimize_latency at_least_as_acknowledged : Consistency
  at_least_as_fresh : Text → Consistency

unfoldable pub normalize_consistency : Option Consistency → Consistency
normalize_consistency none = unspecified
normalize_consistency (some c) = c

unfoldable pub consistency_at_least_as_fresh_token : Consistency → Option Text
consistency_at_least_as_fresh_token (at_least_as_fresh token) = some token
consistency_at_least_as_fresh_token _ = none
