-- ===== src/Access/Authentication.antt =====
-- internal/authn/api and internal/authn/aggregator/first_match.go. An authenticator is an interface of
-- the source: a function of the request.
use inventory_api.Base.{
  ℕ, suc, Bool, true, false, not, Option, none, some, List, [], ◌∷◌, length, Text, nat_eq, ◌==◌,
  if◌then◌else◌,
}

pub data AuthType : Type 0 where
  oidc x_rh_identity allow_unauthenticated : AuthType
  other_type : Text → AuthType

pub record Claims : Type 0 where
  pub subject_id : Text
  pub organization_id : Text
  pub issuer : Text
  pub client_id : Text
  pub auth_type : AuthType

unfoldable pub unauthenticated_claims : Claims
unauthenticated_claims = record {
  subject_id = [];
  organization_id = [];
  issuer = [];
  client_id = [];
  auth_type = allow_unauthenticated;
}

abbrev pub is_unauthenticated : AuthType → Bool
is_unauthenticated allow_unauthenticated = true
is_unauthenticated _ = false

-- Claims.IsAuthenticated, where nil is not
unfoldable pub is_authenticated : Option Claims → Bool
is_authenticated none = false
is_authenticated (some c) = not (is_unauthenticated c.auth_type)

pub data Decision : Type 0 where
  allow deny ignore : Decision

-- What an authenticator says of a request.
abbrev pub Answer : Type 0
Answer = Option Claims × Decision

-- The end of Authenticate, with the counts of the loop and the length of the chain.
unfoldable pub verdict : ℕ → ℕ → ℕ → Decision
verdict denied ignored total =
    if total == 0
    then deny
    else if denied == total
    then deny
    else if ignored == total
    then ignore
    else deny

abbrev pub Authenticator : Type 0 → Type 0
Authenticator Request = Request → Answer

abbrev pub on_answer : Answer → Answer → Answer → Answer
on_answer (claims, allow) on_deny on_ignore = (claims, allow)
on_answer (claims, deny) on_deny on_ignore = on_deny
on_answer (claims, ignore) on_deny on_ignore = on_ignore

module _ {Request : Type 0} where
  -- The loop of Authenticate.
  unfoldable pub authenticate_from : List (Authenticator Request) → ℕ → ℕ → ℕ → Request → Answer
  unfolding verdict
  authenticate_from [] denied ignored total request = (none, verdict denied ignored total)
  authenticate_from (a ∷ rest) denied ignored total request =
      on_answer (a request) (authenticate_from rest (suc denied) ignored total request)
        (authenticate_from rest denied (suc ignored) total request)

  -- FirstMatchAuthenticator.Authenticate
  unfoldable pub authenticate : List (Authenticator Request) → Request → Answer
  unfolding authenticate_from
  authenticate chain request = authenticate_from chain 0 0 (length chain) request
