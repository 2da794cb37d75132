-- ===== src/Access/FirstMatch.antt =====
-- What the chain of internal/authn/aggregator/first_match.go decides.
use inventory_api.Base.{
  ℕ, suc, ◌+◌, ◌<◌, ◌≡◌, ◌≢◌, refl, ◌∙◌, Bool, true, false, ◌&&◌, none, List, [], ◌∷◌, ◌++◌, length,
  arith, nat_eq, ◌==◌, if◌then◌else◌, nonempty, All,
}
use inventory_api.Access.Authentication.{
  Answer, allow, deny, ignore, verdict, Authenticator, authenticate_from, authenticate, on_answer,
}

abbrev pub says_ignore : Answer → Bool
says_ignore (claims, ignore) = true
says_ignore _ = false

on_answer-declined :
    (x f g : Answer) → x.1 ≢ allow → on_answer x f g ≡ (if says_ignore x then g else f)
on_answer-declined (claims, allow) f g h = absurd (h refl)
on_answer-declined (claims, deny) f g h = refl
on_answer-declined (claims, ignore) f g h = refl

on_answer-allowed : (x f g : Answer) → x.1 ≡ allow → on_answer x f g ≡ x
on_answer-allowed (claims, allow) f g h = refl
on_answer-allowed (claims, deny) f g h = cc
on_answer-allowed (claims, ignore) f g h = cc

module _ {Request : Type 0} (request : Request) where
  abbrev pub Declines : Authenticator Request → Type 0
  Declines a = (a request).1 ≢ allow

  unfoldable pub all_ignore : List (Authenticator Request) → Bool
  all_ignore [] = true
  all_ignore (a ∷ rest) = says_ignore (a request) && all_ignore rest

  authenticate_from-declined :
      (chain : List (Authenticator Request)) (denied ignored total : ℕ)
      → All Declines chain
      → total ≡ denied + ignored + length chain
      → 0 < total
      → authenticate_from chain denied ignored total request
        ≡ (none, (if denied == 0 && all_ignore chain then ignore else deny))
  unfolding authenticate_from verdict all_ignore
  authenticate_from-declined [] denied ignored total h e k = ground arith
  authenticate_from-declined (a ∷ rest) denied ignored total h e k =
      on_answer-declined (a request) (authenticate_from rest (suc denied) ignored total request)
        (authenticate_from rest denied (suc ignored) total request) h.0
      ∙ ground (
        arith,
        authenticate_from-declined rest (suc denied) ignored total h.1,
        authenticate_from-declined rest denied (suc ignored) total h.1,
      )

  -- A chain in which no authenticator allows the request ignores it if it has authenticators and all of
  -- them ignore the request, and denies it otherwise.
  pub authenticate-declined :
      (chain : List (Authenticator Request))
      → All Declines chain
      → authenticate chain request
        ≡ (none, (if nonempty chain && all_ignore chain then ignore else deny))
  unfolding authenticate
  authenticate-declined [] h = unfold authenticate_from verdict in refl
  authenticate-declined (a ∷ rest) h =
      authenticate_from-declined (a ∷ rest) 0 0 (length (a ∷ rest)) h (omega arith) (omega arith)

  authenticate_from-allowed :
      (before after : List (Authenticator Request)) (a : Authenticator Request)
      (denied ignored total : ℕ)
      → All Declines before
      → (a request).1 ≡ allow
      → authenticate_from (before ++ a ∷ after) denied ignored total request ≡ a request
  unfolding authenticate_from
  authenticate_from-allowed [] after a denied ignored total h k =
      on_answer-allowed (a request) _ _ k
  authenticate_from-allowed (b ∷ before) after a denied ignored total h k =
      on_answer-declined (b request) _ _ h.0
      ∙ ground (
        arith,
        authenticate_from-allowed before after a (suc denied) ignored total h.1 k,
        authenticate_from-allowed before after a denied (suc ignored) total h.1 k,
      )

  -- The first authenticator that allows the request decides, with its claims.
  pub authenticate-allowed :
      (before after : List (Authenticator Request)) (a : Authenticator Request)
      → All Declines before
      → (a request).1 ≡ allow
      → authenticate (before ++ a ∷ after) request ≡ a request
  unfolding authenticate
  authenticate-allowed before after a h k =
      authenticate_from-allowed before after a 0 0 (length (before ++ a ∷ after)) h k
