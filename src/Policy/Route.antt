-- ===== src/Policy/Route.antt =====
-- Route policies of src/routePolicy.ts: the first policy whose glob matches, and its senders.
pub mod Choice
mod Tests
use h3_protocol.Policy.Glob.{match_glob}
use h3_protocol.Prelude.Texts.{Text, includes}
use h3_protocol.Prelude.{
  ℕ, Bool, true, false, Option, none, some, List, [], ◌∷◌, ◌||◌, if◌then◌else◌,
}
use h3_protocol.RateLimit.{RateLimitPolicy}

pub data PolicyRequirement : Type 0 where
  ed25519 : PolicyRequirement
  hmac : PolicyRequirement
  any : PolicyRequirement
  http_signature : PolicyRequirement
  dpop : PolicyRequirement
  no_authentication : PolicyRequirement

pub data ApprovalRequirement : Type 0 where
  always : ApprovalRequirement
  untrusted : ApprovalRequirement

pub record ApprovalPolicy : Type 0 where
  pub require : ApprovalRequirement
  pub approvers : List Text

pub record RoutePolicy : Type 0 where
  pub path : Text
  pub require : PolicyRequirement
  pub rate_limit : Option RateLimitPolicy
  pub allowed_senders : Option (List Text)
  pub sign_response : Option Bool
  pub approval : Option ApprovalPolicy

unfoldable pub match_policy : List RoutePolicy → Text → Option RoutePolicy
match_policy [] path = none
match_policy (p ∷ policies) path =
    let rest = match_policy policies path in if match_glob p.path path then some p else rest

-- An empty list allows every sender, as no list does.
unfoldable pub allowed_by : Text → Option (List Text) → Bool
allowed_by sender none = true
allowed_by sender (some []) = true
allowed_by sender (some (s ∷ senders)) = includes sender (s ∷ senders)

unfoldable pub is_allowed_sender : RoutePolicy → Text → Bool
is_allowed_sender policy sender = allowed_by sender policy.allowed_senders
