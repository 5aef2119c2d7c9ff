-- ===== src/Application/DisplayTokens/Requests.antt =====
-- The inputs and results of the commands of packages/application/src/display-tokens.ts, and what they
-- take from the ports.
use counterpoint_living_deci.Application.Authorization.{DisplayAuthorizationContext}
use counterpoint_living_deci.Application.DisplayTokens.State.{ActiveDisplayToken}
use counterpoint_living_deci.Base.{List, Option, String, ℕ}
use counterpoint_living_deci.Values.{Number}
use counterpoint_living_deci.Values.Ids.{Timestamp}

abbrev pub display_token_ttl_ms : ℕ
display_token_ttl_ms = 28800000

pub record IssueDisplayTokenInput : Type 0 where
  pub correlation_id : Option String
  pub expected_position : Number
  pub meeting_id : String

pub record RevokeDisplayTokenInput : Type 0 where
  pub correlation_id : Option String
  pub display_token_id : String
  pub expected_position : Number
  pub meeting_id : String

pub data DisplayTokenFailure : Type 0 where
  token_expired token_forbidden token_invalid : DisplayTokenFailure
  token_conflict : (actual : ℕ) (expected : Number) → DisplayTokenFailure

pub data IssueDisplayTokenResult : Type 0 where
  token_issued :
      (correlation_id display_token display_token_id : String) (expires_at : Timestamp)
      (position : ℕ)
      → IssueDisplayTokenResult
  issue_failed : DisplayTokenFailure → IssueDisplayTokenResult

pub data RevokeDisplayTokenResult : Type 0 where
  token_revoked :
      (correlation_id display_token_id : String) (position : ℕ) (revoked_at : Timestamp)
      → RevokeDisplayTokenResult
  revoke_failed : DisplayTokenFailure → RevokeDisplayTokenResult

pub data DisplayTokenAuthorizationResult : Type 0 where
  display_authorized :
      (authorization : DisplayAuthorizationContext) (expires_at : Timestamp)
      → DisplayTokenAuthorizationResult
  display_refused : DisplayTokenAuthorizationResult

-- What a call takes from the clock, which shows one time during the call, from the generator of ids,
-- whose event ids are numbered, and from the issuer of tokens.
pub record DisplayTokenPorts : Type 0 where
  pub now : Timestamp
  pub next_correlation : String
  pub next_event : ℕ → String
  pub next_operation : String
  pub token_hash : String
  pub token_value : String

-- What an issue computes before it makes its events.
pub record IssueParts : Type 0 where
  pub now_ms : ℕ
  pub token_id : String
  pub expires_at : Timestamp
  pub correlation : String
  pub tokens : List ActiveDisplayToken
