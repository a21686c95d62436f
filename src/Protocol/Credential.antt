-- ===== src/Protocol/Credential.antt =====
-- crates/vasal-protocol/src/credential.rs: references to credentials.
use vasal.Prelude.{String, Option}

pub data ResolveMode : Type 0 where
  eager lazy : ResolveMode

pub data CredentialProvider : Type 0 where
  http : (endpoint : String) → CredentialProvider
  sidecar : (endpoint method : String) → CredentialProvider

pub record CredentialRef (V : Type 0) : Type 0 where
  pub name : String
  pub resolve : ResolveMode
  pub provider : CredentialProvider
  pub params : Option V
