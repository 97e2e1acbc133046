-- ===== src/Sandbox/Errors.antt =====
-- crates/bastion-domain/src/shared/error.rs. A variant keeps the value that its text is about.
use Prim.Native.String.{String}

pub data DomainError : Type 0 where
  not_found already_exists timeout unsupported_operation : String → DomainError
  provider_unavailable resource_exhausted permission_denied config : String → DomainError
  validation internal poisoned_lock worker_not_connected : String → DomainError

-- `Result<T, DomainError>`.
pub data Result {ℓ} (A : Type ℓ) : Type ℓ where
  ok : A → Result A
  err : DomainError → Result A
