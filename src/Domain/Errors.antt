-- ===== src/Domain/Errors.antt =====
-- src/domain/errors.ts: `DomainError` and its codes.
use template_security_incide.Prelude.{Bool, false}

pub data DomainErrorCode : Type 0 where
  conflict event_out_of_order invalid_transition not_found : DomainErrorCode
  storage_unavailable validation_failed : DomainErrorCode

pub record DomainError : Type 0 where
  pub code : DomainErrorCode
  pub retryable : Bool

-- `new DomainError(code)`
abbrev pub domain_error : DomainErrorCode → DomainError
domain_error c = record { code = c; retryable = false }
