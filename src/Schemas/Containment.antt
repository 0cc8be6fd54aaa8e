-- ===== src/Schemas/Containment.antt =====
-- src/schemas/containment.ts: what an action does and how an execution of it ends, with the states
-- that the schema adds for one that has not ended (migrations 0001, 0006 and 0007).
use template_security_incide.Prelude.{◌≡◌, ◌↔◌, true, ℕ, nat_beq, Eq, arith}

pub data ContainmentActionType : Type 0 where
  revoke_session restore_previous_role : ContainmentActionType
  mark_device_for_review require_reauthentication : ContainmentActionType

pub data ContainmentVerification : Type 0 where
  verified not_verified not_run : ContainmentVerification

-- containment_actions_status_guard_update: an action that waits is pending, an attempt never is.
pub data ExecutionStatus : Type 0 where
  pending executing completed blocked failed timed_out : ExecutionStatus

-- The states of an effect in provider_effect_ledger.
pub data EffectStatus : Type 0 where
  claimed succeeded uncertain failed : EffectStatus

abbrev action_type_code : ContainmentActionType → ℕ
action_type_code revoke_session = 0
action_type_code restore_previous_role = 1
action_type_code mark_device_for_review = 2
action_type_code require_reauthentication = 3

abbrev verification_code : ContainmentVerification → ℕ
verification_code verified = 0
verification_code not_verified = 1
verification_code not_run = 2

abbrev execution_code : ExecutionStatus → ℕ
execution_code pending = 0
execution_code executing = 1
execution_code completed = 2
execution_code blocked = 3
execution_code ExecutionStatus.failed = 4
execution_code timed_out = 5

abbrev effect_code : EffectStatus → ℕ
effect_code claimed = 0
effect_code succeeded = 1
effect_code uncertain = 2
effect_code EffectStatus.failed = 3

pub action_type_eq_iff :
    (a b : ContainmentActionType)
    → (nat_beq (action_type_code a) (action_type_code b) ≡ true) ↔ (a ≡ b)
action_type_eq_iff a b = ground arith

pub verification_eq_iff :
    (a b : ContainmentVerification)
    → (nat_beq (verification_code a) (verification_code b) ≡ true) ↔ (a ≡ b)
verification_eq_iff a b = ground arith

pub execution_eq_iff :
    (a b : ExecutionStatus) → (nat_beq (execution_code a) (execution_code b) ≡ true) ↔ (a ≡ b)
execution_eq_iff a b = ground arith

pub effect_eq_iff :
    (a b : EffectStatus) → (nat_beq (effect_code a) (effect_code b) ≡ true) ↔ (a ≡ b)
effect_eq_iff a b = ground arith

instance abbrev pub action_type_eq : Eq ContainmentActionType
action_type_eq = record {
  equals = λ a b. nat_beq (action_type_code a) (action_type_code b);
  decides = action_type_eq_iff;
}

instance abbrev pub verification_eq : Eq ContainmentVerification
verification_eq = record {
  equals = λ a b. nat_beq (verification_code a) (verification_code b);
  decides = verification_eq_iff;
}

instance abbrev pub execution_eq : Eq ExecutionStatus
execution_eq = record {
  equals = λ a b. nat_beq (execution_code a) (execution_code b);
  decides = execution_eq_iff;
}

instance abbrev pub effect_eq : Eq EffectStatus
effect_eq = record {
  equals = λ a b. nat_beq (effect_code a) (effect_code b);
  decides = effect_eq_iff;
}
