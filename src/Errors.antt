-- ===== src/Errors.antt =====
-- The exceptions of the program, and a call that may raise one. `cancelled_error` is asyncio's, which
-- is no `Exception` and so passes through every `except` clause of the program.
use hass_melitta_barista_ts.Prelude.{◌≡◌, refl, Bool, true, false}

pub data Exception : Type 0 where
  protocol_error machine_error handshake_error not_acknowledged command_timeout : Exception
  connection_error overflow_error value_error zero_division_error key_error : Exception
  bleak_error timeout_error os_error cancelled_error update_failed : Exception
  home_assistant_error service_validation_error config_entry_not_ready : Exception

-- What a call returns, or the exception that it raises.
pub data Result {ℓ} (A : Type ℓ) : Type ℓ where
  err : Exception → Result A
  ok : (returned : A) → Result A

infixl 5 ◌>>=◌ ◌>>◌
abbrev pub ◌>>=◌ {ℓ m} : {A : Type ℓ} {B : Type m} → Result A → (A → Result B) → Result B
err raised >>= next = err raised
ok returned >>= next = next returned

abbrev pub ◌>>◌ {ℓ} : {B : Type ℓ} → Result (Unit {0}) → Result B → Result B
first >> second = first >>= λ _. second

-- `raise e` where the test fails.
abbrev pub guard : (holds : Bool) → Exception → Result (Unit {0})
guard false raised = err raised
guard true raised = ok tt

-- `except MachineError`: the class and its subclasses. ProtocolError is no MachineError.
abbrev pub is_machine_error : Exception → Bool
is_machine_error Exception.machine_error = true
is_machine_error Exception.handshake_error = true
is_machine_error Exception.not_acknowledged = true
is_machine_error Exception.command_timeout = true
is_machine_error Exception.connection_error = true
is_machine_error _ = false

pub >>=-eq-ok {ℓ m} :
    {A : Type ℓ} {B : Type m} (call : Result A) (next : A → Result B) {b : B}
    → (call >>= next) ≡ ok b
    → (a : A) × (call ≡ ok a) × (next a ≡ ok b)
>>=-eq-ok (err raised) next h = cc
>>=-eq-ok (ok returned) next h = (returned, refl, h)
