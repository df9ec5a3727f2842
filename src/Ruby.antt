-- ===== src/Ruby.antt =====
-- What the extension gives back to Ruby: a value, or the exception that it raises. Ruby itself is
-- not part of the repository.
use endpoint_security.Base.{ℕ, Bool, Option}

-- The exceptions that the C sources raise, by their class; a MessageError may carry the framework's
-- code.
pub data Error : Type 0 where
  forked_client_error client_error message_invalidated_error field_unavailable_error
        non_cacheable_event_error :
      Error
  subscription_error mute_error argument_error range_error type_error no_memory_error
        system_call_error runtime_error :
      Error
  invalid_argument_error not_entitled_error not_permitted_error not_privileged_error
        too_many_clients_error internal_error :
      Error
  message_error : Option ℕ → Error

pub data Result {ℓ} (A : Type ℓ) : Type ℓ where
  raised : Error → Result A
  returned : A → Result A

-- The Ruby values that the modelled methods return
pub data Value : Type 0 where
  nil : Value
  boolean : Bool → Value
  number : ℕ → Value
  symbol_auth symbol_notify symbol_allow symbol_deny : Value
