-- ===== src/Message/Readers.antt =====
-- ext/endpoint_security/message.c: the readers of a message's header and of its views, and allow!
-- and deny!.
use endpoint_security.Base.{ℕ, Bool, Option, List, leb, if◌then◌else◌}
use endpoint_security.Esapi.{allow, deny, Framework}
use endpoint_security.Client.{Client, is_auth}
use endpoint_security.Ruby.{Result, raised, returned, Value, boolean, number}
use endpoint_security.Message.{Wrapper, with_message, message_of, respond_auth}
use endpoint_security.Field.{Schema, EventSchema, View, view_wrap, event_wrap}
use endpoint_security.Field.Text.{text}
use endpoint_security.Field.Value.{FieldValue, nil}
use endpoint_security.Field.Convert.{wrapped}

module _ (es : Framework) where
  unfoldable pub message_version : Client → ℕ → Wrapper → Result Value
  message_version c pid m =
      with_message c pid m (returned (number (message_of es c m).version)) raised

  unfoldable pub message_auth_p : Client → ℕ → Wrapper → Result Value
  message_auth_p c pid m =
      with_message c pid m (returned (boolean (is_auth (message_of es c m).action_type))) raised

  unfoldable pub message_deadline : Client → ℕ → Wrapper → Result Value
  message_deadline c pid m =
      with_message c pid m (returned (number (message_of es c m).deadline)) raised

  unfoldable pub message_mach_time : Client → ℕ → Wrapper → Result Value
  message_mach_time c pid m =
      with_message c pid m (returned (number (message_of es c m).mach_time)) raised

  unfoldable pub message_raw_pointer : Client → ℕ → Wrapper → Result Value
  message_raw_pointer c pid m =
      with_message c pid m (returned (number (c.queue.slots m.slot).message)) raised

  unfoldable pub message_warn_on_truncated_path : Client → ℕ → Wrapper → Result Value
  message_warn_on_truncated_path c pid m =
      with_message c pid m (returned (boolean c.warn_on_truncated_path)) raised

  -- allow! and deny!
  unfoldable pub message_allow : (ℕ → Bool) → Client → ℕ → Wrapper → Bool → Client × Result Value
  unfolding respond_auth
  message_allow cacheable c pid m cache = respond_auth es cacheable c pid m allow cache

  unfoldable pub message_deny : (ℕ → Bool) → Client → ℕ → Wrapper → Bool → Client × Result Value
  unfolding respond_auth
  message_deny cacheable c pid m cache = respond_auth es cacheable c pid m deny cache

-- The views; `process`, `thread` and `event` are the addresses in the message, and `load` reads a
-- pointer from memory. `self` is the VALUE of the message, which owns the view.
module _ (es : Framework) (schemas : List Schema) (events : List EventSchema)
    (process thread event load : ℕ → ℕ) where
  unfoldable pub message_process : Client → ℕ → Wrapper → ℕ → Result FieldValue
  unfolding wrapped view_wrap
  message_process c pid m self =
      let message = message_of es c m in
      let schema = text "es_process_t" in
      with_message c pid m
        (returned (
          wrapped schema (
            view_wrap schemas self (process (c.queue.slots m.slot).message) schema message.version
              c.strict_version)))
        raised

  unfoldable pub message_thread : Client → ℕ → Wrapper → ℕ → Result FieldValue
  unfolding wrapped view_wrap
  message_thread c pid m self =
      let message = message_of es c m in
      let schema = text "es_thread_t" in
      let made = wrapped schema (
        view_wrap schemas self (thread (c.queue.slots m.slot).message) schema message.version
          c.strict_version) in
      with_message c pid m (returned (if leb 4 message.version then made else nil)) raised

  unfoldable pub message_event : Client → ℕ → Wrapper → ℕ → Result (Option View)
  unfolding event_wrap
  message_event c pid m self =
      let message = message_of es c m in
      with_message c pid m
        (returned (
          event_wrap schemas events load self (event (c.queue.slots m.slot).message)
            message.event_type message.version c.strict_version))
        raised
