-- ===== src/Mute/Copies.antt =====
-- ext/endpoint_security/mute.c, copy_muted_paths and copy_muted_processes: the Ruby arrays of what
-- the framework lends.
use endpoint_security.Base.{ℕ, List, [], ◌∷◌, ltb, if◌then◌else◌}
use endpoint_security.Base.Lists.{length}
use endpoint_security.Ruby.{Result, raised, returned, range_error}
use endpoint_security.Field.Text.{text}
use endpoint_security.Field.Value.{
  ℤ, pos, FieldValue, number, array, hash, object, Items, no_items, item, no_entries, entry,
  Encoding, Token, Sdk,
}
use endpoint_security.Field.Convert.{items_of, string_token_value, long_max}

-- es_muted_path_t, es_muted_process_t; the token by the eight numbers of audit_token_value
pub record MutedPath : Type 0 where
  pub type : ℕ
  pub path : Token
  pub events : List ℕ

pub record MutedProcess : Type 0 where
  pub audit_token : List ℤ
  pub events : List ℕ

-- The result with its value changed; the exception stays.
unfoldable pub after {ℓ κ} : {A : Type ℓ} {B : Type κ} → Result A → (A → B) → Result B
after (raised e) f = raised e
after (returned x) f = returned (f x)

-- `symbol` is EventType.symbol of the Ruby library, which may raise.
module _ (symbol : ℕ → Result FieldValue) where
  -- event_symbols
  unfoldable pub symbols_of : List ℕ → Result Items
  unfolding after
  symbols_of [] = returned no_items
  symbols_of (e ∷ events) =
      let rest = symbols_of events in
      elim (symbol e) [ raised x ↦ raised x | returned s ↦ after rest (λ items. item s items) ]

  unfoldable pub event_symbols : List ℕ → Result FieldValue
  unfolding symbols_of
  event_symbols events = after (symbols_of events) (λ items. array items)

  module _ (sdk : Sdk) (encoding : Encoding) where
    unfoldable pub path_hash : MutedPath → Result FieldValue
    unfolding event_symbols string_token_value
    path_hash p = after (event_symbols p.events) (λ events. hash (
        entry (text "type") (number (pos p.type)) (
          entry (text "path") (string_token_value sdk encoding p.path)
            (entry (text "events") events no_entries))))

    unfoldable pub path_hashes : List MutedPath → Result Items
    unfolding path_hash
    path_hashes [] = returned no_items
    path_hashes (p ∷ paths) =
        let rest = path_hashes paths in
        elim (path_hash p) [ raised x ↦ raised x | returned h ↦ after rest (λ items. item h items) ]

    unfoldable pub copy_muted_paths : List MutedPath → Result FieldValue
    unfolding path_hashes
    copy_muted_paths paths =
        if ltb long_max (length paths)
        then raised range_error
        else after (path_hashes paths) (λ items. array items)

  unfoldable pub process_hash : MutedProcess → Result FieldValue
  unfolding event_symbols items_of
  process_hash p = after (event_symbols p.events) (λ events. hash (
      entry (text "audit_token") (object (text "AuditToken") (items_of p.audit_token no_items))
        (entry (text "events") events no_entries)))

  unfoldable pub process_hashes : List MutedProcess → Result Items
  unfolding process_hash
  process_hashes [] = returned no_items
  process_hashes (p ∷ processes) =
      let rest = process_hashes processes in
      elim (process_hash p) [
        | raised x ↦ raised x
        | returned h ↦ after rest (λ items. item h items)
      ]

  unfoldable pub copy_muted_processes : List MutedProcess → Result FieldValue
  unfolding process_hashes
  copy_muted_processes processes =
      if ltb long_max (length processes)
      then raised range_error
      else after (process_hashes processes) (λ items. array items)

  unfoldable pub copy_subscriptions : List ℕ → Result FieldValue
  unfolding event_symbols
  copy_subscriptions values = event_symbols values
