-- ===== src/Mute.antt =====
-- ext/endpoint_security/mute.c, and the subscriptions of ext/endpoint_security/client.c: what Ruby asks
-- the framework to do with an open client. `pid` is what getpid() says. A path is a number,
-- a list of events a list of numbers.
pub mod Tokens
pub mod Copies
pub mod Control
mod Tests
use endpoint_security.Base.{
  ℕ, ◌-◌, ◌*◌, ◌/◌, ◌^◌, Bool, true, false, Option, none, some, List, [], ◌∷◌, ltb, ◌==◌, not,
  if◌then◌else◌, u32_max,
}
use endpoint_security.Base.Lists.{length}
use endpoint_security.Esapi.{
  success, Call, unsubscribe_all, mute_path_call, unmute_path_call, mute_path_events_call,
  unmute_path_events_call, mute_process_call, unmute_process_call, mute_process_events_call,
  unmute_process_events_call, unmute_all_target_paths, unmute_all_paths, invert_muting_call,
  muting_inverted_call, clear_cache_call, subscribe_call, unsubscribe_call, muted_paths_call,
  release_muted_paths_call, muted_processes_call, release_muted_processes_call, subscriptions_call,
  free_subscriptions, Framework,
}
use endpoint_security.Client.{Client, called}
use endpoint_security.Field.Value.{FieldValue, array, no_items, Encoding, Sdk}
use endpoint_security.Mute.Copies.{
  MutedPath, MutedProcess, copy_muted_paths, copy_muted_processes, copy_subscriptions,
}
use endpoint_security.Ruby.{
  Error, forked_client_error, client_error, mute_error, argument_error, range_error,
  subscription_error, Result, raised, returned, Value, boolean,
}

-- LONG_MAX, and the size of es_event_type_t
abbrev pub long_max : ℕ
long_max = 2 ^ 63 - 1

abbrev pub event_size : ℕ
event_size = 4

-- mute_client: the exception, if the client may not be used.
unfoldable pub mute_client : Client → ℕ → Option Error
mute_client c pid =
    if not (c.owner_pid == pid)
    then some forked_client_error
    else if c.closed
    then some client_error
    else none

-- Raise, or go on.
abbrev pub unless {ℓ} : {A : Type ℓ} → Option Error → Client → Client × Result A → Client × Result A
unless none c go = go
unless (some e) c go = (c, raised e)

-- event_values: too many events raise.
unfoldable pub event_values : List ℕ → Option Error
event_values events =
    if ltb (long_max / event_size) (length events) then some argument_error else none

module _ (es : Framework) where
  -- A call of the framework, with the exception for any result but success
  unfoldable pub ask : Client → Call → Error → Client × Result Value
  ask c call error = (
    called c call,
    if es.returns c.calls call == success then returned (boolean true) else raised error,
  )

  -- The calls with an empty list of events are others than those with events.
  abbrev pub path_call : Bool → ℕ → ℕ → ℕ → List ℕ → Call
  path_call true native path type [] = mute_path_call native path type
  path_call true native path type events = mute_path_events_call native path type events
  path_call false native path type [] = unmute_path_call native path type
  path_call false native path type events = unmute_path_events_call native path type events

  abbrev pub process_call : Bool → ℕ → List ℕ → List ℕ → Call
  process_call true native token [] = mute_process_call native token
  process_call true native token events = mute_process_events_call native token events
  process_call false native token [] = unmute_process_call native token
  process_call false native token events = unmute_process_events_call native token events

  -- `mute` says whether the action is :mute.
  unfoldable pub mute_path : Client → ℕ → Bool → ℕ → ℕ → List ℕ → Client × Result Value
  unfolding ask mute_client event_values
  mute_path c pid mute path type events =
      unless (mute_client c pid) c (
        unless (event_values events) c
          (ask c (path_call mute c.client path type events) mute_error))

  unfoldable pub mute_process : Client → ℕ → Bool → List ℕ → List ℕ → Client × Result Value
  unfolding ask mute_client event_values
  mute_process c pid mute token events =
      unless (mute_client c pid) c (
        unless (event_values events) c (ask c (process_call mute c.client token events) mute_error))

  unfoldable pub unmute_all : Client → ℕ → Bool → Client × Result Value
  unfolding ask mute_client
  unmute_all c pid target =
      let call = if target then unmute_all_target_paths c.client else unmute_all_paths c.client in
      unless (mute_client c pid) c (ask c call mute_error)

  unfoldable pub invert_muting : Client → ℕ → ℕ → Client × Result Value
  unfolding ask mute_client
  invert_muting c pid type =
      unless (mute_client c pid) c (ask c (invert_muting_call c.client type) mute_error)

  -- ES_MUTE_INVERTED is 0, ES_MUTE_INVERTED_ERROR 2.
  unfoldable pub muting_inverted : Client → ℕ → ℕ → Client × Result Value
  unfolding mute_client
  muting_inverted c pid type =
      let call = muting_inverted_call c.client type in
      let result = es.returns c.calls call in
      unless (mute_client c pid) c
        (called c call, if result == 2 then raised mute_error else returned (boolean (result == 0)))

  unfoldable pub clear_cache : Client → ℕ → Client × Result Value
  unfolding ask mute_client
  clear_cache c pid = unless (mute_client c pid) c (ask c (clear_cache_call c.client) client_error)

  -- rb_ensure: the release runs whether the body returned or raised.
  unfoldable pub rb_ensure :
      (Client → Client × Result FieldValue)
      → (Client → Client)
      → Client
      → Client × Result FieldValue
  rb_ensure body release c = let (d, r) = body c in (release d, r)

  -- The Ruby array of what the framework lent, nothing for NULL, and the release of what it lent
  unfoldable pub copy_lent :
      {A : Type 0}
      → Call
      → (List A → Result FieldValue)
      → Option (List A)
      → Client
      → Client × Result FieldValue
  unfolding rb_ensure
  copy_lent release copy none c = (c, returned (array no_items))
  copy_lent release copy (some entries) c =
      rb_ensure (λ d. (d, copy entries)) (λ d. called d release) c

  -- A query, then what it lent
  unfoldable pub query :
      {A : Type 0}
      → Client
      → Call
      → Call
      → (List A → Result FieldValue)
      → Option (List A)
      → Client × Result FieldValue
  unfolding copy_lent
  query c call release copy lent =
      let copied = copy_lent release copy lent (called c call) in
      if es.returns c.calls call == success then copied else (called c call, raised mute_error)

  module _ (symbol : ℕ → Result FieldValue) where
    unfoldable pub muted_paths :
        Sdk → Encoding → Client → ℕ → Option (List MutedPath) → Client × Result FieldValue
    unfolding query mute_client copy_muted_paths
    muted_paths sdk encoding c pid lent = unless (mute_client c pid) c (
        query c (muted_paths_call c.client) (release_muted_paths_call c.client)
          (copy_muted_paths symbol sdk encoding) lent)

    unfoldable pub muted_processes :
        Client → ℕ → Option (List MutedProcess) → Client × Result FieldValue
    unfolding query mute_client copy_muted_processes
    muted_processes c pid lent = unless (mute_client c pid) c (
        query c (muted_processes_call c.client) (release_muted_processes_call c.client)
          (copy_muted_processes symbol) lent)

    -- client_subscriptions; `events` is what es_subscriptions allocates.
    unfoldable pub subscriptions : Client → ℕ → List ℕ → Client × Result FieldValue
    unfolding rb_ensure mute_client copy_subscriptions
    subscriptions c pid events =
        let call = subscriptions_call c.client in
        let free = free_subscriptions c.client in
        let asked = called c call in
        let copied =
          rb_ensure (λ d. (d, copy_subscriptions symbol events)) (λ d. called d free) asked in
        unless (mute_client c pid) c (
          if not (es.returns c.calls call == success)
          then (asked, raised subscription_error)
          else if ltb long_max (length events)
          then (called asked free, raised range_error)
          else copied)

  unfoldable pub subscribe : Client → ℕ → List ℕ → Client × Result Value
  unfolding ask mute_client
  subscribe c pid events = unless (mute_client c pid) c (
      if length events == 0
      then (c, raised argument_error)
      else if ltb u32_max (length events)
      then (c, raised argument_error)
      else ask c (subscribe_call c.client events) subscription_error)

  -- Without a list, every event
  unfoldable pub unsubscribe : Client → ℕ → Option (List ℕ) → Client × Result Value
  unfolding ask mute_client
  unsubscribe c pid none =
      unless (mute_client c pid) c (ask c (unsubscribe_all c.client) subscription_error)
  unsubscribe c pid (some events) = unless (mute_client c pid) c (
      if ltb u32_max (length events)
      then (c, raised argument_error)
      else ask c (unsubscribe_call c.client events) subscription_error)
