-- ===== src/Mute/Control.antt =====
-- ext/endpoint_security/mute.c and client.c: what the control operations have in common.
use native.Mathlib.Decide.{ℕ_discrete}
use endpoint_security.Base.{
  ℕ, ◌≡◌, ◌≢◌, ◌⊎◌, inl, inr, refl, Bool, true, false, if◌then◌else◌, ltb, Option, none, some, List,
  arith,
}
use endpoint_security.Base.Lists.{length}
use endpoint_security.Esapi.{
  success, Call, muted_paths_call, release_muted_paths_call, muted_processes_call,
  release_muted_processes_call, subscriptions_call, free_subscriptions, Framework,
}
use endpoint_security.Field.Value.{FieldValue, array, no_items, Encoding, Sdk}
use endpoint_security.Mute.Copies.{
  MutedPath, MutedProcess, copy_muted_paths, copy_muted_processes, copy_subscriptions,
}
use endpoint_security.Client.{Client, called}
use endpoint_security.Ruby.{
  Error, forked_client_error, client_error, mute_error, subscription_error, range_error, Result,
  raised, returned,
}
use endpoint_security.Mute.{
  long_max, mute_client, mute_path, mute_process, unmute_all, invert_muting, muting_inverted,
  clear_cache, rb_ensure, copy_lent, query, muted_paths, muted_processes, subscriptions, subscribe,
  unsubscribe,
}

refusal :
    (c : Client) (pid : ℕ)
    → (c.owner_pid ≢ pid) ⊎ (c.closed ≡ true)
    → (e : Error) × (mute_client c pid ≡ some e)
      × (c.owner_pid ≢ pid → e ≡ forked_client_error)
      × (c.owner_pid ≡ pid → e ≡ client_error)
unfolding mute_client
refusal c pid h = elim (ℕ_discrete c.owner_pid pid) [
  | no other ↦ (forked_client_error, ground arith, λ _. refl, λ same. elim (other same) [ ])
  | yes same ↦ elim h [
    | inl other ↦ elim (other same) [ ]
    | inr closed ↦ (client_error, ground (arith, closed), λ other. elim (other same) [ ], λ _. refl)
  ]
]

-- On a client that was closed, or in a process that was forked from the client's, every control
-- operation raises (ForkedClientError in the forked process, else ClientError), asks the framework
-- for nothing, and leaves the client as it is.
pub control_refused :
    (es : Framework) (c : Client) (pid : ℕ)
    → (c.owner_pid ≢ pid) ⊎ (c.closed ≡ true)
    → (e : Error) × ((c.owner_pid ≢ pid → e ≡ forked_client_error)
        × (c.owner_pid ≡ pid → e ≡ client_error))
      × ((mute : Bool) (path type : ℕ) (events : List ℕ)
          → mute_path es c pid mute path type events ≡ (c, raised e))
      × ((mute : Bool) (token events : List ℕ)
          → mute_process es c pid mute token events ≡ (c, raised e))
      × ((target : Bool) → unmute_all es c pid target ≡ (c, raised e))
      × ((type : ℕ)
          → (invert_muting es c pid type ≡ (c, raised e))
            × (muting_inverted es c pid type ≡ (c, raised e)))
      × (clear_cache es c pid ≡ (c, raised e))
      × ((symbol : ℕ → Result FieldValue) (sdk : Sdk) (encoding : Encoding)
            (lent : Option (List MutedPath))
          → muted_paths es symbol sdk encoding c pid lent ≡ (c, raised e))
      × ((symbol : ℕ → Result FieldValue) (lent : Option (List MutedProcess))
          → muted_processes es symbol c pid lent ≡ (c, raised e))
      × ((symbol : ℕ → Result FieldValue) (events : List ℕ)
          → subscriptions es symbol c pid events ≡ (c, raised e))
      × ((events : List ℕ)
          → (subscribe es c pid events ≡ (c, raised e))
            × (unsubscribe es c pid (some events) ≡ (c, raised e)))
      × (unsubscribe es c pid none ≡ (c, raised e))
unfolding mute_path mute_process unmute_all invert_muting muting_inverted clear_cache muted_paths
    muted_processes subscribe unsubscribe subscriptions
control_refused es c pid h =
    let (e, eq, forked, closed) = refusal c pid h in
    (
      e,
      (forked, closed),
      (λ mute path type events. rw eq),
      (λ mute token events. rw eq),
      (λ target. rw eq),
      (λ type. (rw eq, rw eq)),
      rw eq,
      (λ symbol sdk encoding lent. rw eq),
      (λ symbol lent. rw eq),
      (λ symbol events. rw eq),
      (λ events. (rw eq, rw eq)),
      rw eq,
    )

-- The client is open and in its own process.
open_client :
    (c : Client) (pid : ℕ) → c.owner_pid ≡ pid → c.closed ≡ false → mute_client c pid ≡ none
unfolding mute_client
open_client c pid same alive = ground (arith, same, alive)

-- A query that fails raises `error`; else what it lends, if anything, is copied and then released.
abbrev pub IsReleased :
    {A : Type 0}
    → Framework
    → Client
    → Call
    → Call
    → Error
    → (List A → Result FieldValue)
    → Option (List A)
    → Client × Result FieldValue
    → Type 0
IsReleased es c call release error copy lent (d, r) =
    ((es.returns c.calls call ≢ success) × (d ≡ called c call) × (r ≡ raised error))
    ⊎ (es.returns c.calls call ≡ success)
      × (((lent ≡ none) × (d ≡ called c call) × (r ≡ returned (array no_items)))
          ⊎ ((entries : List _) × (lent ≡ some entries)
              × (d ≡ called (called c call) release)
              × (r ≡ copy entries)))

query-IsReleased :
    {A : Type 0} (es : Framework) (c : Client) (call release : Call)
    (copy : List A → Result FieldValue) (lent : Option (List A))
    → IsReleased es c call release mute_error copy lent (query es c call release copy lent)
unfolding query copy_lent rb_ensure
query-IsReleased es c call release copy none = elim (ℕ_discrete (es.returns c.calls call) success) [
  | no failed ↦ inl (failed, ground (arith, failed), ground (arith, failed))
  | yes done ↦ inr (done, inl (refl, ground (arith, done), ground (arith, done)))
]
query-IsReleased es c call release copy (some entries) =
    elim (ℕ_discrete (es.returns c.calls call) success) [
      | no failed ↦ inl (failed, ground (arith, failed), ground (arith, failed))
      | yes done ↦ inr (done, inr (entries, refl, ground (arith, done), ground (arith, done)))
    ]

-- The copy of subscriptions: too many raise RangeError, and else each is turned into its symbol.
abbrev pub copy_few : (ℕ → Result FieldValue) → List ℕ → Result FieldValue
copy_few symbol events =
    if ltb long_max (length events) then raised range_error else copy_subscriptions symbol events

-- On an open client in its own process, whatever EventType.symbol does, raising included:
-- muted_paths and muted_processes raise MuteError, and client_subscriptions SubscriptionError, if
-- the framework refuses the query, and then release nothing. Else each releases exactly once, after
-- the query, what the framework lent or allocated, whether the copy into Ruby returned or raised,
-- and returns or raises what the copy did; for more than LONG_MAX subscriptions it raises
-- RangeError. For the NULL of a mute query the answer is an empty array, and nothing is released.
pub lent-IsReleased :
    (es : Framework) (symbol : ℕ → Result FieldValue) (sdk : Sdk) (encoding : Encoding) (c : Client)
    (pid : ℕ)
    → c.owner_pid ≡ pid
    → c.closed ≡ false
    → ((lent : Option (List MutedPath))
        → IsReleased es c
            (muted_paths_call c.client)
            (release_muted_paths_call c.client)
            mute_error
            (copy_muted_paths symbol sdk encoding)
            lent
            (muted_paths es symbol sdk encoding c pid lent))
      × ((lent : Option (List MutedProcess))
          → IsReleased es c
              (muted_processes_call c.client)
              (release_muted_processes_call c.client)
              mute_error
              (copy_muted_processes symbol)
              lent
              (muted_processes es symbol c pid lent))
      × ((events : List ℕ)
          → IsReleased es c
              (subscriptions_call c.client)
              (free_subscriptions c.client)
              subscription_error
              (copy_few symbol)
              (some events)
              (subscriptions es symbol c pid events))
unfolding muted_paths muted_processes subscriptions rb_ensure
lent-IsReleased es symbol sdk encoding c pid same alive =
    let opened = open_client c pid same alive in
    (
      λ lent. rw opened (query-IsReleased es c _ _ _ lent),
      λ lent. rw opened (query-IsReleased es c _ _ _ lent),
      λ events. elim (ℕ_discrete (es.returns c.calls (subscriptions_call c.client)) success) [
        | no failed ↦ inl (failed, ground (arith, opened), ground (arith, opened))
        | yes done ↦ inr (done, inr (events, refl, ground (arith, opened), ground (arith, opened)))
      ],
    )
