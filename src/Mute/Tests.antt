-- ===== src/Mute/Tests.antt =====
-- A closed client, an EventType.symbol that raises for one event, and accessors of libbsm as documented.
use endpoint_security.Base.{
  ℕ, ◌≡◌, ◌≢◌, inr, refl, ◌==◌, if◌then◌else◌, Bool, true, Option, none, some, List,
}
use endpoint_security.Esapi.{
  muted_paths_call, release_muted_paths_call, muted_processes_call, release_muted_processes_call,
  subscriptions_call, free_subscriptions,
}
use endpoint_security.Client.{Client}
use endpoint_security.Client.Samples.{framework, sample}
use endpoint_security.Ruby.{
  Error, forked_client_error, client_error, mute_error, argument_error, subscription_error, Result,
  raised, returned,
}
use endpoint_security.Mute.{
  mute_path, mute_process, unmute_all, invert_muting, muting_inverted, clear_cache, muted_paths,
  muted_processes, subscriptions, subscribe, unsubscribe,
}
use endpoint_security.Field.Samples.{sdk}
use endpoint_security.Field.Value.{FieldValue, number, pos, utf8, Encoding, Sdk}
use endpoint_security.Mute.Copies.{MutedPath, MutedProcess, copy_muted_paths, copy_muted_processes}
use endpoint_security.Mute.Control.{control_refused, IsReleased, copy_few, lent-IsReleased}
use endpoint_security.Mute.Tokens.{AuditToken, Bsm}

abbrev shut : Client
shut = record sample { closed = true }

control_refused_example :
    (e : Error) × ((shut.owner_pid ≢ 77 → e ≡ forked_client_error)
      × (shut.owner_pid ≡ 77 → e ≡ client_error))
    × ((mute : Bool) (path type : ℕ) (events : List ℕ)
        → mute_path framework shut 77 mute path type events ≡ (shut, raised e))
    × ((mute : Bool) (token events : List ℕ)
        → mute_process framework shut 77 mute token events ≡ (shut, raised e))
    × ((target : Bool) → unmute_all framework shut 77 target ≡ (shut, raised e))
    × ((type : ℕ)
        → (invert_muting framework shut 77 type ≡ (shut, raised e))
          × (muting_inverted framework shut 77 type ≡ (shut, raised e)))
    × (clear_cache framework shut 77 ≡ (shut, raised e))
    × ((symbol : ℕ → Result FieldValue) (sdk : Sdk) (encoding : Encoding)
          (lent : Option (List MutedPath))
        → muted_paths framework symbol sdk encoding shut 77 lent ≡ (shut, raised e))
    × ((symbol : ℕ → Result FieldValue) (lent : Option (List MutedProcess))
        → muted_processes framework symbol shut 77 lent ≡ (shut, raised e))
    × ((symbol : ℕ → Result FieldValue) (events : List ℕ)
        → subscriptions framework symbol shut 77 events ≡ (shut, raised e))
    × ((events : List ℕ)
        → (subscribe framework shut 77 events ≡ (shut, raised e))
          × (unsubscribe framework shut 77 (some events) ≡ (shut, raised e)))
    × (unsubscribe framework shut 77 none ≡ (shut, raised e))
control_refused_example = control_refused framework shut 77 (inr refl)

-- EventType.symbol, which raises for the event 3
abbrev symbol : ℕ → Result FieldValue
symbol n = if n == 3 then raised argument_error else returned (number (pos n))

lent-IsReleased_example :
    ((lent : Option (List MutedPath))
      → IsReleased framework sample
          (muted_paths_call 9)
          (release_muted_paths_call 9)
          mute_error
          (copy_muted_paths symbol sdk utf8)
          lent
          (muted_paths framework symbol sdk utf8 sample 77 lent))
    × ((lent : Option (List MutedProcess))
        → IsReleased framework sample
            (muted_processes_call 9)
            (release_muted_processes_call 9)
            mute_error
            (copy_muted_processes symbol)
            lent
            (muted_processes framework symbol sample 77 lent))
    × ((events : List ℕ)
        → IsReleased framework sample
            (subscriptions_call 9)
            (free_subscriptions 9)
            subscription_error
            (copy_few symbol)
            (some events)
            (subscriptions framework symbol sample 77 events))
lent-IsReleased_example = lent-IsReleased framework symbol sdk utf8 sample 77 refl refl

abbrev documented : Bsm
documented = record {
  to_pid = λ t. t.val5;
  to_pidversion = λ t. t.val7;
  to_ruid = λ t. t.val3;
  to_euid = λ t. t.val1;
  to_rgid = λ t. t.val4;
  to_egid = λ t. t.val2;
  to_asid = λ t. t.val6;
  to_auid = λ t. t.val0;
}

-- A token of the numbers from 1 to 8
abbrev counted : AuditToken
counted = record {
  pid = 1;
  pidversion = 2;
  ruid = 3;
  euid = 4;
  rgid = 5;
  egid = 6;
  asid = 7;
  auid = 8;
}
