-- ===== src/Wakeup/Invariant.antt =====
-- The wakeup of the dispatcher: what holds in every state that the threads reach.
use native.Mathlib.Decide.{ℕ_discrete, dec_lt}
use endpoint_security.Base.{
  ℕ, suc, ◌≤◌, ◌<◌, ◌≡◌, ◌≢◌, ◌⊎◌, inl, inr, refl, ap, sym, subst, subst⁻¹, Bool, true, false,
  update, update_self, update_ne, arith,
}
use endpoint_security.Wakeup.{
  Notifier, idle, filling, notifying, nudging, writing, Dispatcher, waiting, taking, storing,
  looking, rearming, rewriting, State, Written, one_more, full, ThreadMove, claim, publish, nudge,
  win, lose, nudge_win, nudge_lose, write, DispatcherMove, read, take, stop, store, look_empty,
  look_more, rearm_win, rearm_lose, rewrite, by_thread, by_dispatcher, Reach, start, later,
}

-- A thread that will notify for the message at a position
abbrev pub Owner : Notifier → ℕ → Type 0
Owner (filling r) p = r ≡ p
Owner (notifying r) p = r ≡ p
Owner _ p = ⊥

-- Between the read of the pipe and the store to `notified`
abbrev pub is_draining : Dispatcher → Bool
is_draining taking = true
is_draining storing = true
is_draining _ = false

-- Between the store to `notified` and the end of esrb_notify
abbrev pub is_rearming : Dispatcher → Bool
is_rearming looking = true
is_rearming rearming = true
is_rearming _ = false

abbrev pub Alarmed : State → Type 0
Alarmed s =
    (0 < s.pipe)
    ⊎ (((t : ℕ) × (s.thread t ≡ writing))
        ⊎ ((is_draining s.dispatcher ≡ true) ⊎ (s.dispatcher ≡ rewriting)))

-- While `notified` is set, a byte is in the pipe or on its way, or the dispatcher is at work; while it
-- is clear, every message has a thread that will notify for it, or the dispatcher is about to look.
pub record IsAwake (s : State) : Type 0 where
  pub ordered : s.dequeue_position ≤ s.enqueue_position
  pub alarmed : s.notified ≡ true → Alarmed s
  pub owned :
      s.notified ≡ false
      → is_rearming s.dispatcher ≡ false
      → (p : ℕ) → s.dequeue_position ≤ p
      → p < s.enqueue_position
      → (t : ℕ) × Owner (s.thread t) p

-- What does not hold of thread `t` does not depend on its move.
keeps :
    (P : Notifier → Type 0) (f : ℕ → Notifier) (t u : ℕ) (x : Notifier)
    → ¬ P (f t)
    → P (f u)
    → P (update f t x u)
keeps P f t u x not_t h = elim (ℕ_discrete t u) [
  | yes same ↦ absurd (not_t (subst (λ v. P (f v)) (sym same) h))
  | no other ↦ subst⁻¹ P (update_ne f t u x other) h
]

moved_alarm :
    (s : State) (t : ℕ) (x : Notifier)
    → s.thread t ≢ writing
    → Alarmed s
    → Alarmed (record s { thread = update s.thread t x })
moved_alarm s t x not_t h = elim h [
  | inl byte ↦ inl byte
  | inr (inl (u, e)) ↦ inr (inl (u, keeps (λ y. y ≡ writing) s.thread t u x not_t e))
  | inr (inr busy) ↦ inr (inr busy)
]

owner_kept :
    (s : State) (t : ℕ) (x : Notifier) (p : ℕ)
    → ¬ Owner (s.thread t) p
    → (u : ℕ) × Owner (s.thread u) p
    → (u : ℕ) × Owner (update s.thread t x u) p
owner_kept s t x p not_t (u, h) = (u, keeps (λ y. Owner y p) s.thread t u x not_t h)

pub Written-pos : (room n m : ℕ) → 0 < room → Written room n m → 0 < m
Written-pos room n m some_room (one_more l e) = omega arith
Written-pos room n m some_room (full l e) = omega arith

not_owner :
    (s : State) (t p : ℕ) (y : Notifier) → s.thread t ≡ y → ¬ Owner y p → ¬ Owner (s.thread t) p
not_owner s t p y e no_owner h = no_owner (subst (λ z. Owner z p) e h)

-- A claim adds a message that the thread will notify for.
claim_owned :
    (s : State) (t p : ℕ)
    → s.thread t ≡ idle
    → (p < s.enqueue_position → (u : ℕ) × Owner (s.thread u) p)
    → p < suc s.enqueue_position
    → (u : ℕ) × Owner (update s.thread t (filling s.enqueue_position) u) p
claim_owned s t p e owner l = elim (dec_lt p s.enqueue_position) [
  | yes old ↦
      owner_kept s t (filling s.enqueue_position) p (not_owner s t p idle e (λ h. h)) (owner old)
  | no last ↦ (
    t,
    subst⁻¹ (λ y. Owner y p) (update_self s.thread t (filling s.enqueue_position)) (omega arith),
  )
]

publish_owned :
    (s : State) (t r p : ℕ)
    → s.thread t ≡ filling r
    → (u : ℕ) × Owner (s.thread u) p
    → (u : ℕ) × Owner (update s.thread t (notifying r) u) p
publish_owned s t r p e (u, h) = elim (ℕ_discrete t u) [
  | yes same ↦ (
    t,
    subst⁻¹ (λ y. Owner y p) (update_self s.thread t (notifying r))
        (subst (λ y. Owner y p) e (subst (λ v. Owner (s.thread v) p) (sym same) h)),
  )
  | no other ↦ (u, subst⁻¹ (λ y. Owner y p) (update_ne s.thread t u (notifying r) other) h)
]

module _ (room : ℕ) (some_room : 0 < room) (t : ℕ) where
  thread-IsAwake : {s u : State} → ThreadMove room t s u → IsAwake s → IsAwake u
  thread-IsAwake {s} (claim e) v = record {
    ordered = omega (arith, v.ordered);
    alarmed = λ n. moved_alarm s t (filling s.enqueue_position) (λ h. cc) (v.alarmed n);
    owned = λ n d p a b. claim_owned s t p e (v.owned n d p a) b;
  }
  thread-IsAwake {s} (publish r e) v = record {
    ordered = v.ordered;
    alarmed = λ n. moved_alarm s t (notifying r) (λ h. cc) (v.alarmed n);
    owned = λ n d p a b. publish_owned s t r p e (v.owned n d p a b);
  }
  thread-IsAwake {s} (nudge e) v = record {
    ordered = v.ordered;
    alarmed = λ n. moved_alarm s t nudging (λ h. cc) (v.alarmed n);
    owned =
        λ n d p a b. owner_kept s t nudging p (not_owner s t p idle e (λ h. h)) (v.owned n d p a b);
  }
  thread-IsAwake {s} (win r e f) v = record {
    ordered = v.ordered;
    alarmed = λ n. inr (inl (t, update_self s.thread t writing));
    owned = λ n. cc;
  }
  thread-IsAwake {s} (lose r e f) v = record {
    ordered = v.ordered;
    alarmed = λ n. moved_alarm s t idle (λ h. cc) (v.alarmed n);
    owned = λ n. cc;
  }
  thread-IsAwake {s} (nudge_win e f) v = record {
    ordered = v.ordered;
    alarmed = λ n. inr (inl (t, update_self s.thread t writing));
    owned = λ n. cc;
  }
  thread-IsAwake {s} (nudge_lose e f) v = record {
    ordered = v.ordered;
    alarmed = λ n. moved_alarm s t idle (λ h. cc) (v.alarmed n);
    owned = λ n. cc;
  }
  thread-IsAwake {s} (write n e w) v = record {
    ordered = v.ordered;
    alarmed = λ _. inl (Written-pos room s.pipe n some_room w);
    owned =
        λ f d p a b. owner_kept s t idle p (not_owner s t p writing e (λ h. h)) (v.owned f d p a b);
  }

-- The dispatcher leaves a phase in which it is neither draining nor about to write.
left_alarm :
    (s : State) (d : Dispatcher)
    → is_draining s.dispatcher ≡ false
    → s.dispatcher ≢ rewriting
    → Alarmed s
    → Alarmed (record s { dispatcher = d })
left_alarm s d quiet not_writing h = elim h [
  | inl byte ↦ inl byte
  | inr (inl thread) ↦ inr (inl thread)
  | inr (inr (inl drains)) ↦ cc
  | inr (inr (inr writes)) ↦ absurd (not_writing writes)
]

module _ (room : ℕ) (some_room : 0 < room) where
  dispatcher-IsAwake : {s u : State} → DispatcherMove room s u → IsAwake s → IsAwake u
  dispatcher-IsAwake {s} (read e) v = record {
    ordered = v.ordered;
    alarmed = λ n. inr (inr (inl refl));
    owned = λ n d p a b. v.owned n (ap is_rearming e) p a b;
  }
  dispatcher-IsAwake {s} (take e l f) v = record {
    ordered = l;
    alarmed = v.alarmed;
    owned = λ n d p a b. v.owned n d p (omega arith) b;
  }
  dispatcher-IsAwake {s} (stop e) v = record {
    ordered = v.ordered;
    alarmed = λ n. inr (inr (inl refl));
    owned = λ n d p a b. v.owned n (ap is_rearming e) p a b;
  }
  dispatcher-IsAwake {s} (store e) v = record {
    ordered = v.ordered;
    alarmed = λ n. cc;
    owned = λ n d. cc;
  }
  dispatcher-IsAwake {s} (look_empty e l) v = record {
    ordered = v.ordered;
    alarmed = λ n. left_alarm s waiting (ap is_draining e) (λ h. cc) (v.alarmed n);
    owned = λ n d p a b. absurd (omega arith);
  }
  dispatcher-IsAwake {s} (look_more e l) v = record {
    ordered = v.ordered;
    alarmed = λ n. left_alarm s rearming (ap is_draining e) (λ h. cc) (v.alarmed n);
    owned = λ n d. cc;
  }
  dispatcher-IsAwake {s} (rearm_win e f) v = record {
    ordered = v.ordered;
    alarmed = λ n. inr (inr (inr refl));
    owned = λ n d. cc;
  }
  dispatcher-IsAwake {s} (rearm_lose e f) v = record {
    ordered = v.ordered;
    alarmed = λ n. left_alarm s waiting (ap is_draining e) (λ h. cc) (v.alarmed n);
    owned = λ n d. cc;
  }
  dispatcher-IsAwake {s} (rewrite n e w) v = record {
    ordered = v.ordered;
    alarmed = λ _. inl (Written-pos room s.pipe n some_room w);
    owned = λ f d p a b. v.owned f (ap is_rearming e) p a b;
  }

  pub Reach-IsAwake : {s : State} → Reach room s → IsAwake s
  Reach-IsAwake start = record {
    ordered = omega arith;
    alarmed = λ n. cc;
    owned = λ n d p a b. absurd (omega arith);
  }
  Reach-IsAwake (later r (by_thread t mv)) = thread-IsAwake room some_room t mv (Reach-IsAwake r)
  Reach-IsAwake (later r (by_dispatcher mv)) = dispatcher-IsAwake mv (Reach-IsAwake r)
