-- ===== src/Client/Settles.antt =====
-- ext/endpoint_security/client.c, client_answer_slot and the loop of client_answer_occupied: every
-- slot they answer was pending, and its default answer was asked of the framework.
use endpoint_security.Base.{
  ℕ, ◌≡◌, ◌⊎◌, inl, inr, refl, subst, subst⁻¹, ◌∙◌, List, Bool-cases, arith,
}
use endpoint_security.Esapi.{Call, Framework}
use endpoint_security.Queue.Answered.{Answered, Answered-trans}
use endpoint_security.Client.{Client, is_pending, answer_slot, send_response, send_default}
use endpoint_security.Client.Answer.{Asked, default_call, answer-Answered, answer_calls}

-- Every call in `calls` is in `more`.
abbrev pub Grown : List Call → List Call → Type 0
Grown calls more = (x : Call) → Asked x calls → Asked x more

-- `d` is `c` after some default answers.
pub record Settles (es : Framework) (c d : Client) : Type 0 where
  pub queue : Answered c.queue d.queue
  pub auth : d.default_auth ≡ c.default_auth
  pub cache : d.default_cache ≡ c.default_cache
  pub closed : d.closed ≡ c.closed
  pub client : d.client ≡ c.client
  pub thread : d.watchdog_thread_started ≡ c.watchdog_thread_started
  pub grown : Grown c.calls d.calls
  pub either :
      (i : ℕ)
      → ((d.queue.slots i).answer_state ≡ (c.queue.slots i).answer_state)
        ⊎ Asked (default_call es c (c.queue.slots i)) d.calls

pub Settles-refl : (es : Framework) (c : Client) → Settles es c c
Settles-refl es c = record {
  queue = record { same = refl; kept = λ i. refl; only = λ i h. h };
  auth = refl;
  cache = refl;
  closed = refl;
  client = refl;
  thread = refl;
  grown = λ x h. h;
  either = λ i. inl refl;
}

same_call :
    (es : Framework) (c d : Client) (i : ℕ)
    → Settles es c d
    → default_call es d (d.queue.slots i) ≡ default_call es c (c.queue.slots i)
same_call es c d i a = rw (a.queue.kept i, a.auth, a.cache)

pub Settles-trans :
    {es : Framework} {c d e : Client} → Settles es c d → Settles es d e → Settles es c e
Settles-trans {es} {c} {d} {e} a b = record {
  queue = Answered-trans a.queue b.queue;
  auth = b.auth ∙ a.auth;
  cache = b.cache ∙ a.cache;
  closed = b.closed ∙ a.closed;
  client = b.client ∙ a.client;
  thread = b.thread ∙ a.thread;
  grown = λ x h. b.grown x (a.grown x h);
  either = λ i. elim (b.either i) [
    | inl same ↦ elim (a.either i) [
      | inl same' ↦ inl (same ∙ same')
      | inr asked ↦ inr (b.grown (default_call es c (c.queue.slots i)) asked)
    ]
    | inr asked ↦ inr (subst (λ x. Asked x e.calls) (same_call es c d i a) asked)
  ];
}

module _ (es : Framework) (c : Client) (index : ℕ) where
  answer_settings :
      let d = answer_slot es c index in
      (d.default_auth ≡ c.default_auth)
      × (d.default_cache ≡ c.default_cache)
      × (d.closed ≡ c.closed)
      × (d.client ≡ c.client)
      × (d.watchdog_thread_started ≡ c.watchdog_thread_started)
  unfolding answer_slot send_default send_response
  answer_settings = ground arith

  answer_grown : Grown c.calls (answer_slot es c index).calls
  answer_grown x h =
      subst⁻¹ (Asked x) (answer_calls es c index)
        (elim (Bool-cases (is_pending es (c.queue.slots index).answer_state)) [
          | inl t ↦ ground (arith, t)
          | inr f ↦ ground (arith, f)
        ])

  answer_either :
      (i : ℕ)
      → (((answer_slot es c index).queue.slots i).answer_state ≡ (c.queue.slots i).answer_state)
        ⊎ Asked (default_call es c (c.queue.slots i)) (answer_slot es c index).calls
  unfolding answer_slot send_default send_response
  answer_either i = ground arith

  pub answer-Settles : Settles es c (answer_slot es c index)
  answer-Settles =
      let (auth, cache, closed, client, thread) = answer_settings in
      record {
        queue = answer-Answered es c index;
        auth = auth;
        cache = cache;
        closed = closed;
        client = client;
        thread = thread;
        grown = answer_grown;
        either = answer_either;
      }
