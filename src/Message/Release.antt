-- ===== src/Message/Release.antt =====
-- ext/endpoint_security/message.c, message_release: a message goes back to the framework, and its slot
-- to the ring.
use mathlib.Core.Path.{ap₂}
use endpoint_security.Base.{
  ℕ, ◌+◌, ◌-◌, ◌^◌, ◌≤◌, ◌<◌, ◌≡◌, ◌⊎◌, inl, inr, refl, ap, sym, subst, subst⁻¹, ◌∙◌, Bool, true,
  false, Option, none, some, ◌∷◌, ◌&&◌, not, if◌then◌else◌, bit_and, arith, Bool-cases,
}
use endpoint_security.Slot.{Slot, answered}
use endpoint_security.Esapi.{Call, release_message, Framework}
use endpoint_security.Queue
use endpoint_security.Queue.{Queue, write_slot}
use endpoint_security.Queue.Valid.{slot_of, Held, IsValid}
use endpoint_security.Queue.Calls.{contents, window-same, released, release_lem}
use endpoint_security.Client.{
  Client, called, is_pending, flags_of, response_call, send_response, respond_slot,
}
use endpoint_security.Message.{
  Wrapper, message_owned_here, default_response, give_back, message_release,
}

-- A slot may be written between calls as long as it keeps its sequence, position and message.
module _ {q : Queue} (v : IsValid q) (index : ℕ) (slot : Slot)
    (s : slot.sequence ≡ (q.slots index).sequence) (p : slot.position ≡ (q.slots index).position)
    (m : slot.message ≡ (q.slots index).message) where
  rewritten-IsValid : IsValid (write_slot q index slot)
  rewritten-IsValid = record {
    shape = v.shape;
    ordered = v.ordered;
    fits = v.fits;
    waiting = λ r a b. ground (arith, v.waiting r a b, s, p);
    vacant = λ r a b. ground (arith, v.vacant r a b, s, p);
  }

  rewritten-contents : contents (write_slot q index slot) ≡ contents q
  rewritten-contents =
      window-same q (write_slot q index slot) (q.enqueue_position - q.dequeue_position)
        q.dequeue_position (λ r a b. ground (arith, m))

abbrev pub disarmed : Slot → Slot
disarmed slot = record slot { occupied = false }

-- What `give_back` leaves for the slot of position `p`.
abbrev pub given_back : Client → ℕ → Client
given_back c p =
    let index = bit_and p c.queue.mask in
    record (called c (release_message (c.queue.slots index).message)) {
      queue = released (write_slot c.queue index (disarmed (c.queue.slots index))) p;
    }

-- A consumer holds the slot of `p`, and nobody else reads it.
abbrev pub Owned : Queue → ℕ → Type 0
Owned q p =
    (q.enqueue_position ≤ p)
    × (p < q.dequeue_position + q.capacity)
    × Held q p
    × ((slot_of q p).readers ≡ 0)

module _ (c : Client) (p : ℕ) (v : IsValid c.queue) (few : c.queue.enqueue_position < 2 ^ 61)
    (own : Owned c.queue p) where
  abbrev clear : Queue
  clear = write_slot c.queue (bit_and p c.queue.mask) (disarmed (slot_of c.queue p))

  clear-IsValid : IsValid clear
  clear-IsValid =
      rewritten-IsValid v (bit_and p c.queue.mask) (disarmed (slot_of c.queue p)) refl refl refl

  clear-Owned : Owned clear p
  clear-Owned = ground (arith, own)

  clear-released :
      (Queue.release clear (bit_and p c.queue.mask) ≡ some (released clear p))
      × IsValid (released clear p)
      × (contents (released clear p) ≡ contents clear)
      × ((slot_of (released clear p) p).sequence ≡ p)
  clear-released =
      let (after, before, held, idle) = clear-Owned in
      release_lem p clear-IsValid few after before held idle

  disarms : Queue.disarm (slot_of c.queue p) ≡ some (disarmed (slot_of c.queue p))
  unfolding Queue.disarm
  disarms = ground (arith, own.3)

  give_back_lem :
      (give_back c (bit_and p c.queue.mask) ≡ some (given_back c p))
      × IsValid (given_back c p).queue
      × (contents (given_back c p).queue ≡ contents c.queue)
      × ((slot_of (given_back c p).queue p).sequence ≡ p)
  unfolding give_back
  give_back_lem =
      let (returns, valid, same, free) = clear-released in
      (
        rw (give_back, disarms, returns),
        valid,
        same
            ∙ rewritten-contents v (bit_and p c.queue.mask) (disarmed (slot_of c.queue p)) refl refl
                refl,
        free,
      )

module _ (es : Framework) (c : Client) (m : Wrapper) where
  abbrev pub due : Bool
  due = not c.closed && is_pending es (c.queue.slots m.slot).answer_state

  abbrev pub default_call : Call
  default_call =
      let slot = c.queue.slots m.slot in
      response_call es slot.client slot.message c.default_auth (flags_of c.default_auth)
        c.default_cache

  abbrev answered_queue : Queue
  answered_queue =
      write_slot c.queue m.slot (record (c.queue.slots m.slot) { answer_state = answered })

  responded :
      let d = (default_response es c m).0 in
      ((d.queue ≡ c.queue) ⊎ (d.queue ≡ answered_queue))
      × (d.calls ≡ (if due then default_call ∷ c.calls else c.calls))
  unfolding respond_slot send_response
  responded = elim (Bool-cases c.closed) [
    | inl t ↦ (ground (arith, t), ground (arith, t))
    | inr f ↦ elim (Bool-cases (is_pending es (c.queue.slots m.slot).answer_state)) [
      | inl t ↦ (ground (arith, f, t), ground (arith, f, t))
      | inr g ↦ (ground (arith, f, g), ground (arith, f, g))
    ]
  ]

-- `u` is as good as `q` for the slot of `p`.
abbrev Same : Queue → ℕ → Queue → Type 0
Same q p u =
    IsValid u
    × (contents u ≡ contents q)
    × Owned u p
    × (u.enqueue_position < 2 ^ 61)
    × (u.mask ≡ q.mask)
    × ((slot_of u p).message ≡ (slot_of q p).message)

answered-Same :
    (q : Queue) (p : ℕ)
    → IsValid q
    → q.enqueue_position < 2 ^ 61
    → Owned q p
    → Same q p (write_slot q (bit_and p q.mask) (record (slot_of q p) { answer_state = answered }))
answered-Same q p v few own =
    let slot = record (slot_of q p) { answer_state = answered } in
    (
      rewritten-IsValid v (bit_and p q.mask) slot refl refl refl,
      rewritten-contents v (bit_and p q.mask) slot refl refl refl,
      ground (arith, own),
      few,
      refl,
      ground arith,
    )

-- What the release of a valid message leaves, besides the object
pub record IsReleased (es : Framework) (c : Client) (m : Wrapper) (p : ℕ) (e : Client)
    : Type 0 where
  pub ring : IsValid e.queue
  pub others : contents e.queue ≡ contents c.queue
  pub free : (slot_of e.queue p).sequence ≡ p
  pub calls :
      e.calls
      ≡ release_message (c.queue.slots m.slot).message
        ∷ (if due es c m then default_call es c m ∷ c.calls else c.calls)

-- A result, and one with the property
abbrev pub ReturnsPair : Option (Client × Wrapper) → (Client → Wrapper → Type 0) → Type 0
ReturnsPair none P = ⊥
ReturnsPair (some (e, w)) P = P e w

pub release_path :
    (es : Framework) (c : Client) (pid : ℕ) (m : Wrapper) (d : Client)
    → m.valid ≡ true
    → message_owned_here c pid ≡ true
    → give_back (default_response es c m).0 m.slot ≡ some d
    → message_release es c pid m ≡ some (d, record m { valid = false })
unfolding message_release
release_path es c pid m d valid here back = rw (message_release, valid, here, back)

responded-Same :
    (es : Framework) (c : Client) (m : Wrapper) (p : ℕ)
    → m.slot ≡ bit_and p c.queue.mask
    → IsValid c.queue
    → c.queue.enqueue_position < 2 ^ 61
    → Owned c.queue p
    → ((default_response es c m).0.queue ≡ c.queue)
      ⊎ ((default_response es c m).0.queue ≡ answered_queue es c m)
    → Same c.queue p (default_response es c m).0.queue
responded-Same es c m p at v few own (inl e) =
    subst⁻¹ (Same c.queue p) e (v, refl, own, few, refl, refl)
responded-Same es c m p at v few own (inr e) =
    let placed : answered_queue es c m
        ≡ write_slot c.queue (bit_and p c.queue.mask)
            (record (slot_of c.queue p) { answer_state = answered }) =
      ap (λ i. write_slot c.queue i (record (c.queue.slots i) { answer_state = answered })) at in
    subst⁻¹ (Same c.queue p) (e ∙ placed) (answered-Same c.queue p v few own)

-- Releasing a valid message in its own process, whose slot the dispatcher holds, and that the
-- watchdog is not reading, returns: an AUTH message that nobody has answered gets the default
-- response first, unless the client is closed; then the framework gets its message back, once; the
-- slot is free for its next position in a valid ring with the same messages waiting, and the
-- object is not valid any more. The ring is valid before, with an enqueue position below 2^61.
pub message_release_lem :
    (es : Framework) (c : Client) (pid : ℕ) (m : Wrapper) (p : ℕ)
    → m.valid ≡ true
    → message_owned_here c pid ≡ true
    → m.slot ≡ bit_and p c.queue.mask
    → IsValid c.queue
    → c.queue.enqueue_position < 2 ^ 61
    → Owned c.queue p
    → ReturnsPair (message_release es c pid m) (λ e w. (w.valid ≡ false) × IsReleased es c m p e)
message_release_lem es c pid m p valid here at v few own =
    let d = (default_response es c m).0 in
    let (queue, calls) = responded es c m in
    let (ring, same, own', few', mask, message) : Same c.queue p d.queue =
      responded-Same es c m p at v few own queue in
    let (back, valid', same', free) = give_back_lem d p ring few' own' in
    let place : bit_and p d.queue.mask ≡ m.slot = ap (bit_and p) mask ∙ sym at in
    subst⁻¹ (λ r. ReturnsPair r (λ e w. (w.valid ≡ false) × IsReleased es c m p e))
      (release_path es c pid m (given_back d p) valid here
        (subst (λ i. give_back d i ≡ some (given_back d p)) place back))
      (
        refl,
        record {
          ring = valid';
          others = same' ∙ same;
          free = free;
          calls =
              ap₂ (λ x xs. release_message x ∷ xs)
                (message ∙ ap (λ i. (c.queue.slots i).message) (sym at)) calls;
        },
      )
