-- ===== src/Client/Close/Swept.antt =====
-- ext/endpoint_security/client.c, client_answer_occupied: no occupied slot is left pending.
use native.Mathlib.Decide.{ℕ_discrete}
use endpoint_security.Base.{
  ℕ, zero, suc, ◌+◌, ◌≤◌, ◌<◌, ◌≡◌, ◌≢◌, inl, inr, ap, sym, subst, subst⁻¹, ◌∙◌, true,
  if◌then◌else◌, Bool-cases, arith,
}
use endpoint_security.Slot.{Slot, pending}
use endpoint_security.Esapi.{Framework}
use endpoint_security.Queue.{Queue}
use endpoint_security.Client.{Client, answer_slot}
use endpoint_security.Client.Answer.{answer_none_pending}
use endpoint_security.Client.Settles.{Settles, Settles-refl, Settles-trans, answer-Settles}
use endpoint_security.Client.Close.{answer_occupied}

-- The body of the loop
abbrev pub answer_if_occupied : Framework → ℕ → Client → Client
answer_if_occupied es index c = if (c.queue.slots index).occupied then answer_slot es c index else c

answer_if_occupied-Settles :
    (es : Framework) (index : ℕ) (c : Client) → Settles es c (answer_if_occupied es index c)
answer_if_occupied-Settles es index c = elim (Bool-cases (c.queue.slots index).occupied) [
  | inl t ↦
      subst⁻¹ (λ b. Settles es c (if b then answer_slot es c index else c)) t
        (answer-Settles es c index)
  | inr f ↦
      subst⁻¹ (λ b. Settles es c (if b then answer_slot es c index else c)) f (Settles-refl es c)
]

pub answer_occupied-Settles :
    (es : Framework) (left index : ℕ) (c : Client) → Settles es c (answer_occupied es left index c)
unfolding answer_occupied
answer_occupied-Settles es zero index c = Settles-refl es c
answer_occupied-Settles es (suc left) index c =
    Settles-trans (answer_if_occupied-Settles es index c)
      (answer_occupied-Settles es left (suc index) (answer_if_occupied es index c))

-- Slot `i` is not both occupied and pending.
abbrev pub Settled : Queue → ℕ → Type 0
Settled q i = (q.slots i).occupied ≡ true → (q.slots i).answer_state ≢ pending

-- A slot stays settled.
pub Settled-stays :
    (es : Framework) (c d : Client) (i : ℕ) → Settles es c d → Settled c.queue i → Settled d.queue i
Settled-stays es c d i a h occupied waits =
    h (sym (ap (λ (s : Slot). s.occupied) (a.queue.kept i)) ∙ occupied) (a.queue.only i waits)

answer_if_occupied-Settled :
    (es : Framework) (index : ℕ) (c : Client) → Settled (answer_if_occupied es index c).queue index
answer_if_occupied-Settled es index c = elim (Bool-cases (c.queue.slots index).occupied) [
  | inl t ↦
      subst⁻¹ (λ b. Settled (if b then answer_slot es c index else c).queue index) t
        (λ o. answer_none_pending es c index)
  | inr f ↦
      subst⁻¹ (λ b. Settled (if b then answer_slot es c index else c).queue index) f
        (λ o. absurd (ground (arith, f, o)))
]

pub answer_occupied-Settled :
    (es : Framework) (left index : ℕ) (c : Client) (i : ℕ)
    → index ≤ i
    → i < index + left
    → Settled (answer_occupied es left index c).queue i
unfolding answer_occupied
answer_occupied-Settled es zero index c i a b = absurd (omega arith)
answer_occupied-Settled es (suc left) index c i a b =
    let d = answer_if_occupied es index c in
    elim (ℕ_discrete index i) [
      | yes here ↦
          Settled-stays es d (answer_occupied es left (suc index) d) i
            (answer_occupied-Settles es left (suc index) d)
            (subst (Settled d.queue) here (answer_if_occupied-Settled es index c))
      | no later ↦ answer_occupied-Settled es left (suc index) d i (omega arith) (omega arith)
    ]
