-- ===== src/Client/Deadline.antt =====
-- ext/endpoint_security/client.c, deadline_fire_time and record_sequence_gaps.
use endpoint_security.Base.{
  ℕ, ◌+◌, ◌-◌, ◌^◌, ◌≤◌, ◌<◌, ◌≡◌, ◌⊎◌, sym, ap, subst, true, List, [], ◌∷◌, arith,
}
use endpoint_security.Base.Lists.{length}
use endpoint_security.Esapi.{Message}
use endpoint_security.Client.{Client, advance_of, deadline_fire_time, record_sequence_gaps}

-- A deadline that has passed fires now. Any other fires between now and the deadline: either both
-- margins before the deadline, or at once, because one of the margins does not fit any more.
pub deadline_fire_time_bounds :
    (c : Client) (now deadline : ℕ)
    → let fire = deadline_fire_time c now deadline in
      let scaled = advance_of c.deadline_margin (deadline - now) in
      (deadline ≤ now → fire ≡ now)
      × (now < deadline
          → (now ≤ fire)
            × (fire ≤ deadline)
            × (((fire + scaled ≤ deadline) × (fire + c.min_margin_ticks ≤ deadline))
                ⊎ ((fire ≡ now)
                    × ((deadline - now ≤ scaled) ⊎ (deadline - now ≤ c.min_margin_ticks)))))
unfolding deadline_fire_time
deadline_fire_time_bounds c now deadline = ground arith

-- record_sequence_gaps for each message in turn
abbrev pub record_all : Client → List Message → Client
record_all c [] = c
record_all c (m ∷ ms) = record_all (record_sequence_gaps c m) ms

-- Messages of version 4 or later whose global sequence numbers rise from `previous` on.
abbrev pub Rising : ℕ → List Message → Type 0
Rising previous [] = Unit {0}
Rising previous (m ∷ ms) =
    (4 ≤ m.version)
    × (previous < m.global_seq_num)
    × (m.global_seq_num < 2 ^ 64)
    × Rising m.global_seq_num ms

gap_step :
    (c : Client) (m : Message)
    → c.seen_global_seq ≡ true
    → 4 ≤ m.version
    → c.last_global_seq < m.global_seq_num
    → m.global_seq_num < 2 ^ 64
    → c.seq_gaps + m.global_seq_num < 2 ^ 64 + c.last_global_seq
    → let d = record_sequence_gaps c m in
      (d.seen_global_seq ≡ true)
      × (d.last_global_seq ≡ m.global_seq_num)
      × (d.seq_gaps + 1 + c.last_global_seq ≡ c.seq_gaps + m.global_seq_num)
unfolding record_sequence_gaps
gap_step c m seen ver up small fits = ground arith

-- The last number of a rising sequence
abbrev pub last_number : ℕ → List Message → ℕ
last_number previous [] = previous
last_number previous (m ∷ ms) = last_number m.global_seq_num ms

last-ge :
    (previous : ℕ) (ms : List Message) → Rising previous ms → previous ≤ last_number previous ms
last-ge previous [] h = omega arith
last-ge previous (m ∷ ms) h = omega (arith, last-ge m.global_seq_num ms h.3, h.1)

-- After a first message, and of messages of version 4 or later whose global sequence numbers rise,
-- `seq_gaps` counts exactly the numbers that were left out, as long as the counter does not wrap:
-- it grows by the distance that the numbers covered, less the messages that came.
pub gaps_counted :
    (ms : List Message) (c : Client)
    → c.seen_global_seq ≡ true
    → Rising c.last_global_seq ms
    → c.seq_gaps + last_number c.last_global_seq ms < 2 ^ 64 + c.last_global_seq
    → (record_all c ms).seq_gaps + length ms + c.last_global_seq
      ≡ c.seq_gaps + last_number c.last_global_seq ms
gaps_counted [] c seen h fits = omega arith
gaps_counted (m ∷ ms) c seen h fits =
    let reached = last-ge m.global_seq_num ms h.3 in
    let (seen', last', gaps) = gap_step c m seen h.0 h.1 h.2 (omega (arith, reached, fits)) in
    let d = record_sequence_gaps c m in
    let rises : Rising d.last_global_seq ms = subst (λ n. Rising n ms) (sym last') h.3 in
    let same : last_number d.last_global_seq ms ≡ last_number m.global_seq_num ms =
      ap (λ n. last_number n ms) last' in
    let rest = gaps_counted ms d seen' rises (omega (arith, gaps, same, fits, h.1)) in
    omega (arith, rest, same, last', gaps)
