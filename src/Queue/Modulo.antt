-- ===== src/Queue/Modulo.antt =====
-- queue.c: the index of a position, `position & mask`, and the remainder that it stands for.
use endpoint_security.Base.{
  ℕ, ◌-◌, ◌%◌, ◌^◌, ◌≡◌, Bool, some, arith, bit_and, bit_and_mask, power_of_two, ap, ◌∙◌, sym,
}
use endpoint_security.Queue.{Queue, index_of, init}
use endpoint_security.Queue.Init.{init-some}

-- In a ring that esrb_queue_init made, of whatever capacity it accepts, the masked index of a
-- position is the remainder of the position by the capacity.
pub index_of-mod :
    (c : ℕ) (a : Bool) (q : Queue) (position : ℕ)
    → init c a ≡ some q
    → index_of q position ≡ position % q.capacity
index_of-mod c a q position made =
    let (two, bits, same) = init-some c a made in
    let (k, p) = power_of_two c (omega arith) bits in
    let mask : q.mask ≡ 2 ^ k - 1 = ap (λ (u : Queue). u.mask) same ∙ ap (λ n. n - 1) p in
    let size : q.capacity ≡ 2 ^ k = ap (λ (u : Queue). u.capacity) same ∙ p in
    ap (bit_and position) mask ∙ bit_and_mask k position ∙ ap (λ n. position % n) (sym size)
