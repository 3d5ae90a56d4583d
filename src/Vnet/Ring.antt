-- ===== src/Vnet/Ring.antt =====
-- src/vnet/vnet_ring.c: a guest's queue of received frames, a ring buffer. An operation that writes to
-- `*out` returns what it wrote beside its status.
use wolf_trust_fork.Base.{
  ℕ, zero, ◌+◌, ◌-◌, ◌%◌, ◌^◌, Bool, Option, none, some, ◌==◌, leb, if◌then◌else◌, update,
}
use wolf_trust_fork.Vnet.State.{
  Ring, RxDesc, Status, success, failure, vnet_notready, vnet_queue_full, vnet_empty, inc16,
}
pub mod Fifo

-- `vnet_ring_init`, with storage
abbrev pub ring_init : (ℕ → RxDesc) → ℕ → Ring
ring_init storage n = record { buf = storage; capacity = n; head = 0; tail = 0; count = 0 }

-- `vnet_ring_push`
unfoldable pub ring_push : Ring → RxDesc → Status × Ring
ring_push r desc =
    if r.capacity == 0
    then (failure vnet_notready, r)
    else if leb r.capacity r.count
    then (failure vnet_queue_full, r)
    else (
      success 0,
      record r {
        buf = update r.buf r.head desc;
        head = (r.head + 1) % r.capacity;
        count = inc16 r.count;
      },
    )

-- The tail steps over the oldest frame.
abbrev pub advance_tail : Ring → Ring
advance_tail r = record r { tail = (r.tail + 1) % r.capacity; count = (r.count - 1) % 2 ^ 16 }

-- `vnet_ring_pop`
unfoldable pub ring_pop : Ring → Status × Option RxDesc × Ring
ring_pop r =
    if r.capacity == 0
    then (failure vnet_notready, none, r)
    else if r.count == 0
    then (failure vnet_empty, none, r)
    else (success 0, some (r.buf r.tail), advance_tail r)

-- `vnet_ring_drop_head`
unfoldable pub ring_drop_head : Ring → Status × Ring
ring_drop_head r =
    if r.capacity == 0
    then (failure vnet_notready, r)
    else if r.count == 0
    then (failure vnet_empty, r)
    else (success 0, advance_tail r)

-- `vnet_ring_peek`
unfoldable pub ring_peek : Ring → Status × Option RxDesc
ring_peek r =
    if r.capacity == 0
    then (failure vnet_notready, none)
    else if r.count == 0
    then (failure vnet_empty, none)
    else (success 0, some (r.buf r.tail))

-- `vnet_ring_empty` and `vnet_ring_full`
abbrev pub ring_empty : Ring → Bool
ring_empty r = r.count == 0

abbrev pub ring_full : Ring → Bool
ring_full r = leb r.capacity r.count
