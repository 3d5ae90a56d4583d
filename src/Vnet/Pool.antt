-- ===== src/Vnet/Pool.antt =====
-- src/vnet/vnet_pool.c: the reference-counted frames of the switch.
use wolf_trust_fork.Base.{
  ℕ, ◌+◌, ◌-◌, ◌%◌, ◌^◌, Bool, Option, none, some, ◌==◌, ltb, leb, not, ◌||◌, if◌then◌else◌, update,
  find, for_below, map_cell,
}
use wolf_trust_fork.Vnet.State.{
  Frame, FramePool, Status, success, failure, vnet_badarg, vnet_stale_cookie, vnet_double_release,
  inc16,
}
pub mod InUse

-- A frame as `vnet_pool_init` leaves it; the data stays.
abbrev pub cleared_frame : Frame → Frame
cleared_frame f = record f {
  refcnt = 0;
  gen = 0;
  len = 0;
  flags = 0;
  src_vm = 0;
  dst_mask = 0;
  born_tick = 0;
}

-- `vnet_pool_init`, with storage
unfoldable pub pool_init : (ℕ → Frame) → ℕ → FramePool
pool_init storage n =
    let slots = for_below n (map_cell cleared_frame) storage in
    record { slots = slots; slot_count = n; in_use_count = 0 }

-- `p->slots[i] = f`
abbrev pub set_slot : FramePool → ℕ → Frame → FramePool
set_slot p i f = record p { slots = update p.slots i f }

-- `if (p->in_use_count > 0U) p->in_use_count--;`
abbrev pub one_less : ℕ → ℕ
one_less n = if ltb 0 n then n - 1 else n

-- The frame and the pool once `vnet_pool_alloc` has taken slot `i`.
abbrev pub taken_frame : Frame → ℕ → Frame
taken_frame f now_tick = record f {
  gen = inc16 f.gen;
  refcnt = 1;
  len = 0;
  flags = 0;
  src_vm = 0;
  dst_mask = 0;
  born_tick = now_tick;
}

abbrev pub take_slot : FramePool → ℕ → ℕ → FramePool
take_slot p now_tick i = record (set_slot p i (taken_frame (p.slots i) now_tick)) {
  in_use_count = inc16 p.in_use_count;
}

abbrev pub alloc_found : FramePool → ℕ → Option ℕ → Option (ℕ × FramePool)
alloc_found p now_tick none = none
alloc_found p now_tick (some i) = some (i, take_slot p now_tick i)

-- `vnet_pool_alloc`; `none` is `VNET_POOL_BAD_SLOT`
unfoldable pub pool_alloc : FramePool → ℕ → Option (ℕ × FramePool)
pool_alloc p now_tick = alloc_found p now_tick (find (λ i. (p.slots i).refcnt == 0) p.slot_count)

-- `vnet_pool_ref`
unfoldable pub pool_ref : FramePool → ℕ → ℕ → Status × FramePool
pool_ref p slot gen =
    let f = p.slots slot in
    if leb p.slot_count slot
    then (failure vnet_badarg, p)
    else if f.refcnt == 0
    then (failure vnet_stale_cookie, p)
    else if not (f.gen == gen)
    then (failure vnet_stale_cookie, p)
    else if f.refcnt == 2 ^ 16 - 1
    then (failure vnet_badarg, p)
    else (success 0, set_slot p slot (record f { refcnt = inc16 f.refcnt }))

-- One frame less in use: its reference count is 0 from now on.
abbrev pub free_slot : FramePool → ℕ → FramePool
free_slot p slot = record (set_slot p slot (record (p.slots slot) { refcnt = 0 })) {
  in_use_count = one_less p.in_use_count;
}

-- `vnet_pool_release`, which returns 1 when the frame becomes free
unfoldable pub pool_release : FramePool → ℕ → ℕ → Status × FramePool
pool_release p slot gen =
    let f = p.slots slot in
    if leb p.slot_count slot
    then (failure vnet_badarg, p)
    else if not (f.gen == gen)
    then (failure vnet_stale_cookie, p)
    else if f.refcnt == 0
    then (failure vnet_double_release, p)
    else if f.refcnt - 1 == 0
    then (success 1, free_slot p slot)
    else (success 0, set_slot p slot (record f { refcnt = f.refcnt - 1 }))

-- `vnet_pool_force_free`
unfoldable pub pool_force_free : FramePool → ℕ → Status × FramePool
pool_force_free p slot =
    if leb p.slot_count slot
    then (failure vnet_badarg, p)
    else if (p.slots slot).refcnt == 0
    then (failure vnet_double_release, p)
    else (success 0, free_slot p slot)

-- One round of the loop of `vnet_pool_drop_expired`, on the pool and the count of frames freed.
unfoldable pub drop_if_expired : ℕ → ℕ → ℕ → FramePool × ℕ → FramePool × ℕ
drop_if_expired now_tick timeout_ticks i (p, freed) =
    let f = p.slots i in
    let age = (now_tick + 2 ^ 32 - f.born_tick) % 2 ^ 32 in
    if f.refcnt == 0
    then (p, freed)
    else if leb timeout_ticks age
    then (free_slot p i, inc16 freed)
    else (p, freed)

-- `vnet_pool_drop_expired`
unfoldable pub pool_drop_expired : FramePool → ℕ → ℕ → FramePool × ℕ
unfolding for_below drop_if_expired
pool_drop_expired p now_tick timeout_ticks =
    if timeout_ticks == 0
    then (p, 0)
    else for_below p.slot_count (drop_if_expired now_tick timeout_ticks) (p, 0)

-- `vnet_pool_slot`
unfoldable pub pool_slot : FramePool → ℕ → ℕ → Option Frame
pool_slot p slot gen =
    let f = p.slots slot in
    if leb p.slot_count slot
    then none
    else if f.refcnt == 0
    then none
    else if not (f.gen == gen)
    then none
    else some f

-- `vnet_pool_free_count` and `vnet_pool_in_use_count`
abbrev pub pool_free_count : FramePool → ℕ
pool_free_count p = (p.slot_count + 2 ^ 16 - p.in_use_count) % 2 ^ 16

abbrev pub pool_in_use_count : FramePool → ℕ
pool_in_use_count p = p.in_use_count
