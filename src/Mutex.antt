-- ===== src/Mutex.antt =====
-- src/sync/mutex.c: the sleep mutex of the coroutines. A coroutine is its index, NULL is `none`, and
-- `next_wait` holds the link of each coroutine. The functions return the coroutine that they wake by
-- `wt_co_wake` beside the new state.
use wolf_trust_fork.Base.{
  ℕ, zero, suc, ◌+◌, ◌%◌, ◌^◌, Bool, true, false, Option, none, some, ◌==◌, if◌then◌else◌, update,
}
pub mod Waiters
pub mod Removal
pub mod Acquire
pub mod Handover

-- `wt_mutex_t`, and the links of the coroutines
pub record Mutex : Type 0 where
  pub holder : Option ℕ
  pub wait_head : Option ℕ
  pub wait_tail : Option ℕ
  pub acquire_count : ℕ
  pub contend_count : ℕ
  pub next_wait : ℕ → Option ℕ

-- `p == q` on pointers to coroutines
abbrev pub same_co : Option ℕ → Option ℕ → Bool
same_co none none = true
same_co (some a) (some b) = a == b
same_co none (some b) = false
same_co (some a) none = false

-- `wt_mutex_init`; the links are the coroutines' own
abbrev pub mutex_init : (ℕ → Option ℕ) → Mutex
mutex_init next_wait = record {
  holder = none;
  wait_head = none;
  wait_tail = none;
  acquire_count = 0;
  contend_count = 0;
  next_wait = next_wait;
}

-- `m->acquire_count++` with a new holder
abbrev pub take_mutex : Mutex → Option ℕ → Mutex
take_mutex m co = record m { holder = co; acquire_count = (m.acquire_count + 1) % 2 ^ 32 }

-- The tail of the queue links to the coroutine. A queue with a head has a tail, so the first clause,
-- where C follows NULL, is not reached.
abbrev pub link_waiter : Mutex → Option ℕ → ℕ → Mutex
link_waiter m none self = record m { wait_tail = some self }
link_waiter m (some tail) self = record m {
  next_wait = update m.next_wait tail (some self);
  wait_tail = some self;
}

-- `m->contend_count++` and the coroutine at the end of the queue
unfoldable pub join_waiters : Mutex → ℕ → Mutex
join_waiters m self =
    let alone = record m {
      contend_count = (m.contend_count + 1) % 2 ^ 32;
      next_wait = update m.next_wait self none;
    } in
    if same_co m.wait_head none
    then record alone { wait_head = some self; wait_tail = some self }
    else link_waiter alone m.wait_tail self

-- Where `wt_mutex_acquire` stands: it has refused, it has returned with the mutex, or it blocks.
pub data AcquireState : Type 0 where
  acquire_refused acquire_done acquire_blocked : AcquireState

-- `wt_mutex_acquire` up to its first `wt_co_block`
unfoldable pub mutex_acquire : Mutex → Option ℕ → AcquireState × Mutex
unfolding join_waiters
mutex_acquire m none = (acquire_refused, m)
mutex_acquire m (some self) =
    if same_co m.holder none
    then (acquire_done, take_mutex m (some self))
    else (acquire_blocked, join_waiters m self)

-- `wt_mutex_acquire` when `wt_co_block` has returned, up to the next one
unfoldable pub mutex_resume : Mutex → ℕ → AcquireState × Mutex
mutex_resume m self =
    if same_co m.holder (some self)
    then (acquire_done, record m { acquire_count = (m.acquire_count + 1) % 2 ^ 32 })
    else (acquire_blocked, m)

-- The head of the queue gets the mutex and is woken.
abbrev pub hand_over : Mutex → Option ℕ → Option ℕ × Mutex
hand_over m none = (none, record m { holder = none })
hand_over m (some next) =
    let rest = m.next_wait next in
    (
      some next,
      record m {
        holder = some next;
        wait_head = rest;
        wait_tail = if same_co rest none then none else m.wait_tail;
        next_wait = update m.next_wait next none;
      },
    )

-- `wt_mutex_release` by the running coroutine: whether it returns 0, and whom it wakes
unfoldable pub mutex_release : Mutex → Option ℕ → Bool × Option ℕ × Mutex
mutex_release m current =
    let (woken, m1) = hand_over m m.wait_head in
    if same_co m.holder current then (true, woken, m1) else (false, none, m)

-- `wt_mutex_release_if_holder`
unfoldable pub mutex_release_if_holder : Mutex → ℕ → Option ℕ × Mutex
mutex_release_if_holder m co =
    if same_co m.holder (some co) then hand_over m m.wait_head else (none, m)

-- `wt_mutex_try_acquire` by the running coroutine
unfoldable pub mutex_try_acquire : Mutex → Option ℕ → Bool × Mutex
mutex_try_acquire m current =
    if same_co m.holder none then (true, take_mutex m current) else (false, m)

-- The loop of `wt_mutex_acquire_queued`, for at most as many rounds as the first argument says
unfoldable pub is_parked : ℕ → Mutex → Option ℕ → ℕ → Bool
is_parked zero m waiter self = false
is_parked (suc fuel) m none self = false
is_parked (suc fuel) m (some waiter) self =
    let rest = is_parked fuel m (m.next_wait waiter) self in if waiter == self then true else rest

-- `wt_mutex_acquire_queued`: 0 is `acquire_done`, and 1 is `acquire_blocked`
unfoldable pub mutex_acquire_queued : ℕ → Mutex → ℕ → AcquireState × Mutex
unfolding join_waiters is_parked
mutex_acquire_queued fuel m self =
    if same_co m.holder none
    then (acquire_done, take_mutex m (some self))
    else if same_co m.holder (some self)
    then (acquire_done, m)
    else if is_parked fuel m m.wait_head self
    then (acquire_blocked, m)
    else (acquire_blocked, join_waiters m self)

-- The unlinking of `cur`, which stands behind `prev`
abbrev pub unlink_waiter : Mutex → Option ℕ → ℕ → Mutex
unlink_waiter m none cur = record m {
  wait_head = m.next_wait cur;
  wait_tail = if same_co m.wait_tail (some cur) then none else m.wait_tail;
  next_wait = update m.next_wait cur none;
}
unlink_waiter m (some prev) cur = record m {
  wait_tail = if same_co m.wait_tail (some cur) then some prev else m.wait_tail;
  next_wait = update (update m.next_wait prev (m.next_wait cur)) cur none;
}

-- The loop of `wt_mutex_remove_waiter`, for at most as many rounds as the first argument says
unfoldable pub remove_from : ℕ → Mutex → Option ℕ → Option ℕ → ℕ → Mutex
remove_from zero m prev cur co = m
remove_from (suc fuel) m prev none co = m
remove_from (suc fuel) m prev (some cur) co =
    let rest = remove_from fuel m (some cur) (m.next_wait cur) co in
    if cur == co then unlink_waiter m prev cur else rest

-- `wt_mutex_remove_waiter`
unfoldable pub mutex_remove_waiter : ℕ → Mutex → ℕ → Mutex
unfolding remove_from
mutex_remove_waiter fuel m co = remove_from fuel m none m.wait_head co
