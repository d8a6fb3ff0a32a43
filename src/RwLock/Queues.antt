-- ===== src/RwLock/Queues.antt =====
-- A step of task `i` of rwlock.rs keeps the queues, and what its own place says.
use async_mutex.Common.{
  List-cases, ℕ, ◌≤◌, ◌<◌, ◌≡◌, ◌≢◌, ◌⊎◌, refl, ap, inl, inr, arith, Bool, true, [], tally-ge,
  count, length, inl, inr,
}
use mathlib.Core.Path.{subst}
use async_mutex.Tasks.Counts.{empty_of_newest}
use async_mutex.RwLock.Sums.{length-enqueue, length_zero, some_reader, AllIn-enqueue, AllIn-erase}
use async_mutex.RwLock.Steps.{handing_cases, looping_cases, as_writer, as_reader, readers_of}
use async_mutex.RwLock.{
  Shared, Pc, idle, trying, flip_load, flip, unlinking, leave_read, releasing, handing, load_write,
  looping, freeing, read_queue_index, write_queue_index, newest, Choice, advance,
}
use async_mutex.RwLock.Sums.{length_zero, length-enqueue, some_reader}
use async_mutex.RwLock.Invariant.{writes, AllIn, Local, Inv}

module _ {n : ℕ} {q : ℕ → ℕ} (two : (j : ℕ) → q j < 2) {m : Shared} {pc : ℕ → Pc}
    (inv : Inv q n m pc) (i : ℕ) (lt : i < n) (c : Choice) where
  abbrev mem' : Pc → Shared
  mem' p = (advance q i c m p).0

  pub advance-AllIn :
      (p : Pc)
      → pc i ≡ p
      → AllIn q read_queue_index (mem' p).read_queue
        × AllIn q write_queue_index (mem' p).write_queue
  unfolding advance
  advance-AllIn (flip r w t) here = ground (
    arith,
    inv.in_read_queue,
    inv.in_write_queue,
    AllIn-enqueue q read_queue_index m.read_queue m.inbox,
    AllIn-enqueue q write_queue_index m.write_queue m.inbox,
  )
  advance-AllIn unlinking here = ground (
    arith,
    inv.in_read_queue,
    inv.in_write_queue,
    AllIn-erase q read_queue_index i m.read_queue,
    AllIn-erase q write_queue_index i m.write_queue,
  )
  advance-AllIn (handing r w t) here =
      let (one, some, (v, vs, e)) = handing_cases two inv i lt c r w t here in
      let all = AllIn-enqueue q write_queue_index m.write_queue m.inbox inv.in_write_queue in
      ground (
        arith,
        inv.in_read_queue,
        inv.in_write_queue,
        AllIn-enqueue q read_queue_index m.read_queue m.inbox,
        rw e at all,
      )
  advance-AllIn (looping b r w t) here =
      let all = AllIn-enqueue q write_queue_index m.write_queue m.inbox inv.in_write_queue in
      let some = AllIn-enqueue q read_queue_index m.read_queue m.inbox inv.in_read_queue in
      elim (looping_cases two inv i lt c b r w t here) [
        | inl (r_is, one, e) ↦ ground (arith, inv.in_read_queue, inv.in_write_queue)
        | inr (r_is, more, (v, vs, e)) ↦
            ground (arith, inv.in_read_queue, inv.in_write_queue, rw e at all)
      ]
  advance-AllIn idle here = ground (arith, inv.in_read_queue, inv.in_write_queue)
  advance-AllIn p here = ground (arith, inv.in_read_queue, inv.in_write_queue)

  pub advance-no_waiters :
      (p : Pc)
      → pc i ≡ p
      → (mem' p).writers ≡ 0
      → ((mem' p).inbox ≡ []) × ((mem' p).read_queue ≡ [])
  unfolding advance
  advance-no_waiters (trying r w t) here = ground (arith, inv.no_waiters)
  advance-no_waiters (handing r w t) here =
      let (one, some, (v, vs, e)) = handing_cases two inv i lt c r w t here in
      ground (arith, inv.no_waiters)
  advance-no_waiters (looping b r w t) here = elim (looping_cases two inv i lt c b r w t here) [
    | inl (r_is, one, e) ↦ ground (arith, inv.no_waiters)
    | inr (r_is, more, (v, vs, e)) ↦ ground (arith, inv.no_waiters)
  ]
  advance-no_waiters (freeing b r w t) here =
      ground
        (arith, inv.no_waiters, inv.local_facts i, empty_of_newest m.inbox, inv.place 0, inv.nobody)
  advance-no_waiters p here = ground (arith, inv.no_waiters)

  inbox-empty : newest m.inbox ≡ 0 → count i m.inbox ≡ 0
  inbox-empty h = ground (arith, empty_of_newest m.inbox h, inv.place 0, inv.nobody)

  some_popped :
      (b : Bool) (r w t : ℕ)
      → pc i ≡ looping b r w t
      → m.writers ≡ 1
      → (b ≡ true) ⊎ (newest m.inbox ≢ 0)
      → 1 ≤ length (readers_of q m)
  some_popped b r w t here one some =
      let (r_is, w_is, ready, full) = subst (Local q i m) here (inv.local_facts i) in
      let delivered = length-enqueue q read_queue_index m.read_queue m.inbox in
      elim some [
        | inl is_true ↦ elim (List-cases m.read_queue) [
          | inl e ↦ absurd (full is_true e)
          | inr (x, xs, e) ↦ omega (arith, ap length e, delivered)
        ]
        | inr ne ↦ omega (
          arith,
          delivered,
          some_reader q two m.inbox ne
              (omega (arith, inv.writers_is, tally-ge writes n pc i lt, ap writes here)),
        )
      ]

  pub advance-Local_self : (p : Pc) → pc i ≡ p → Local q i (mem' p) (advance q i c m p).1
  unfolding advance
  advance-Local_self idle here = ground (arith, inv.local_facts i)
  advance-Local_self (trying r w t) here = ground (arith, inv.local_facts i)
  advance-Local_self flip_load here = ground (arith, inv.local_facts i, inbox-empty)
  advance-Local_self (flip r w t) here = ground (arith, inv.local_facts i, inbox-empty)
  advance-Local_self leave_read here =
      ground (arith, as_reader two inv i lt c (rw here (omega arith)))
  advance-Local_self (releasing r w t) here =
      ground (arith, inv.local_facts i, as_reader two inv i lt c (rw here (omega arith)))
  advance-Local_self load_write here =
      ground (arith, as_writer two inv i lt c (rw here refl), length_zero m.read_queue)
  advance-Local_self (freeing b r w t) here =
      ground (arith, inv.local_facts i, as_writer two inv i lt c (rw here refl))
  advance-Local_self (handing r w t) here =
      let (one, some, (v, vs, e)) = handing_cases two inv i lt c r w t here in
      let all = AllIn-enqueue q write_queue_index m.write_queue m.inbox inv.in_write_queue in
      ground (arith, inv.local_facts i, rw e at all)
  advance-Local_self (looping b r w t) here =
      let all = AllIn-enqueue q write_queue_index m.write_queue m.inbox inv.in_write_queue in
      let some = AllIn-enqueue q read_queue_index m.read_queue m.inbox inv.in_read_queue in
      elim (looping_cases two inv i lt c b r w t here) [
        | inl (r_is, one, e) ↦ ground (arith, inv.local_facts i, some_popped b r w t here one)
        | inr (r_is, more, (v, vs, e)) ↦ ground (arith, inv.local_facts i, rw e at all)
      ]
  advance-Local_self p here = ground (arith, inv.local_facts i)
