-- ===== src/RwLock/Safety.antt =====
-- What holds of the lock of rwlock.rs in every state that any interleaving of its tasks reaches, with
-- spurious failures of the weak exchanges and with cancelled calls.
use async_mutex.Common.{
  ℕ, ◌+◌, ◌^◌, ◌≤◌, ◌<◌, ◌≡◌, ◌≢◌, ◌⊎◌, refl, ap, inl, inr, arith, false, List, [], ◌∷◌, tally,
  tally_at, tally-ge, tally-pos, tally_at-pos, tally-ge_two, tally-eq-zero, tally_at-eq-zero,
  tally_at-ge, count, length, inl, inr,
}
use native.Mathlib.Decide.{dec_lt}
use async_mutex.RwLock.Counts.{advance-Counts}
use async_mutex.RwLock.Queues.{advance-AllIn, advance-no_waiters}
use async_mutex.RwLock.Bystanders.{advance-Local, advance-aborted, advance-outside}
use async_mutex.RwLock.Bounds.{stored-Inv}
use async_mutex.RwLock.Places.{advance-place}
use async_mutex.RwLock.Steps.{
  Moved, moved, as_writer, advance-guards, advance-borrowed, advance-calm,
}
use async_mutex.RwLock.{
  System, step, init, Waker, none, waiting, done, Shared, Pc, idle, asleep, counting, adding,
  waking_all, Choice, go, act, advance,
}
use async_mutex.RwLock.Invariant.{
  reads, writes, guarding, cancelling, borrowing, aims, is_done, write_mode, woken_reader,
  woken_writer, Inv,
}

-- A step of a task keeps the invariant, whatever the choice, as long as `write_abort` is not called.
pub step-Inv :
    {n : ℕ} {q : ℕ → ℕ}
    → ((j : ℕ) → q j < 2)
    → n < 2 ^ 32
    → {s : System} (i : ℕ) (c : Choice) → i ≢ 0
    → i < n
    → (step q i c s).mem.aborted ≡ false
    → Inv q n s.mem s.pc
    → Inv q n (step q i c s).mem (step q i c s).pc
unfolding step act
step-Inv {n} {q} two few {s} i c pos lt ok inv =
    let p' = (advance q i c s.mem (s.pc i)).1 in
    let mv : Moved n s.pc i (s.pc i) (advance q i c s.mem (s.pc i)).1 =
      moved n s.pc i (advance q i c s.mem (s.pc i)).1 lt in
    let counts = advance-Counts two inv i lt c (s.pc i) refl mv ok in
    let (guards, locked, apart) = advance-guards two inv i lt c (s.pc i) refl mv in
    let (in_read_queue, in_write_queue) = advance-AllIn two inv i lt c (s.pc i) refl in
    let (nobody, outside) = advance-outside two inv i lt c (s.pc i) pos in
    stored-Inv
      (record {
        readers_is = counts.readers_is;
        writers_is = counts.writers_is;
        token = counts.token;
        place = advance-place two inv i lt c;
        in_read_queue = in_read_queue;
        in_write_queue = in_write_queue;
        local_facts = advance-Local two inv i lt c;
        no_waiters = advance-no_waiters two inv i lt c (s.pc i) refl;
        guards_is = guards;
        locked_is = locked;
        apart = apart;
        borrowed_is = advance-borrowed two inv i lt c (s.pc i) refl mv;
        calm = advance-calm two inv i lt c (s.pc i) refl;
        nobody = nobody;
        outside = outside;
      })
      few

-- The states that tasks 1 to n - 1 reach from a new lock.
pub data Reach (q : ℕ → ℕ) (n : ℕ) : System → Type 0 where
  start : Reach q n init
  later : {s : System} (i : ℕ) (c : Choice) → i ≢ 0 → i < n → Reach q n s → Reach q n (step q i c s)

init-Inv : (q : ℕ → ℕ) (n : ℕ) → Inv q n init.mem init.pc
init-Inv q n =
    let zeros : (w : Pc → ℕ) → w idle ≡ 0 → tally w n (λ _. idle) ≡ 0 =
      λ w h. tally-eq-zero w n (λ _. idle) (λ _. h) in
    let readers = tally_at-eq-zero (woken_reader q) n (λ _. none) (λ at. ground arith) in
    let writers = tally_at-eq-zero (woken_writer q) n (λ _. none) (λ at. ground arith) in
    record {
      readers_is = omega (arith, zeros reads refl);
      writers_is = omega (arith, zeros writes refl);
      token = omega (arith, zeros writes refl);
      place = λ j. omega (arith, zeros (aims j) refl);
      in_read_queue = tt;
      in_write_queue = tt;
      local_facts = λ j. tt;
      no_waiters = λ e. (refl, refl);
      guards_is = omega (arith, zeros guarding refl);
      locked_is = omega (arith, zeros cancelling refl);
      apart = inl refl;
      borrowed_is = omega (arith, zeros borrowing refl);
      calm = refl;
      nobody = refl;
      outside = λ j h. refl;
    }

step-aborted :
    (q : ℕ → ℕ) (i : ℕ) (c : Choice) (s : System)
    → (step q i c s).mem.aborted ≡ false
    → s.mem.aborted ≡ false
unfolding step act
step-aborted q i c s h = advance-aborted q i c s.mem (s.pc i) h

write_mode-le : (r w : ℕ) → write_mode r w ≤ 1
write_mode-le r w = ground arith

write_mode-readers : (r w : ℕ) → 1 ≤ write_mode r w → r ≡ 0
write_mode-readers r w h = ground arith

write_mode-cases : (r w : ℕ) → 1 ≤ w → (1 ≤ r) ⊎ (write_mode r w ≡ 1)
write_mode-cases r w h = ground arith

woken_by_kind :
    (q : ℕ → ℕ) (j : ℕ) (k : Waker) → q j < 2 → woken_reader q j k + woken_writer q j k ≡ is_done k
woken_by_kind q j k two = ground arith

is_done_lem : (k : Waker) → 0 < is_done k → k ≡ done
is_done_lem k h = ground arith

woken_reader-le : (q : ℕ → ℕ) (j : ℕ) (k : Waker) → woken_reader q j k ≤ is_done k
woken_reader-le q j k = ground arith

woken_writer-le : (q : ℕ → ℕ) (j : ℕ) (k : Waker) → woken_writer q j k ≤ is_done k
woken_writer-le q j k = ground arith

count-le-length : (j : ℕ) (ws : List ℕ) → count j ws ≤ length ws
count-le-length j [] = omega arith
count-le-length j (w ∷ ws) = ground (arith, count-le-length j ws)

aims-le : (j : ℕ) (p : Pc) → 1 ≤ aims j p → 1 ≤ reads p + writes p
aims-le j (counting r w t list) h = omega arith
aims-le j (adding r w t list) h = omega arith
aims-le j (waking_all list) h = omega (arith, count-le-length j list)
aims-le j p h = ground arith

-- Someone has the lock, or was woken to take it.
abbrev pub Someone : ℕ → System → Type 0
Someone n s = (j : ℕ) × (j < n) × ((1 ≤ reads (s.pc j) + writes (s.pc j)) ⊎ (s.mem.waker j ≡ done))

someone :
    (q : ℕ → ℕ) (n : ℕ) (s : System)
    → 1
      ≤ tally reads n s.pc
        + tally writes n s.pc
        + tally_at (woken_reader q) n s.mem.waker
        + tally_at (woken_writer q) n s.mem.waker
    → Someone n s
someone q n s h = elim (dec_lt 0 (tally reads n s.pc)) [
  | yes p ↦ let (j, lt, k) = tally-pos reads n s.pc p in (j, lt, inl (omega arith))
  | no a ↦ elim (dec_lt 0 (tally writes n s.pc)) [
    | yes p ↦ let (j, lt, k) = tally-pos writes n s.pc p in (j, lt, inl (omega arith))
    | no b ↦ elim (dec_lt 0 (tally_at (woken_reader q) n s.mem.waker)) [
      | yes p ↦
          let (j, lt, k) = tally_at-pos (woken_reader q) n s.mem.waker p in
          (
            j,
            lt,
            inr (is_done_lem (s.mem.waker j) (omega (arith, woken_reader-le q j (s.mem.waker j)))),
          )
      | no d ↦
          let (j, lt, k) = tally_at-pos (woken_writer q) n s.mem.waker (omega arith) in
          (
            j,
            lt,
            inr (is_done_lem (s.mem.waker j) (omega (arith, woken_writer-le q j (s.mem.waker j)))),
          )
    ]
  ]
]

module _ {n : ℕ} {q : ℕ → ℕ} (two : (j : ℕ) → q j < 2) (few : n < 2 ^ 32) where
  pub Reach-Inv : {s : System} → Reach q n s → s.mem.aborted ≡ false → Inv q n s.mem s.pc
  Reach-Inv start ok = init-Inv q n
  Reach-Inv (later {s} i c pos lt r) ok =
      step-Inv two few i c pos lt ok (Reach-Inv r (step-aborted q i c s ok))

  -- While a task has the lock for writing (it has a `WriteGuard`, is in `write_unlock`, or has popped a
  -- writer and not yet woken it), no other task has the lock for reading or for writing, and none has
  -- been woken to take it. This holds in every state that fewer than 2 ^ 32 tasks reach
  -- without a call of `write_abort`.
  pub write_exclusion :
      {s : System}
      → Reach q n s
      → s.mem.aborted ≡ false
      → (i j : ℕ) → i ≢ j
      → writes (s.pc i) ≡ 1
      → (reads (s.pc j) ≡ 0) × (writes (s.pc j) ≡ 0) × (j < n → s.mem.waker j ≢ done)
  write_exclusion {s} r ok i j ne h =
      let inv = Reach-Inv r ok in
      let below : i < n = ground (arith, inv.outside i) in
      let (no_readers, some, one, no_reads) = as_writer two inv i below go h in
      (
        ground (arith, inv.outside j, tally-ge reads n s.pc j),
        ground (arith, inv.outside j, tally-ge_two writes n s.pc i j below),
        λ lt e. absurd (
            omega (
              arith,
              one,
              ap is_done e,
              woken_by_kind q j (s.mem.waker j) (two j),
              tally-ge writes n s.pc i below,
              tally_at-ge (woken_reader q) n s.mem.waker j lt,
              tally_at-ge (woken_writer q) n s.mem.waker j lt,
              inv.readers_is,
            )),
      )

  -- No assertion of rwlock.rs fails, no `unwrap` finds `None`, no counter goes below 0, the queue guard
  -- is never taken twice, and only pending waiters are woken, in every state that fewer than 2 ^ 32 tasks
  -- reach without a call of `write_abort`.
  pub rw_never_panics : {s : System} → Reach q n s → s.mem.aborted ≡ false → s.mem.panicked ≡ false
  rw_never_panics r ok = (Reach-Inv r ok).calm

  -- A waiter in the inbox or in a queue is counted, or some writer is.
  writers-pos :
      {m : Shared} {pc : ℕ → Pc}
      → Inv q n m pc
      → (i : ℕ) → 1 ≤ count i m.inbox + count i m.read_queue + count i m.write_queue
      → 1 ≤ m.writers
  writers-pos {m} inv i h =
      ground (arith, inv.no_waiters, inv.writers_is, count-le-length i m.write_queue)

  -- In every state that fewer than 2 ^ 32 tasks reach without a call of `write_abort`, and in which a
  -- task waits and has not been woken, some task has the lock or has been woken to take it.
  pub rw_no_lost_wakeup :
      {s : System}
      → Reach q n s
      → s.mem.aborted ≡ false
      → (i : ℕ) → s.pc i ≡ asleep
      → s.mem.waker i ≡ waiting
      → Someone n s
  rw_no_lost_wakeup {s} r ok i here waits =
      let inv = Reach-Inv r ok in
      elim (dec_lt 0 (tally (aims i) n s.pc)) [
        | yes p ↦
            let (j, lt, k) = tally-pos (aims i) n s.pc p in (j, lt, inl (aims-le i (s.pc j) k))
        | no none_aim ↦
            let some = writers-pos inv i (ground (arith, inv.place i)) in
            elim (write_mode-cases s.mem.readers s.mem.writers some) [
              | inl more ↦ someone q n s (omega (arith, inv.readers_is))
              | inr one ↦ someone q n s (omega (arith, inv.token))
            ]
      ]
