-- ===== src/RwLock/Counts.antt =====
-- A step of task `i` of rwlock.rs keeps what the atom counts, and hands the lock on.
use async_mutex.Common.{
  ℕ, ◌+◌, ◌≤◌, ◌<◌, ◌≡◌, ◌≢◌, refl, ap, Bool-cases, inl, inr, arith, Bool, true, false, [], ◌∷◌,
  tally, tally_at, tally_at-update, tally_at-ge, update, length, ◌&&◌, ◌==◌, if◌then◌else◌,
}
use async_mutex.RwLock.{
  Waker, none, waiting, done, Shared, Pc, idle, trying, asleep, flip, unlinking, releasing, handing,
  looping, adding, waking_all, waking, read_queue_index, write_queue_index, only, Choice, advance,
  poll_enter, read_round, write_round,
}
use async_mutex.RwLock.Sums.{length-erase, length-enqueue}
use async_mutex.RwLock.Invariant.{
  reads, writes, is_done, write_mode, woken_reader, woken_writer, Inv,
}
use async_mutex.RwLock.Steps.{Moved, target, handing_cases, looping_cases}

-- How the counts of woken waiters change by a write to the waker of `j`.
record Rewoken (q : ℕ → ℕ) (n : ℕ) (m : Shared) (j : ℕ) (k : Waker) : Type 0 where
  readers :
      tally_at (woken_reader q) n (update m.waker j k) + woken_reader q j (m.waker j)
      ≡ tally_at (woken_reader q) n m.waker + woken_reader q j k
  writers :
      tally_at (woken_writer q) n (update m.waker j k) + woken_writer q j (m.waker j)
      ≡ tally_at (woken_writer q) n m.waker + woken_writer q j k
  reader : woken_reader q j (m.waker j) ≤ tally_at (woken_reader q) n m.waker
  writer : woken_writer q j (m.waker j) ≤ tally_at (woken_writer q) n m.waker

rewoken : (q : ℕ → ℕ) (n : ℕ) (m : Shared) (j : ℕ) (k : Waker) → j < n → Rewoken q n m j k
rewoken q n m j k below = record {
  readers = tally_at-update (woken_reader q) n m.waker j k below;
  writers = tally_at-update (woken_writer q) n m.waker j k below;
  reader = tally_at-ge (woken_reader q) n m.waker j below;
  writer = tally_at-ge (woken_writer q) n m.waker j below;
}

-- What the atom counts, and who has the lock.
pub record Counts (q : ℕ → ℕ) (n : ℕ) (m : Shared) (pc : ℕ → Pc) : Type 0 where
  pub readers_is : m.readers ≡ tally reads n pc + tally_at (woken_reader q) n m.waker
  pub writers_is :
      m.writers
      ≡ tally writes n pc
        + tally_at (woken_writer q) n m.waker
        + length (only q write_queue_index m.inbox)
        + length m.write_queue
  pub token :
      tally writes n pc + tally_at (woken_writer q) n m.waker ≡ write_mode m.readers m.writers

-- The part of the invariant and of a move that `Counts` depends on, for a task in the loop of `read`
-- or `write`.
module _ {q : ℕ → ℕ} {n : ℕ} {m : Shared} {pc : ℕ → Pc} (before : Counts q n m pc) (i : ℕ)
    (lt : i < n) (c : Choice) (r w t : ℕ) (fresh : is_done (m.waker i) ≡ 0) where
  abbrev Kept : Shared × Pc → Type 0
  Kept (m', p') =
      (tally reads n (update pc i p') ≡ tally reads n pc + reads p')
      → (tally writes n (update pc i p') ≡ tally writes n pc + writes p')
      → Rewoken q n m i none
      → Rewoken q n m i waiting
      → Counts q n m' (update pc i p')

  enter-Counts :
      (r' w' : ℕ) (k : Waker)
      → m.waker i ≡ k
      → (r ≡ 0 → w ≢ 0)
      → r' ≡ r
      → w' ≡ (if q i == write_queue_index then w + 1 else w)
      → Kept (poll_enter q i c m r w t r' w' k)
  unfolding poll_enter
  enter-Counts r' w' done here full e e' = absurd (ground arith)
  enter-Counts r' w' k here full e e' = λ kept kept' cleared set. record {
    readers_is = ground (arith, before.readers_is, cleared, set);
    writers_is = ground (arith, before.writers_is, cleared, set);
    token = ground (arith, before.token, cleared, set);
  }

  read-Counts : q i ≡ 0 → Kept (read_round q i c m r w t)
  unfolding read_round
  read-Counts kind = elim (Bool-cases (w == 0)) [
    | inl free ↦ rw free λ kept kept' cleared set. record {
      readers_is = ground (arith, before.readers_is, cleared, set);
      writers_is = ground (arith, before.writers_is, cleared, set);
      token = ground (arith, before.token, cleared, set);
    }
    | inr full ↦ rw full (enter-Counts r w (m.waker i) refl (ground arith) refl (ground arith))
  ]

  write-Counts : q i ≡ 1 → Kept (write_round q i c m r w t)
  unfolding write_round
  write-Counts kind = elim (Bool-cases ((r == 0) && (w == 0))) [
    | inl free ↦ rw free λ kept kept' cleared set. record {
      readers_is = ground (arith, before.readers_is, cleared, set);
      writers_is = ground (arith, before.writers_is, cleared, set);
      token = ground (arith, before.token, cleared, set);
    }
    | inr full ↦
        rw full (enter-Counts r (w + 1) (m.waker i) refl (ground arith) refl (ground arith))
  ]

  trying-Counts :
      (b : Bool)
      → (q i == read_queue_index) ≡ b
      → q i < 2
      → Kept (if b then read_round q i c m r w t else write_round q i c m r w t)
  trying-Counts true kind two = read-Counts (ground arith)
  trying-Counts false kind two = write-Counts (ground arith)

module _ {n : ℕ} {q : ℕ → ℕ} (two : (j : ℕ) → q j < 2) {m : Shared} {pc : ℕ → Pc}
    (inv : Inv q n m pc) (i : ℕ) (lt : i < n) (c : Choice) where
  abbrev mem' : Pc → Shared
  mem' p = (advance q i c m p).0

  abbrev pc' : Pc → ℕ → Pc
  pc' p = update pc i (advance q i c m p).1

  abbrev Moves : Pc → Type 0
  Moves p = Moved n pc i p (advance q i c m p).1

  before : Counts q n m pc
  before = record { readers_is = inv.readers_is; writers_is = inv.writers_is; token = inv.token }

  pub advance-Counts :
      (p : Pc) → pc i ≡ p → Moves p → (mem' p).aborted ≡ false → Counts q n (mem' p) (pc' p)
  unfolding advance
  advance-Counts idle here mv ok = ground (
    arith,
    mv.readers,
    mv.writers,
    inv.readers_is,
    inv.writers_is,
    inv.token,
    inv.place i,
    rewoken q n m i none lt,
  )
  advance-Counts (trying r w t) here mv ok =
      trying-Counts before i lt c r w t (ground (arith, inv.place i)) (q i == read_queue_index) refl
        (two i) (omega (arith, mv.readers)) (omega (arith, mv.writers)) (rewoken q n m i none lt)
        (rewoken q n m i waiting lt)
  advance-Counts asleep here mv ok = ground (
    arith,
    mv.readers,
    mv.writers,
    inv.readers_is,
    inv.writers_is,
    inv.token,
    two i,
    inv.local_facts i,
    rewoken q n m i none lt,
  )
  advance-Counts unlinking here mv ok =
      let cleared = rewoken q n m i none lt in
      record {
        readers_is = ground (
          arith,
          mv.readers,
          before.readers_is,
          inv.local_facts i,
          cleared.readers,
          cleared.reader,
        );
        writers_is = ground (
          arith,
          mv.writers,
          before.writers_is,
          two i,
          inv.local_facts i,
          inv.place i,
          cleared.writers,
          length-erase i m.write_queue,
        );
        token = ground (arith, mv.writers, before.token, two i, inv.local_facts i, cleared.writers);
      }
  advance-Counts (releasing r w t) here mv ok = ground (
    arith,
    mv.readers,
    mv.writers,
    mv.reader,
    inv.readers_is,
    inv.writers_is,
    inv.token,
    inv.local_facts i,
  )
  advance-Counts (flip r w t) here mv ok = ground (
    arith,
    mv.readers,
    mv.writers,
    mv.reader,
    inv.readers_is,
    inv.writers_is,
    inv.token,
    length-enqueue q write_queue_index m.write_queue m.inbox,
  )
  advance-Counts (handing r w t) here mv ok =
      let (one, some, (v, vs, e)) = handing_cases two inv i lt c r w t here in
      let delivered = length-enqueue q write_queue_index m.write_queue m.inbox in
      record {
        readers_is = ground (arith, mv.readers, mv.reader, before.readers_is);
        writers_is =
            ground (arith, mv.writers, before.writers_is, before.token, ap length e, delivered);
        token = ground (arith, mv.writers, before.token);
      }
  advance-Counts (looping b r w t) here mv ok =
      let delivered = length-enqueue q write_queue_index m.write_queue m.inbox in
      elim (looping_cases two inv i lt c b r w t here) [
        | inl (r_is, one, e) ↦ record {
          readers_is = ground (arith, mv.readers, before.readers_is, inv.local_facts i);
          writers_is = ground (
            arith,
            mv.writers,
            before.writers_is,
            before.token,
            inv.local_facts i,
            ap length e,
            delivered,
          );
          token = ground (arith, mv.writers, mv.writer, before.token, inv.local_facts i);
        }
        | inr (r_is, more, (v, vs, e)) ↦ record {
          readers_is = ground (arith, mv.readers, before.readers_is, inv.local_facts i);
          writers_is = ground (
            arith,
            mv.writers,
            before.writers_is,
            before.token,
            inv.local_facts i,
            ap length e,
            delivered,
          );
          token = ground (arith, mv.writers, mv.writer, before.token, inv.local_facts i);
        }
      ]
  advance-Counts (adding r w t list) here mv ok = ground (
    arith,
    mv.readers,
    mv.writers,
    mv.reader,
    inv.readers_is,
    inv.writers_is,
    inv.token,
    inv.local_facts i,
  )
  advance-Counts (waking_all []) here mv ok =
      ground (arith, mv.readers, mv.writers, mv.reader, inv.readers_is, inv.writers_is, inv.token)
  advance-Counts (waking_all (w ∷ ws)) here mv ok =
      let (below, waits) = target two inv i lt c w (ground arith) in
      let set = rewoken q n m w done below in
      record {
        readers_is = ground (arith, mv.readers, before.readers_is, inv.local_facts i, set.readers);
        writers_is = ground (arith, mv.writers, before.writers_is, inv.local_facts i, set.writers);
        token = ground (arith, mv.writers, before.token, inv.local_facts i, set.writers);
      }
  advance-Counts (waking w) here mv ok =
      let (below, waits) = target two inv i lt c w (ground arith) in
      ground (
        arith,
        mv.readers,
        mv.writers,
        mv.writer,
        inv.readers_is,
        inv.writers_is,
        inv.token,
        inv.local_facts i,
        rewoken q n m w done below,
      )
  advance-Counts p here mv ok = ground (
    arith,
    mv.readers,
    mv.writers,
    mv.reader,
    mv.writer,
    inv.readers_is,
    inv.writers_is,
    inv.token,
    inv.local_facts i,
  )
