-- ===== src/Mpsc/Tests.antt =====
-- A channel of capacity 2 with two messages in it, which a third sender waits for, or of which one is
-- received, and its packings.
use async_mutex.Common.{
  ℕ, ◌+◌, ◌<◌, ◌≤◌, ◌≡◌, ◌≢◌, refl, arith, some, List, [], ◌∷◌, length, tally, ◌++◌, false,
}
use async_mutex.Mpsc.{
  System, go, act, recv_act, send_round, put_message, write_bucket, poll_enter, borrow, take_round,
  pop, step, recv_step, new, fresh, received,
}
use async_mutex.Mpsc.Waiting.{waiters, cancelling, guarding, Known}
use async_mutex.Atomic.{from_bool}
use async_mutex.Mpsc.Ring.{wrap, inside}
use async_mutex.Mpsc.Slots.{used, between, claims, owns}
use async_mutex.Mpsc.History.{History}
use async_mutex.Mpsc.Delivery.{mpsc_never_panics, ring_is_exact, fifo}
use async_mutex.Mpsc.Safety.{waiting_is_full}
use async_mutex.Mpsc.Bounds.{Reach, start, receives, sends}

-- Task `i` sends `i + 40`.
abbrev payload : ℕ → ℕ
payload i = i + 40

abbrev send_go : ℕ → System → System
send_go i s = step 2 payload i go s

-- A sender that finds room sends in five steps.
abbrev send_all : ℕ → System → System
send_all i s = send_go i (send_go i (send_go i (send_go i (send_go i s))))

abbrev full : System
full = send_all 2 (send_all 1 fresh)

abbrev recv_go : System → System
recv_go s = recv_step 2 go s

abbrev emptied : System
emptied = recv_go (recv_go (recv_go (recv_go (recv_go (recv_go (recv_go (recv_go full)))))))

-- The first message is the first that was sent, and it leaves room for another.
emptied-received :
    (emptied.rc ≡ received 41) × (emptied.mem.size ≡ 1) × (emptied.mem.panicked ≡ false)
unfolding step recv_step act recv_act send_round put_message write_bucket take_round pop
emptied-received = (refl, refl, refl)

new-fresh : new 2 ≡ some fresh
unfolding new
new-fresh = refl

send_go-Reach :
    {s : System} (i : ℕ) → i ≢ 0 → i < 4 → Reach 2 payload 4 s → Reach 2 payload 4 (send_go i s)
send_go-Reach i ne lt r = sends i go ne lt r

send_all-Reach :
    {s : System} (i : ℕ) → i ≢ 0 → i < 4 → Reach 2 payload 4 s → Reach 2 payload 4 (send_all i s)
send_all-Reach i ne lt r = send_go-Reach i ne lt (
    send_go-Reach i ne lt (send_go-Reach i ne lt (send_go-Reach i ne lt (send_go-Reach i ne lt r))))

full-Reach : Reach 2 payload 4 full
full-Reach =
    send_all-Reach 2 (omega arith) (omega arith)
      (send_all-Reach 1 (omega arith) (omega arith) (start new-fresh))

-- Task 3 finds the channel full.
abbrev crowded : System
crowded = send_go 3 (send_go 3 full)

crowded-waiters : waiters crowded.mem ≡ 1
unfolding step act send_round put_message write_bucket poll_enter
crowded-waiters = refl

crowded-Reach : Reach 2 payload 4 crowded
crowded-Reach =
    send_go-Reach 3 (omega arith) (omega arith)
      (send_go-Reach 3 (omega arith) (omega arith) full-Reach)

waiting_is_full_example :
    (1 ≤ waiters crowded.mem → crowded.mem.size ≡ 2)
    × ((i : ℕ) → i < 4 → cancelling (crowded.pc i) ≡ 1 → guarding crowded.rc ≡ 0)
    × ((head result : ℕ) → crowded.rc ≡ borrow head result → crowded.mem.borrowed ≡ false)
    × Known 2 crowded.mem crowded.rc
waiting_is_full_example = waiting_is_full crowded-Reach

recv_go-Reach : {s : System} → Reach 2 payload 4 s → Reach 2 payload 4 (recv_go s)
recv_go-Reach r = receives go r

emptied-Reach : Reach 2 payload 4 emptied
emptied-Reach = recv_go-Reach (
    recv_go-Reach (
      recv_go-Reach
        (recv_go-Reach (recv_go-Reach (recv_go-Reach (recv_go-Reach (recv_go-Reach full-Reach)))))))

mpsc_never_panics_example : emptied.mem.panicked ≡ false
mpsc_never_panics_example = mpsc_never_panics emptied-Reach

ring_is_exact_example :
    (emptied.mem.write_head ≡ wrap 2 (emptied.mem.recv_head + used emptied.mem emptied.rc))
    × ((at : ℕ)
        → at < 2
        → from_bool (emptied.mem.filled at) + tally (claims at) 4 emptied.pc + owns at emptied.rc
          ≡ inside 2 emptied.mem.recv_head (used emptied.mem emptied.rc) at)
ring_is_exact_example = ring_is_exact emptied-Reach

-- Both messages got a place, and the receiver has read the first.
emptied-History : History 2 payload 4 emptied (41 ∷ 42 ∷ []) (41 ∷ [])
unfolding step recv_step act recv_act send_round put_message write_bucket take_round pop
emptied-History = History.receives go (
    History.receives go (
      History.receives go (
        History.receives go (
          History.receives go (
            History.receives go (
              History.receives go (
                History.receives go (
                  History.sends 2 go (omega arith) (omega arith) (
                    History.sends 2 go (omega arith) (omega arith) (
                      History.sends 2 go (omega arith) (omega arith) (
                        History.sends 2 go (omega arith) (omega arith) (
                          History.sends 2 go (omega arith) (omega arith) (
                            History.sends 1 go (omega arith) (omega arith) (
                              History.sends 1 go (omega arith) (omega arith) (
                                History.sends 1 go (omega arith) (omega arith) (
                                  History.sends 1 go (omega arith) (omega arith) (
                                    History.sends 1 go (omega arith) (omega arith)
                                      (History.start new-fresh))))))))))))))))))

fifo_example :
    (rest : List ℕ) × (41 ∷ 42 ∷ [] ≡ (41 ∷ []) ++ rest)
    × (length rest + between emptied.rc ≡ emptied.mem.size)
fifo_example = fifo emptied-History
