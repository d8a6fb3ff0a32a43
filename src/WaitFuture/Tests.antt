-- ===== src/WaitFuture/Tests.antt =====
-- The life of one waiter: two polls with different wakers, a wake between them, and the end.
use async_mutex.Common.{◌≡◌, refl, true, false}
use async_mutex.WaitFuture.{
  State, ready, gone, new, poll, round, wake_waiter, drop_future, drop_slot, act, step,
}
use async_mutex.WaitFuture.Accounts.{Reach, start, later, no_leak, wait_never_panics}

-- Polled with waker 7, polled again with waker 8; it was woken while the second poll ran.
abbrev woken : State
woken =
    step (round false)
      (step (round false) (step wake_waiter (step (poll 8 true) (step (poll 7 true) new))))

woken-Reach : Reach woken
unfolding step act
woken-Reach = later (round false) tt (
    later (round false) tt
      (later wake_waiter refl (later (poll 8 true) tt (later (poll 7 true) tt start))))

-- Cancelled after the second poll has put its waker in place.
abbrev cancelled : State
cancelled =
    step drop_slot
      (step (drop_future true) (step (round false) (step (poll 8 true) (step (poll 7 true) new))))

cancelled-Reach : Reach cancelled
unfolding step act
cancelled-Reach = later drop_slot tt (
    later (drop_future true) refl
      (later (round false) tt (later (poll 8 true) tt (later (poll 7 true) tt start))))

woken-ready : woken.phase ≡ ready
unfolding step act
woken-ready = refl

cancelled-gone : cancelled.phase ≡ gone
unfolding step act
cancelled-gone = refl

-- A callback that panics, as `todo!()` does: the waker is dropped a second time with its waiter.
abbrev unwound : State
unwound = step drop_slot (step (drop_future false) (step (poll 7 true) new))

unwound-released : (unwound.cloned 7 ≡ 1) × (unwound.released 7 ≡ 2)
unfolding step act
unwound-released = (refl, refl)

-- A completed future that is polled again panics.
polled_again : (step (poll 7 true) woken).panicked ≡ true
unfolding step act
polled_again = refl

no_leak_example : cancelled.cloned 8 ≡ cancelled.released 8
no_leak_example = no_leak cancelled-Reach cancelled-gone 8

wait_never_panics_example : woken.panicked ≡ false
wait_never_panics_example = wait_never_panics woken-Reach
