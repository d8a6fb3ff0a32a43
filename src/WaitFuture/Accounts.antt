-- ===== src/WaitFuture/Accounts.antt =====
-- Every waker that futex/wait_future.rs clones is dropped or used up exactly once, and a wait ends
-- only by a wake.
use async_mutex.Common.{ℕ, ◌+◌, ◌≤◌, ◌≡◌, ◌≢◌, refl, arith, true, false, ◌==◌, if◌then◌else◌}
use async_mutex.WaitFuture.{
  WaiterWaker, none, done, Phase, enter, polling, ready, lost, dropped, gone, State, new, Event,
  poll, wake_waiter, drop_future, retry, act, step,
}

-- The clones of waker `k` that are held: in the slot of the waiter, and by a poll that is under way.
abbrev pub in_slot : ℕ → WaiterWaker → ℕ
in_slot k (WaiterWaker.waiting w) = if w == k then 1 else 0
in_slot k _ = 0

abbrev pub in_poll : ℕ → Phase → ℕ
in_poll k (polling w seen) = if w == k then 1 else 0
in_poll k _ = 0

-- After `Waiter::drop` the slot does not count.
abbrev pub held : ℕ → Phase → WaiterWaker → ℕ
held k gone slot = 0
held k p slot = in_slot k slot + in_poll k p

-- What the phase says about the slot and the number of wakes.
abbrev pub Local : Phase → WaiterWaker → ℕ → Type 0
Local Phase.waiting (WaiterWaker.waiting w) n = n ≡ 0
Local Phase.waiting done n = n ≡ 1
Local Phase.waiting none n = ⊥
Local (polling k none) slot n = ⊥
Local (polling k (WaiterWaker.waiting w)) (WaiterWaker.waiting v) n = n ≡ 0
Local (polling k (WaiterWaker.waiting w)) done n = n ≡ 1
Local (polling k (WaiterWaker.waiting w)) none n = ⊥
Local (polling k done) slot n = (slot ≡ done) × (n ≡ 1)
Local ready slot n = (slot ≡ done) × (n ≡ 1)
Local enter slot n = (slot ≢ done) × (n ≡ 0)
Local lost slot n = (slot ≢ done) × (n ≡ 0)
Local dropped slot n = n ≤ 1
Local gone slot n = n ≤ 1

pub record Inv (s : State) : Type 0 where
  pub balanced : (k : ℕ) → s.cloned k ≡ s.released k + held k s.phase s.slot
  pub local_facts : Local s.phase s.slot s.wakes
  pub calm : s.panicked ≡ false

-- What the caller of an event promises: no future is polled again after `Ready(true)`; a waiter is
-- woken only while it is on the futex, and at most once; the callbacks of a dropped wait return; and a
-- waiter gets a new future only after a lost exchange.
abbrev pub IsAllowed : Event → Phase → (wakes : ℕ) → Type 0
IsAllowed (poll k wins) ready n = ⊥
IsAllowed wake_waiter Phase.waiting n = n ≡ 0
IsAllowed wake_waiter (polling k seen) n = n ≡ 0
IsAllowed wake_waiter p n = ⊥
IsAllowed (drop_future returns) p n = returns ≡ true
IsAllowed retry lost n = Unit
IsAllowed retry p n = ⊥
IsAllowed e p n = Unit

-- The states that such callers reach.
pub data Reach : State → Type 0 where
  start : Reach new
  later : {s : State} (e : Event) → IsAllowed e s.phase s.wakes → Reach s → Reach (step e s)

act-balanced :
    (e : Event) (p : Phase) (s : State)
    → s.phase ≡ p
    → IsAllowed e p s.wakes
    → Inv s
    → (k : ℕ)
    → (act e p s).cloned k ≡ (act e p s).released k + held k (act e p s).phase (act e p s).slot
unfolding act
act-balanced (poll w b) enter s here ok inv k = ground (arith, ok, inv.balanced k, inv.local_facts)
act-balanced (poll w b) lost s here ok inv k = ground (arith, ok, inv.balanced k, inv.local_facts)
act-balanced e p s here ok inv k = ground (arith, ok, inv.balanced k, inv.local_facts)

act-Local_facts :
    (e : Event) (p : Phase) (s : State)
    → s.phase ≡ p
    → IsAllowed e p s.wakes
    → Inv s
    → Local (act e p s).phase (act e p s).slot (act e p s).wakes
unfolding act
act-Local_facts (poll w b) enter s here ok inv = ground (arith, ok, inv.local_facts)
act-Local_facts (poll w b) lost s here ok inv = ground (arith, ok, inv.local_facts)
act-Local_facts e p s here ok inv = ground (arith, ok, inv.local_facts)

act-calm :
    (e : Event) (p : Phase) (s : State)
    → s.phase ≡ p
    → IsAllowed e p s.wakes
    → Inv s
    → (act e p s).panicked ≡ false
unfolding act
act-calm (poll w b) enter s here ok inv = ground (arith, ok, inv.local_facts, inv.calm)
act-calm (poll w b) lost s here ok inv = ground (arith, ok, inv.local_facts, inv.calm)
act-calm e p s here ok inv = ground (arith, ok, inv.local_facts, inv.calm)

new-Inv : Inv new
new-Inv = record { balanced = λ k. refl; local_facts = ((λ e. ground arith), refl); calm = refl }

step-Inv : {s : State} (e : Event) → IsAllowed e s.phase s.wakes → Inv s → Inv (step e s)
unfolding step
step-Inv {s} e ok inv = record {
  balanced = act-balanced e s.phase s refl ok inv;
  local_facts = act-Local_facts e s.phase s refl ok inv;
  calm = act-calm e s.phase s refl ok inv;
}

Reach-Inv : {s : State} → Reach s → Inv s
Reach-Inv start = new-Inv
Reach-Inv (later e ok r) = step-Inv e ok (Reach-Inv r)

-- In every state that the life of a waiter reaches, each waker was cloned as often as it was dropped
-- or woken, but for the clones in the waiter's slot and in a poll under way: nothing is dropped twice.
pub clones_balance :
    {s : State} → Reach s → (k : ℕ) → s.cloned k ≡ s.released k + held k s.phase s.slot
clones_balance r = (Reach-Inv r).balanced

-- When a waiter is dropped, each waker was dropped or woken as often as it was cloned: none is left
-- over, and none is dropped twice. This is for callers that poll no future after `Ready(true)`, wake
-- the waiter at most once and only while it is on the futex, make a new future for it only after a lost
-- exchange, and pass callbacks that return.
pub no_leak : {s : State} → Reach s → s.phase ≡ gone → (k : ℕ) → s.cloned k ≡ s.released k
no_leak {s} r at k = let eq = (Reach-Inv r).balanced k in ground (arith)

-- In every reachable state in which a future has returned `Ready(true)`, its waiter has been woken
-- exactly once.
pub ready_after_wake : {s : State} → Reach s → s.phase ≡ ready → s.wakes ≡ 1
ready_after_wake {s} r at = let facts = (Reach-Inv r).local_facts in ground (arith, facts)

-- No panic of `poll`, `Waiter::wake` and `WaitFuture::drop` is reached by callers that poll no future
-- after `Ready(true)`, wake the waiter at most once and only while it is on the futex, make a new
-- future for it only after a lost exchange, and pass callbacks that return.
pub wait_never_panics : {s : State} → Reach s → s.panicked ≡ false
wait_never_panics r = (Reach-Inv r).calm
