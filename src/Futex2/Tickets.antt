-- ===== src/Futex2/Tickets.antt =====
-- futex2/mod.rs: the counters `waits` and `notifies` give every wait an iteration of its own, and every
-- iteration to one `notify`.
use async_mutex.Common.{
  ℕ, ◌+◌, ◌≤◌, ◌<◌, ◌≡◌, refl, arith, Bool, not, ◌&&◌, ltb, ◌==◌, if◌then◌else◌, tally,
  tally-eq-zero, tally-update, update,
}
use async_mutex.Futex2.{
  Shared, Pc, resting, visiting, visit, taking, joining, checking, pending, polling, Choice, act,
  add_round, visit_round, sweep, install, next_round, join_round, waiting_round, System, Event,
  wait_if, notify, run, begin, step, Reach, start, later, empty, woken, waiting, waking, tombstone,
  loading, adding, expanding, sweeping, installing, pushing, entering, finished,
}

-- A wait has the iteration `k` of the generation `g`.
abbrev pub waits_at : (g k : ℕ) → Pc → ℕ
waits_at g k (joining h l current) = if (h == g) && (l == k) then 1 else 0
waits_at g k (checking h l) = if (h == g) && (l == k) then 1 else 0
waits_at g k (pending h l) = if (h == g) && (l == k) then 1 else 0
waits_at g k (polling h l current) = if (h == g) && (l == k) then 1 else 0
waits_at g k _ = 0

-- A `notify` is about to notify the iteration `k` of the generation `g`.
abbrev pub notifies_at : (g k : ℕ) → Pc → ℕ
notifies_at g k (visiting h l stop) = if (h == g) && (not (ltb k l) && ltb k stop) then 1 else 0
notifies_at g k (visit h l stop old) = if (h == g) && (not (ltb k l) && ltb k stop) then 1 else 0
notifies_at g k _ = 0

-- The iteration `k` of the generation `g` is still to be given out, of the counter `used`.
abbrev pub ahead : (generation used g k : ℕ) → ℕ
ahead generation used g k =
    if ltb g generation then 0 else if g == generation then (if ltb k used then 0 else 1) else 1

module _ (i : ℕ) (b : Bool) (c : Choice) (m : Shared) (counted : m.notifies ≤ m.waits)
    (g k : ℕ) where
  abbrev Given : Pc → Type 0
  Given p =
      (ahead (act b i c m p).0.generation (act b i c m p).0.waits g k
          + waits_at g k (act b i c m p).1
        ≤ ahead m.generation m.waits g k + waits_at g k p)
      × (ahead (act b i c m p).0.generation (act b i c m p).0.notifies g k
            + notifies_at g k (act b i c m p).1
          ≤ ahead m.generation m.notifies g k + notifies_at g k p)
      × ((act b i c m p).0.notifies ≤ (act b i c m p).0.waits)
      × (m.generation < m.made → (act b i c m p).0.generation < (act b i c m p).0.made)

  act-Given : m.generation < m.made → (p : Pc) → Given p
  unfolding act add_round visit_round sweep install join_round next_round waiting_round
  act-Given new resting = ground arith
  act-Given new (loading a) = ground arith
  act-Given new (adding a h w n) = ground arith
  act-Given new (visiting h l s) = ground arith
  act-Given new (visit h l s (empty o)) = ground arith
  act-Given new (visit h l s (woken o)) = ground arith
  act-Given new (visit h l s (waiting o)) = ground arith
  act-Given new (visit h l s waking) = ground arith
  act-Given new (visit h l s tombstone) = ground arith
  act-Given new (expanding h) = ground arith
  act-Given new (sweeping h j) = ground arith
  act-Given new (installing h) = ground arith
  act-Given new pushing = ground arith
  act-Given new entering = ground arith
  act-Given new (taking h w n) = ground arith
  act-Given new (joining h l (empty o)) = ground arith
  act-Given new (joining h l (woken o)) = ground arith
  act-Given new (joining h l (waiting o)) = ground arith
  act-Given new (joining h l waking) = ground arith
  act-Given new (joining h l tombstone) = ground arith
  act-Given new (checking h l) = ground arith
  act-Given new (pending h l) = ground arith
  act-Given new (polling h l (empty o)) = ground arith
  act-Given new (polling h l (woken o)) = ground arith
  act-Given new (polling h l (waiting o)) = ground arith
  act-Given new (polling h l waking) = ground arith
  act-Given new (polling h l tombstone) = ground arith
  act-Given new finished = ground arith

-- What the counters say in every state.
pub record Inv (n : ℕ) (s : System) : Type 0 where
  pub counted : s.mem.notifies ≤ s.mem.waits
  pub new : s.mem.generation < s.mem.made
  pub waits : (g k : ℕ) → ahead s.mem.generation s.mem.waits g k + tally (waits_at g k) n s.pc ≤ 1
  pub notified :
      (g k : ℕ) → ahead s.mem.generation s.mem.notifies g k + tally (notifies_at g k) n s.pc ≤ 1

begin-waits_at :
    (g k : ℕ) (q p : Pc) → waits_at g k q ≡ 0 → waits_at g k (begin q p) ≤ waits_at g k p
begin-waits_at g k q p h = ground arith

begin-notifies_at :
    (g k : ℕ) (q p : Pc) → notifies_at g k q ≡ 0 → notifies_at g k (begin q p) ≤ notifies_at g k p
begin-notifies_at g k q p h = ground arith

module _ {n : ℕ} {s : System} (inv : Inv n s) (i : ℕ) (lt : i < n) where
  begin-Inv :
      (q : Pc)
      → ((g k : ℕ) → waits_at g k q ≡ 0)
      → ((g k : ℕ) → notifies_at g k q ≡ 0)
      → Inv n (record s { pc = update s.pc i (begin q (s.pc i)) })
  begin-Inv q w v = record {
    counted = inv.counted;
    new = inv.new;
    waits = λ g k. omega (
      arith,
      inv.waits g k,
      tally-update (waits_at g k) n s.pc i (begin q (s.pc i)) lt,
      begin-waits_at g k q (s.pc i) (w g k),
    );
    notified = λ g k. omega (
      arith,
      inv.notified g k,
      tally-update (notifies_at g k) n s.pc i (begin q (s.pc i)) lt,
      begin-notifies_at g k q (s.pc i) (v g k),
    );
  }

  step-Inv : (e : Event) → Inv n (step i e s)
  unfolding step
  step-Inv wait_if = begin-Inv entering (λ g k. refl) (λ g k. refl)
  step-Inv (notify a) = begin-Inv (loading a) (λ g k. refl) (λ g k. refl)
  step-Inv (run b c) =
      let given : (g k : ℕ) → Given i b c s.mem inv.counted g k (s.pc i) =
        λ g k. act-Given i b c s.mem inv.counted g k inv.new (s.pc i) in
      let after = (act b i c s.mem (s.pc i)).1 in
      record {
        counted = (given 0 0).2;
        new = (given 0 0).3 inv.new;
        waits = λ g k.
            omega
              (arith, inv.waits g k, tally-update (waits_at g k) n s.pc i after lt, (given g k).0);
        notified = λ g k. omega (
          arith,
          inv.notified g k,
          tally-update (notifies_at g k) n s.pc i after lt,
          (given g k).1,
        );
      }

pub Reach-Inv : {cap n : ℕ} {s : System} → Reach cap n s → Inv n s
Reach-Inv {n} start = record {
  counted = omega arith;
  new = omega arith;
  waits = λ g k. ground (arith, tally-eq-zero (waits_at g k) n (λ _. resting) (λ _. refl));
  notified = λ g k. ground (arith, tally-eq-zero (notifies_at g k) n (λ _. resting) (λ _. refl));
}
Reach-Inv (later i e lt r) = step-Inv (Reach-Inv r) i lt e

-- In every state that the tasks of a queue reach, `notifies` is at most `waits`; no two waits have the
-- same iteration of a generation and none has one that `waits` has not given out yet; no two calls of
-- `notify` are about to notify the same iteration, and none one that `notifies` has not passed.
pub iterations_are_unique :
    {cap n : ℕ} {s : System}
    → Reach cap n s
    → (s.mem.notifies ≤ s.mem.waits)
      × ((g k : ℕ)
          → (ahead s.mem.generation s.mem.waits g k + tally (waits_at g k) n s.pc ≤ 1)
            × (ahead s.mem.generation s.mem.notifies g k + tally (notifies_at g k) n s.pc ≤ 1))
iterations_are_unique r =
    let inv = Reach-Inv r in (inv.counted, λ g k. (inv.waits g k, inv.notified g k))
