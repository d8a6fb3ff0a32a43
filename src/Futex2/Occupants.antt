-- ===== src/Futex2/Occupants.antt =====
-- futex2/mod.rs: the buckets of a generation under every interleaving. A bucket that a wait has entered
-- is neither empty nor woken as long as the wait is there.
use mathlib.Core.Path.{subst}
use native.Mathlib.Decide.{dec_lt, ℕ_discrete}
use async_mutex.Common.{
  ℕ, ◌+◌, ◌%◌, ◌≤◌, ◌<◌, ◌≡◌, refl, arith, Bool, false, ◌&&◌, ◌==◌, if◌then◌else◌, tally, tally-ge,
  tally-eq-zero, tally-update, update, update_self, update-ne, sym,
}
use async_mutex.Futex2.{
  Shared, Pc, resting, visiting, visit, taking, joining, checking, pending, polling, Choice, act,
  add_round, visit_round, sweep, install, next_round, join_round, waiting_round, System, Event,
  wait_if, notify, run, begin, step, Reach, start, later, Bucket, empty, woken, waiting, waking,
  tombstone, loading, adding, expanding, sweeping, installing, pushing, entering, finished,
}

-- A wait has entered the bucket `at` of the generation `g`, which has `cap` buckets.
abbrev pub occupies : (cap g at : ℕ) → Pc → ℕ
occupies cap g at (checking h k) = if (h == g) && (k % cap == at) then 1 else 0
occupies cap g at (pending h k) = if (h == g) && (k % cap == at) then 1 else 0
occupies cap g at (polling h k old) = if (h == g) && (k % cap == at) then 1 else 0
occupies cap g at _ = 0

-- No wait is in the bucket.
abbrev pub vacant : Bucket → ℕ
vacant (empty k) = 1
vacant (woken k) = 1
vacant _ = 0

-- What a task has read of its bucket, and that its generation is there.
abbrev pub Known : (made : ℕ) → Pc → Type 0
Known made (taking g w n) = g < made
Known made (joining g k old) = g < made
Known made (checking g k) = g < made
Known made (pending g k) = g < made
Known made (polling g k old) = (g < made) × (vacant old ≡ 0)
Known made _ = Unit

module _ (i : ℕ) (b : Bool) (c : Choice) (m : Shared) where
  abbrev Kept : (g at : ℕ) → Pc → Type 0
  Kept g at p =
      (vacant ((act b i c m p).0.bucket g at)
          + occupies ((act b i c m p).0.capacity g) g at (act b i c m p).1
        ≤ vacant (m.bucket g at) + occupies (m.capacity g) g at p)
      × ((act b i c m p).0.capacity g ≡ m.capacity g)
      × (m.made ≤ (act b i c m p).0.made)
      × (m.generation < m.made → (act b i c m p).0.generation < (act b i c m p).0.made)
      × (m.unreachable ≡ false → (act b i c m p).0.unreachable ≡ false)

  act-Kept : (g at : ℕ) → g < m.made → (p : Pc) → Known m.made p → Kept g at p
  unfolding act add_round visit_round sweep install join_round next_round waiting_round
  act-Kept g at lt resting k = ground arith
  act-Kept g at lt (loading a) k = ground arith
  act-Kept g at lt (adding a h w n) k = ground arith
  act-Kept g at lt (visiting h l s) k = ground arith
  act-Kept g at lt (visit h l s (empty o)) k = ground arith
  act-Kept g at lt (visit h l s (woken o)) k = ground arith
  act-Kept g at lt (visit h l s (waiting o)) k = ground arith
  act-Kept g at lt (visit h l s waking) k = ground arith
  act-Kept g at lt (visit h l s tombstone) k = ground arith
  act-Kept g at lt (expanding h) k = ground arith
  act-Kept g at lt (sweeping h j) k = ground arith
  act-Kept g at lt (installing h) k = ground arith
  act-Kept g at lt pushing k = ground arith
  act-Kept g at lt entering k = ground arith
  act-Kept g at lt (taking h w n) k = ground arith
  act-Kept g at lt (joining h l (empty o)) k = ground arith
  act-Kept g at lt (joining h l (woken o)) k = ground arith
  act-Kept g at lt (joining h l (waiting o)) k = ground arith
  act-Kept g at lt (joining h l waking) k = ground arith
  act-Kept g at lt (joining h l tombstone) k = ground arith
  act-Kept g at lt (checking h l) k = ground arith
  act-Kept g at lt (pending h l) k = ground arith
  act-Kept g at lt (polling h l (empty o)) k = ground arith
  act-Kept g at lt (polling h l (woken o)) k = ground arith
  act-Kept g at lt (polling h l (waiting o)) k = ground arith
  act-Kept g at lt (polling h l waking) k = ground arith
  act-Kept g at lt (polling h l tombstone) k = ground arith
  act-Kept g at lt finished k = ground arith

  module _ (new : m.generation < m.made) (p : Pc) (known : Known m.made p)
      (one : (g at : ℕ)
        → g < m.made
        → vacant (m.bucket g at) + occupies (m.capacity g) g at p ≤ 1) where
    pending-vacant : (g k : ℕ) → p ≡ pending g k → vacant (m.bucket g (k % m.capacity g)) ≡ 0
    pending-vacant g k here =
        ground (arith, one g (k % m.capacity g) (subst (Known m.made) here known), here)

    polling-vacant :
        (g k : ℕ) (old : Bucket) → p ≡ polling g k old → vacant (m.bucket g (k % m.capacity g)) ≡ 0
    polling-vacant g k old here =
        ground (arith, one g (k % m.capacity g) (subst (Known m.made) here known).0, here)

    act-Known : (q : Pc) → p ≡ q → Known m.made q → Known m.made (act b i c m q).1
    unfolding act add_round visit_round sweep install join_round next_round waiting_round
    act-Known resting here k = ground arith
    act-Known (loading a) here k = ground arith
    act-Known (adding a h w n) here k = ground arith
    act-Known (visiting h l s) here k = ground arith
    act-Known (visit h l s (empty o)) here k = ground arith
    act-Known (visit h l s (woken o)) here k = ground arith
    act-Known (visit h l s (waiting o)) here k = ground arith
    act-Known (visit h l s waking) here k = ground arith
    act-Known (visit h l s tombstone) here k = ground arith
    act-Known (expanding h) here k = ground arith
    act-Known (sweeping h j) here k = ground arith
    act-Known (installing h) here k = ground arith
    act-Known pushing here k = ground arith
    act-Known entering here k = ground arith
    act-Known (taking h w n) here k = ground arith
    act-Known (joining h l (empty o)) here k = ground arith
    act-Known (joining h l (woken o)) here k = ground arith
    act-Known (joining h l (waiting o)) here k = ground arith
    act-Known (joining h l waking) here k = ground arith
    act-Known (joining h l tombstone) here k = ground arith
    act-Known (checking h l) here k = ground arith
    act-Known (pending h l) here k = ground (arith, pending-vacant h l here)
    act-Known (polling h l (empty o)) here k = ground (arith, polling-vacant h l (empty o) here)
    act-Known (polling h l (woken o)) here k = ground (arith, polling-vacant h l (woken o) here)
    act-Known (polling h l (waiting o)) here k = ground (arith, polling-vacant h l (waiting o) here)
    act-Known (polling h l waking) here k = ground (arith, polling-vacant h l waking here)
    act-Known (polling h l tombstone) here k = ground (arith, polling-vacant h l tombstone here)
    act-Known finished here k = tt

pub record Inv (n : ℕ) (s : System) : Type 0 where
  pub new : s.mem.generation < s.mem.made
  pub one :
      (g at : ℕ)
      → g < s.mem.made
      → vacant (s.mem.bucket g at) + tally (occupies (s.mem.capacity g) g at) n s.pc ≤ 1
  pub known : (j : ℕ) → Known s.mem.made (s.pc j)
  pub reached : s.mem.unreachable ≡ false

Known-mono : (a b : ℕ) → a ≤ b → (p : Pc) → Known a p → Known b p
Known-mono a b h p k = ground arith

vacant-le : (b : Bucket) → vacant b ≤ 1
vacant-le b = ground arith

occupies-old : (made cap g at : ℕ) → made ≤ g → (p : Pc) → Known made p → occupies cap g at p ≡ 0
occupies-old made cap g at h p k = ground arith

begin-occupies :
    (cap g at : ℕ) (q p : Pc)
    → occupies cap g at q ≡ 0
    → occupies cap g at (begin q p) ≤ occupies cap g at p
begin-occupies cap g at q p h = ground arith

begin-Known : (made : ℕ) (q p : Pc) → Known made q → Known made p → Known made (begin q p)
begin-Known made q p h k = ground arith

module _ {n : ℕ} {s : System} (inv : Inv n s) (i : ℕ) (lt : i < n) where
  update-Known : (p' : Pc) → Known s.mem.made p' → (j : ℕ) → Known s.mem.made (update s.pc i p' j)
  update-Known p' h j = elim (ℕ_discrete j i) [
    | yes e ↦ subst (Known s.mem.made) (sym (rw e (update_self s.pc i p'))) h
    | no ne ↦ subst (Known s.mem.made) (sym (update-ne s.pc i p' j ne)) (inv.known j)
  ]

  begin-Inv :
      (q : Pc)
      → ((cap g at : ℕ) → occupies cap g at q ≡ 0)
      → Known s.mem.made q
      → Inv n (record s { pc = update s.pc i (begin q (s.pc i)) })
  begin-Inv q w k = record {
    new = inv.new;
    one = λ g at h. omega (
      arith,
      inv.one g at h,
      tally-update (occupies (s.mem.capacity g) g at) n s.pc i (begin q (s.pc i)) lt,
      begin-occupies (s.mem.capacity g) g at q (s.pc i) (w (s.mem.capacity g) g at),
    );
    known = update-Known (begin q (s.pc i)) (begin-Known s.mem.made q (s.pc i) k (inv.known i));
    reached = inv.reached;
  }

  run-Inv : (b : Bool) (c : Choice) → Inv n (step i (run b c) s)
  unfolding step
  run-Inv b c =
      let own : (g at : ℕ)
          → g < s.mem.made
          → vacant (s.mem.bucket g at) + occupies (s.mem.capacity g) g at (s.pc i) ≤ 1 =
        λ g at h.
          omega (arith, inv.one g at h, tally-ge (occupies (s.mem.capacity g) g at) n s.pc i lt) in
      let kept : (g at : ℕ) → g < s.mem.made → Kept i b c s.mem g at (s.pc i) =
        λ g at h. act-Kept i b c s.mem g at h (s.pc i) (inv.known i) in
      let known : (j : ℕ) → Known s.mem.made (update s.pc i (act b i c s.mem (s.pc i)).1 j) =
        update-Known (act b i c s.mem (s.pc i)).1
          (act-Known i b c s.mem inv.new (s.pc i) (inv.known i) own (s.pc i) refl (inv.known i)) in
      let (smaller, same, more, new, reached) = kept s.mem.generation 0 inv.new in
      let cap' = (act b i c s.mem (s.pc i)).0.capacity in
      record {
        new = new inv.new;
        one = λ g at h. elim (dec_lt g s.mem.made) [
          | yes old ↦ rw (kept g at old).1 (
              omega (
                arith,
                inv.one g at old,
                tally-update (occupies (s.mem.capacity g) g at) n s.pc i
                    (act b i c s.mem (s.pc i)).1 lt,
                rw (kept g at old).1 at (kept g at old).0,
              ))
          | no fresh ↦ omega (
            arith,
            vacant-le ((act b i c s.mem (s.pc i)).0.bucket g at),
            tally-eq-zero (occupies (cap' g) g at) n (update s.pc i (act b i c s.mem (s.pc i)).1)
                (λ j.
                  occupies-old s.mem.made (cap' g) g at (omega arith)
                    (update s.pc i (act b i c s.mem (s.pc i)).1 j) (known j)),
          )
        ];
        known = λ j.
            Known-mono s.mem.made (act b i c s.mem (s.pc i)).0.made more
              (update s.pc i (act b i c s.mem (s.pc i)).1 j) (known j);
        reached = reached inv.reached;
      }

  step-Inv : (e : Event) → Inv n (step i e s)
  unfolding step
  step-Inv wait_if = begin-Inv entering (λ cap g at. refl) tt
  step-Inv (notify a) = begin-Inv (loading a) (λ cap g at. refl) tt
  step-Inv (run b c) = run-Inv b c

pub Reach-Inv : {cap n : ℕ} {s : System} → Reach cap n s → Inv n s
Reach-Inv {n} start = record {
  new = omega arith;
  one = λ g at h. omega (arith, tally-eq-zero (occupies _ g at) n (λ _. resting) (λ _. refl));
  known = λ j. tt;
  reached = refl;
}
Reach-Inv (later i e lt r) = step-Inv (Reach-Inv r) i lt e

-- In every state that the tasks of a queue reach, the `unreachable!()` of `poll_waiting` was not
-- reached; in each bucket of each generation there is at most one wait that has entered it, and none
-- while the bucket is empty or woken.
pub occupants_are_unique :
    {cap n : ℕ} {s : System}
    → Reach cap n s
    → (s.mem.unreachable ≡ false)
      × ((g at : ℕ)
          → g < s.mem.made
          → vacant (s.mem.bucket g at) + tally (occupies (s.mem.capacity g) g at) n s.pc ≤ 1)
occupants_are_unique r = let inv = Reach-Inv r in (inv.reached, inv.one)
