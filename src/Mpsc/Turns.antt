-- ===== src/Mpsc/Turns.antt =====
-- A step of the receiver of mpsc.rs keeps what the size and the heads say about the buckets.
use mathlib.Core.Path.{subst}
use native.Mathlib.Decide.{ℕ_discrete}
use async_mutex.Common.{
  ℕ, zero, suc, ◌+◌, ◌-◌, ◌%◌, ◌≤◌, ◌<◌, ◌≡◌, ◌≢◌, inl, inr, refl, sym, ap, ◌∙◌, arith, true, List,
  [], ◌∷◌, ◌++◌, reverse, length, ◌==◌, if◌then◌else◌, tally, List-cases,
}
use async_mutex.Atomic.{from_bool}
use async_mutex.Tasks.Counts.{empty_of_newest, enqueue-ne_nil}
use async_mutex.Mpsc.{
  Choice, newest, Shared, Pc, Rc, starting, taking, passing, taking_over, backfilling, recv_act,
  pop, put_message, pass_round, take_round, backfill, wake,
}
use async_mutex.Mpsc.Bounds.{InRange, ReceiverInRange}
use async_mutex.Mpsc.Waiting.{Inv, Known, newest-length}
use async_mutex.Mpsc.Ring.{
  wrap, wrap_mod, inside, inside_grow, inside_shift, wrap_grow, wrap_shift, wrap_last, inside_first,
  inside-le,
}
use async_mutex.Mpsc.Slots.{between, used, claims, owns, Behind, Occupied, Slots}

module _ {cap n : ℕ} {m : Shared} {pc : ℕ → Pc} {rc : Rc} (r : InRange cap m)
    (inv : Inv cap n m pc rc) (slots : Slots cap n m pc rc) (c : Choice) where
  recv_mem' : Rc → Shared
  recv_mem' p = (recv_act cap c m p).0

  abbrev Ringed : Rc → Type 0
  Ringed p =
      ((recv_mem' p).write_head
        ≡ wrap cap ((recv_mem' p).recv_head + used (recv_mem' p) (recv_act cap c m p).1))
      × (between (recv_act cap c m p).1 ≤ (recv_mem' p).size)
      × ((at : ℕ) → at < cap → Occupied cap n (recv_mem' p) pc (recv_act cap c m p).1 at)
      × Behind cap (recv_mem' p) (recv_act cap c m p).1

  recv_act-taking : rc ≡ taking → Ringed taking
  unfolding recv_act recv_mem'
  recv_act-taking here =
      let full : m.filled m.recv_head ≡ true = subst (Behind cap m) here slots.behind in
      let some_used : 1 ≤ used m rc =
        inside_first cap m.recv_head (used m rc)
          (ground (arith, slots.occupied m.recv_head r.recv_head-lt, full)) in
      let next = wrap_mod cap m.recv_head r.recv_head-lt in
      let same : between rc ≡ 0 = rw here refl in
      let fewer : used m rc ≡ m.size - 1 + 1 = omega arith in
      (
        rw next (
            slots.head_is
            ∙ sym (
                wrap_shift cap m.recv_head (used m rc) (m.size - 1) fewer r.recv_head-lt
                  (omega (arith, r.size-le)))),
        omega arith,
        λ at below. rw next (
            ground (
              arith,
              full,
              rw here at (slots.occupied at below),
              rw here at (
                  inside_shift cap m.recv_head (used m rc) (m.size - 1) at fewer r.recv_head-lt
                    below (omega (arith, r.size-le))),
              inside-le cap m.recv_head (used m taking) at,
            )),
        next,
      )

  -- The receiver takes the bucket that it emptied for a waiter.
  pass_on :
      (head : ℕ)
      → head < cap
      → m.size ≡ cap
      → between rc ≡ 1
      → ((at : ℕ) → owns at rc ≡ 0)
      → m.recv_head ≡ wrap cap (head + 1)
      → ((m.write_head + 1) % cap ≡ wrap cap (m.recv_head + m.size))
        × ((at : ℕ)
            → at < cap
            → from_bool (m.filled at) + tally (claims at) n pc + (if head == at then 1 else 0)
              ≡ inside cap m.recv_head m.size at)
  pass_on head below full one unowned next =
      let more : m.size ≡ used m rc + 1 = omega (arith, slots.room) in
      let room : used m rc < cap = omega arith in
      let last : wrap cap (m.recv_head + used m rc) ≡ head =
        rw next (wrap_last cap head (used m rc) (omega arith) below) in
      (
        wrap_mod cap m.write_head r.write_head-lt
            ∙ ap (λ h. wrap cap (h + 1)) slots.head_is
            ∙ wrap_grow cap m.recv_head (used m rc) m.size more r.recv_head-lt room,
        λ at inside_ring. omega (
          arith,
          slots.occupied at inside_ring,
          unowned at,
          inside_grow cap m.recv_head (used m rc) m.size at more r.recv_head-lt inside_ring room,
          ap {B = ℕ} (λ h. if h == at then 1 else 0) last,
        ),
      )

  passing-Ringed :
      (head x v h s t : ℕ)
      → rc ≡ passing head x v h s t
      → head < cap
      → Ringed (passing head x v h s t)
  unfolding recv_act recv_mem' pass_round
  passing-Ringed head x v h s t here below =
      let (full, known) = subst (Known cap m) here inv.known in
      let next = subst (Behind cap m) here slots.behind in
      let (heads, all) = pass_on head below full (rw here refl) (λ at. rw here refl) next in
      (
        ground (arith, heads, slots.head_is, here),
        ground (arith, slots.room, here),
        λ at inside_ring. ground (arith, all at inside_ring, slots.occupied at inside_ring, here),
        ground (arith, next),
      )

  nil_of_length : (ws : List ℕ) → length ws ≡ 0 → ws ≡ []
  nil_of_length [] h = refl
  nil_of_length (w ∷ ws) h = absurd (omega arith)

  -- With no waiter in the inbox and in the queue, none is popped.
  pub none_popped : length m.queue ≡ 0 → newest m.inbox ≡ 0 → m.queue ++ reverse m.inbox ≡ []
  none_popped h e = rw (nil_of_length m.queue h, empty_of_newest m.inbox e inv.no_null) refl

  pub one_popped :
      newest m.inbox ≢ 0 → (v : ℕ) × (vs : List ℕ) × (m.queue ++ reverse m.inbox ≡ v ∷ vs)
  one_popped ne = elim (List-cases (m.queue ++ reverse m.inbox)) [
    | inl e ↦ absurd (enqueue-ne_nil m.queue m.inbox ne e)
    | inr found ↦ found
  ]

  giving_back-Ringed :
      (head x h s : ℕ) → rc ≡ taking_over head x h s 0 → Ringed (taking_over head x h s 0)
  unfolding recv_act recv_mem' take_round pop
  giving_back-Ringed head x h s here =
      let (nobody, known) = subst (Known cap m) here inv.known in
      let (next, some_size) = subst (Behind cap m) here slots.behind in
      let quiet = none_popped nobody in
      (
        ground (arith, slots.head_is, here, quiet),
        ground (arith, slots.room, here, quiet),
        λ at inside_ring. ground (arith, slots.occupied at inside_ring, here, quiet),
        ground (arith, next, slots.room, here, quiet),
      )

  handing_on-Ringed :
      (head x h s t : ℕ)
      → rc ≡ taking_over head x h s (suc t)
      → head < cap
      → Ringed (taking_over head x h s (suc t))
  unfolding recv_act recv_mem' take_round pop
  handing_on-Ringed head x h s t here below =
      let (nobody, known) = subst (Known cap m) here inv.known in
      let (next, some_size) = subst (Behind cap m) here slots.behind in
      elim (ℕ_discrete (newest m.inbox) (suc t)) [
        | no other ↦ (
          ground (arith, slots.head_is, here),
          ground (arith, slots.room, here),
          λ at inside_ring. ground (arith, slots.occupied at inside_ring, here),
          ground (arith, next, slots.room, here),
        )
        | yes same ↦
            let (v, vs, e) = one_popped (omega arith) in
            let pass =
              pass_on head below (inv.full (omega (arith, newest-length m.inbox (omega arith))))
                (rw here refl) (λ at. rw here refl) next in
            (
              ground (arith, pass, slots.head_is, here, e),
              ground (arith, slots.room, here, e),
              λ at inside_ring.
                  ground (arith, pass.1 at inside_ring, slots.occupied at inside_ring, here, e),
              ground (arith, next, slots.room, here, e),
            )
      ]

  taking_over-Ringed :
      (head x h s t : ℕ)
      → rc ≡ taking_over head x h s t
      → head < cap
      → Ringed (taking_over head x h s t)
  taking_over-Ringed head x h s zero here below = giving_back-Ringed head x h s here
  taking_over-Ringed head x h s (suc t) here below = handing_on-Ringed head x h s t here below

  backfilling-Ringed :
      (head x v : ℕ) → rc ≡ backfilling head x v → head < cap → Ringed (backfilling head x v)
  unfolding recv_act recv_mem' put_message backfill
  backfilling-Ringed head x v here below = (
    ground (arith, slots.head_is, here),
    ground (arith, slots.room, here),
    λ at inside_ring.
        ground
          (arith, slots.occupied at inside_ring, inside-le cap m.recv_head (used m rc) at, here),
    ground (arith, slots.behind, here),
  )

  -- The steps that change neither the buckets nor the size.
  recv_act-Ringed : (p : Rc) → rc ≡ p → ReceiverInRange cap p → Ringed p
  unfolding recv_act recv_mem' pop wake
  recv_act-Ringed starting here range = (
    ground (arith, slots.head_is, here),
    ground (arith, slots.room, here),
    λ at inside_ring. ground (arith, slots.occupied at inside_ring, here),
    ground (arith, slots.behind, here),
  )
  recv_act-Ringed taking here range = recv_act-taking here
  recv_act-Ringed (passing head x v h s t) here range = passing-Ringed head x v h s t here range
  recv_act-Ringed (taking_over head x h s t) here range = taking_over-Ringed head x h s t here range
  recv_act-Ringed (backfilling head x v) here range = backfilling-Ringed head x v here range
  recv_act-Ringed p here range = (
    ground (arith, slots.head_is, here),
    ground (arith, slots.room, here),
    λ at inside_ring. ground (arith, slots.occupied at inside_ring, here),
    ground (arith, slots.behind, slots.room, here),
  )

  pub recv_act-Slots :
      ReceiverInRange cap rc → Slots cap n (recv_act cap c m rc).0 pc (recv_act cap c m rc).1
  unfolding recv_mem'
  recv_act-Slots range =
      let (head_is, room, occupied, behind) = recv_act-Ringed rc refl range in
      record { head_is = head_is; room = room; occupied = occupied; behind = behind }
