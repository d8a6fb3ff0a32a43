-- ===== src/Mpsc/Placing.antt =====
-- A step of a sender of mpsc.rs keeps the order of the messages.
use mathlib.Core.Path.{subst}
use native.Mathlib.Decide.{ℕ_discrete}
use async_mutex.Common.{
  ℕ, suc, ◌+◌, ◌-◌, ◌<◌, ◌≡◌, ◌≢◌, ◌⊎◌, inl, inr, refl, sym, ap, ◌∙◌, arith, true, false, List, [],
  ◌∷◌, ◌++◌, update, update_self, update-ne, tally-ge,
}
use async_mutex.Mpsc.{Choice, Shared, Pc, idle, writing, filling, Rc, act}
use async_mutex.Mpsc.Bounds.{InRange, SenderInRange}
use async_mutex.Mpsc.Waiting.{Inv}
use async_mutex.Mpsc.Letters.{Post}
use async_mutex.Mpsc.Ring.{inside, inside-le}
use async_mutex.Mpsc.Slots.{between, used, claims, owns, Slots}
use async_mutex.Common.{append-nil, append_assoc, tally-ge_two}
use native.Mathlib.Decide.{dec_lt}
use async_mutex.Mpsc.Ring.{inside_next}
use async_mutex.Mpsc.Window.{window, window-update}
use async_mutex.Mpsc.History.{placed}
use async_mutex.Mpsc.Order.{Promise, Keeps, IsFree, free-Keeps, Ordered}

module _ {cap n : ℕ} {payload : ℕ → ℕ} {m : Shared} {pc : ℕ → Pc} {rc : Rc} (r : InRange cap m)
    (inv : Inv cap n m pc rc) (post : Post payload n m pc rc) (slots : Slots cap n m pc rc)
    (c : Choice) (i : ℕ) (lt : i < n) (range : (j : ℕ) → SenderInRange cap (pc j)) where
  abbrev mem' : Pc → Shared
  mem' p = (act cap payload i c m p).0

  -- A bucket that a sender is about to fill is not filled, and is no other sender's.
  alone :
      (b : ℕ)
      → b < cap
      → claims b (pc i) ≡ 1
      → (m.filled b ≡ false) × ((j : ℕ) → j ≢ i → claims b (pc j) ≡ 0) × (owns b rc ≡ 0)
  alone b below one =
      let at_most = inside-le cap m.recv_head (used m rc) b in
      let mine = tally-ge (claims b) n pc i lt in
      (
        ground (arith, slots.occupied b below, at_most, mine, one),
        (λ j ne. elim (dec_lt j n) [
          | yes lt_j ↦ omega (
            arith,
            slots.occupied b below,
            at_most,
            tally-ge_two (claims b) n pc i j lt lt_j (λ e. ne (sym e)),
          )
          | no above ↦ rw (post.outside j (omega arith)) refl
        ]),
        omega (arith, slots.occupied b below, at_most, mine),
      )

  module _ {e : ℕ → ℕ} (keeps : Keeps cap payload e m pc rc) where
    act-held :
        (p : Pc)
        → pc i ≡ p
        → (at : ℕ) → at < cap
        → (mem' p).filled at ≡ true
        → (mem' p).contents at ≡ e at
    unfolding act
    act-held idle here at below full = ground (arith, keeps.held at below)
    act-held (writing b) here at below full = ground (
      arith,
      keeps.held at below,
      alone b (subst (SenderInRange cap) here (range i)) (rw here (ground arith)),
    )
    act-held (filling b) here at below full =
        ground (arith, keeps.held at below, rw here at (keeps.promises i))
    act-held p here at below full = ground (arith, keeps.held at below)

    -- The other senders' buckets are left alone.
    act-contents :
        (p : Pc)
        → pc i ≡ p
        → (b j : ℕ) → j ≢ i
        → pc j ≡ filling b
        → (mem' p).contents b ≡ m.contents b
    unfolding act
    act-contents idle here b j ne there = ground arith
    act-contents (writing at) here b j ne there = elim (ℕ_discrete b at) [
      | yes same ↦
          let (empty, others, unowned) =
            alone at (subst (SenderInRange cap) here (range i)) (rw here (ground arith)) in
          absurd (ground (arith, others j ne, there))
      | no other ↦ ground arith
    ]
    act-contents p here b j ne there = ground arith

    act-Promise_other :
        (j : ℕ)
        → j ≢ i
        → (q : Pc) → pc j ≡ q
        → Promise payload e j m q
        → Promise payload e j (mem' (pc i)) q
    act-Promise_other j ne (filling b) there k = act-contents (pc i) refl b j ne there ∙ k
    act-Promise_other j ne (writing b) there k = k
    act-Promise_other j ne q there k = ground arith

    act-Keeps :
        Promise payload e i (mem' (pc i)) (act cap payload i c m (pc i)).1
        → Keeps cap payload e (mem' (pc i)) (update pc i (act cap payload i c m (pc i)).1) rc
    act-Keeps mine = record {
      held = act-held (pc i) refl;
      promises = λ j. elim (ℕ_discrete j i) [
        | yes same ↦ rw (same, update_self pc i (act cap payload i c m (pc i)).1) mine
        | no ne ↦
            rw (update-ne pc i (act cap payload i c m (pc i)).1 j ne)
              (act-Promise_other j ne (pc j) refl (keeps.promises j))
      ];
      debt = keeps.debt;
    }

    -- The promise of a sender that does not take a place in this step.
    act-Promise_self :
        (p : Pc)
        → pc i ≡ p
        → (mem' p).size ≡ m.size
        → Promise payload e i (mem' p) (act cap payload i c m p).1
    unfolding act
    act-Promise_self idle here same = ground arith
    act-Promise_self p here same = ground (arith, keeps.promises i, post.letters i)

  -- Whether the sender takes a place in this step.
  abbrev Placed : Pc → Type 0
  Placed p =
      ((mem' p).recv_head ≡ m.recv_head)
      × ((((mem' p).size ≡ m.size) × (placed (payload i) p (act cap payload i c m p).1 ≡ []))
          ⊎ (((mem' p).size ≡ m.size + 1)
              × (m.size < cap)
              × ((act cap payload i c m p).1 ≡ writing m.write_head)
              × (placed (payload i) p (act cap payload i c m p).1 ≡ payload i ∷ [])))

  act-Placed : (p : Pc) → Placed p
  unfolding act
  act-Placed idle = (ground arith, ground arith)
  act-Placed p = (ground arith, ground arith)

  pub act-Ordered :
      {ins outs : List ℕ}
      → Ordered cap payload ins outs m pc rc
      → Ordered cap payload
          (ins ++ placed (payload i) (pc i) (act cap payload i c m (pc i)).1)
          outs
          (mem' (pc i))
          (update pc i (act cap payload i c m (pc i)).1)
          rc
  act-Ordered {ins} {outs} ord =
      let (same_head, cases) = act-Placed (pc i) in
      elim cases [
        | inl (same, unplaced) ↦ record {
          expected = ord.expected;
          keeps = act-Keeps ord.keeps (act-Promise_self ord.keeps (pc i) refl same);
          order = rw (unplaced, same_head, same, append-nil ins) ord.order;
        }
        | inr (more, space, there, one) ↦
            let b = m.write_head in
            let grown : m.size + 1 - between rc ≡ suc (used m rc) = omega (arith, slots.room) in
            let free : IsFree n m pc rc b =
              slots.occupied b r.write_head-lt
              ∙ ap (λ h. inside cap m.recv_head (used m rc) h) slots.head_is
              ∙ inside_next cap m.recv_head (used m rc) r.recv_head-lt (omega arith) in
            record {
              expected = update ord.expected b (payload i);
              keeps =
                  act-Keeps (free-Keeps post ord.keeps b (payload i) free)
                    (rw (there, update_self ord.expected b (payload i)) refl);
              order =
                  rw
                    (
                      one,
                      same_head,
                      more,
                      grown,
                      window-update cap ord.expected (payload i) m.recv_head (used m rc) b
                          r.recv_head-lt (omega arith) slots.head_is,
                      ← append_assoc outs (window cap ord.expected m.recv_head (used m rc))
                          (payload i ∷ []),
                    )
                    (ap (λ xs. xs ++ (payload i ∷ [])) ord.order);
            }
      ]
