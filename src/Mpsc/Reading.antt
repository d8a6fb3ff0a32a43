-- ===== src/Mpsc/Reading.antt =====
-- A step of the receiver of mpsc.rs keeps the order of the messages.
use mathlib.Core.Path.{subst}
use async_mutex.Common.{
  ℕ, zero, suc, ◌+◌, ◌-◌, ◌≤◌, ◌<◌, ◌≡◌, inl, inr, refl, sym, ap, ◌∙◌, arith, true, List, [], ◌∷◌,
  ◌++◌, Option, update, update_self,
}
use async_mutex.Mpsc.{
  Choice, newest, Shared, Pc, Rc, starting, taking, passing, taking_over, backfilling, recv_act,
  pop, wins, put_message, pass_round, take_round, backfill, wake,
}
use async_mutex.Mpsc.Bounds.{InRange, ReceiverInRange}
use async_mutex.Mpsc.Waiting.{Inv, Known, newest-length}
use async_mutex.Mpsc.Letters.{Post}
use async_mutex.Mpsc.Ring.{wrap, wrap_mod, inside, wrap_last, inside_first}
use async_mutex.Mpsc.Slots.{between, used, Behind, Slots}
use async_mutex.Common.{append-nil, append_assoc, Bool-cases}
use async_mutex.Mpsc.Letters.{letter}
use async_mutex.Mpsc.Ring.{inside_next}
use async_mutex.Mpsc.Window.{window, window-update, window-pop}
use async_mutex.Mpsc.History.{placed_for, delivered}
use async_mutex.Mpsc.Waiting.{newest-length}
use async_mutex.Mpsc.Turns.{one_popped, none_popped}
use async_mutex.Mpsc.Order.{Promise, Debt, Keeps, IsFree, free-Keeps, Ordered}

module _ {cap n : ℕ} {payload : ℕ → ℕ} {m : Shared} {pc : ℕ → Pc} {rc : Rc} (r : InRange cap m)
    (inv : Inv cap n m pc rc) (post : Post payload n m pc rc) (slots : Slots cap n m pc rc)
    (c : Choice) {ins outs : List ℕ} (ord : Ordered cap payload ins outs m pc rc) where
  abbrev Goal : Rc → Type 0
  Goal p =
      Ordered cap payload (ins ++ placed_for payload p (recv_act cap c m p).1)
        (outs ++ delivered p (recv_act cap c m p).1) (recv_act cap c m p).0 pc
        (recv_act cap c m p).1

  -- The buckets are left alone.
  abbrev Leaves : Shared → Type 0
  Leaves m' = (m'.contents ≡ m.contents) × (m'.filled ≡ m.filled) × (m'.recv_head ≡ m.recv_head)

  kept-Promise :
      (e : ℕ → ℕ) (m' : Shared)
      → m'.contents ≡ m.contents
      → (j : ℕ) (q : Pc) → Promise payload e j m q
      → Promise payload e j m' q
  kept-Promise e m' same j q k = ground (arith, k, same)

  left-Keeps :
      {e : ℕ → ℕ} {m' : Shared} {q q' : Rc}
      → Keeps cap payload e m pc q
      → Leaves m'
      → Debt payload e q'
      → Keeps cap payload e m' pc q'
  left-Keeps {e} {m'} keeps leaves debt = record {
    held =
        λ at below full. rw leaves.0 (keeps.held at below (subst (λ f. f at ≡ true) leaves.1 full));
    promises = λ j. kept-Promise e m' leaves.0 j (pc j) (keeps.promises j);
    debt = debt;
  }

  -- A step that gives no place and reads no message.
  same-Ordered :
      (p : Rc)
      → Leaves (recv_act cap c m p).0
      → used (recv_act cap c m p).0 (recv_act cap c m p).1 ≡ used m rc
      → placed_for payload p (recv_act cap c m p).1 ≡ []
      → delivered p (recv_act cap c m p).1 ≡ []
      → Debt payload ord.expected (recv_act cap c m p).1
      → Goal p
  same-Ordered p leaves same unplaced unread debt = record {
    expected = ord.expected;
    keeps = left-Keeps ord.keeps leaves debt;
    order = rw (unplaced, unread, leaves.2, same, append-nil ins, append-nil outs) ord.order;
  }

  -- A step that gives the bucket that was emptied to waiter `v`.
  give-Ordered :
      (p : Rc) (head x v : ℕ)
      → head < cap
      → m.size ≡ cap
      → between rc ≡ 1
      → m.recv_head ≡ wrap cap (head + 1)
      → Leaves (recv_act cap c m p).0
      → (recv_act cap c m p).0.size ≡ m.size
      → (recv_act cap c m p).1 ≡ backfilling head x v
      → placed_for payload p (recv_act cap c m p).1 ≡ payload v ∷ []
      → delivered p (recv_act cap c m p).1 ≡ []
      → Goal p
  give-Ordered p head x v below full one next leaves same there placed_one unread =
      let last : wrap cap (m.recv_head + used m rc) ≡ head =
        rw next (wrap_last cap head (used m rc) (omega (arith, slots.room)) below) in
      let free : IsFree n m pc rc head =
        slots.occupied head below
        ∙ ap (λ h. inside cap m.recv_head (used m rc) h) (sym last)
        ∙ inside_next cap m.recv_head (used m rc) r.recv_head-lt (omega (arith, slots.room)) in
      let grown : m.size - 0 ≡ suc (used m rc) = omega (arith, slots.room) in
      record {
        expected = update ord.expected head (payload v);
        keeps =
            left-Keeps (free-Keeps post ord.keeps head (payload v) free) leaves
              (rw (there, update_self ord.expected head (payload v)) refl);
        order =
            rw
              (
                placed_one,
                unread,
                leaves.2,
                same,
                there,
                grown,
                append-nil outs,
                window-update cap ord.expected (payload v) m.recv_head (used m rc) head
                    r.recv_head-lt (omega (arith, slots.room)) (sym last),
                ← append_assoc outs (window cap ord.expected m.recv_head (used m rc))
                    (payload v ∷ []),
              )
              (ap (λ xs. xs ++ (payload v ∷ [])) ord.order);
      }

  taking-Ordered : rc ≡ taking → Goal taking
  unfolding recv_act
  taking-Ordered here =
      let h = m.recv_head in
      let full : m.filled h ≡ true = subst (Behind cap m) here slots.behind in
      let read : m.contents h ≡ ord.expected h = ord.keeps.held h r.recv_head-lt full in
      let zero_between : between rc ≡ 0 = rw here refl in
      let some_used : 1 ≤ used m rc =
        inside_first cap h (used m rc) (ground (arith, slots.occupied h r.recv_head-lt, full)) in
      let fewer : m.size - 1 ≡ used m rc - 1 = omega arith in
      record {
        expected = ord.expected;
        keeps = record {
          held = λ at below k. ground (arith, ord.keeps.held at below, k);
          promises = λ j.
              kept-Promise ord.expected (recv_act cap c m taking).0 refl j (pc j)
                (ord.keeps.promises j);
          debt = tt;
        };
        order =
            rw (wrap_mod cap h r.recv_head-lt, append-nil ins, fewer, append_assoc outs, read)
              (ord.order
                ∙ ap (λ xs. outs ++ xs) (window-pop cap ord.expected h (used m rc) some_used));
      }

  passing-Ordered :
      (head x v h s t : ℕ)
      → rc ≡ passing head x v h s t
      → head < cap
      → Goal (passing head x v h s t)
  unfolding recv_act pass_round
  passing-Ordered head x v h s t here below =
      let (full, known) = subst (Known cap m) here inv.known in
      let next = subst (Behind cap m) here slots.behind in
      elim (Bool-cases (wins c m h s t)) [
        | inl won ↦
            give-Ordered (passing head x v h s t) head x v below full (rw here refl) next
              (ground arith) (ground arith) (ground arith) (ground arith) (ground arith)
        | inr lost ↦
            same-Ordered (passing head x v h s t) (ground arith) (ground arith) (ground arith)
              (ground arith) (ground arith)
      ]

  handing_on-Ordered :
      (head x h s t : ℕ)
      → rc ≡ taking_over head x h s (suc t)
      → head < cap
      → Goal (taking_over head x h s (suc t))
  unfolding recv_act take_round pop
  handing_on-Ordered head x h s t here below =
      let (nobody, known) = subst (Known cap m) here inv.known in
      let (next, some_size) = subst (Behind cap m) here slots.behind in
      let p = taking_over head x h s (suc t) in
      elim (Bool-cases (wins c m h s (suc t))) [
        | inl won ↦
            let new : newest m.inbox ≡ suc t = ground (arith, won) in
            let (v, vs, e) = one_popped r inv slots c (omega arith) in
            give-Ordered p head x v below
              (inv.full (omega (arith, newest-length m.inbox (omega arith)))) (rw here refl) next
              (ground arith) (ground arith) (ground arith) (ground arith) (ground arith)
        | inr lost ↦
            same-Ordered p (ground arith) (ground (arith, here)) (ground arith) (ground arith)
              (ground arith)
      ]

  giving_back-Ordered :
      (head x h s : ℕ) → rc ≡ taking_over head x h s 0 → Goal (taking_over head x h s 0)
  unfolding recv_act take_round pop
  giving_back-Ordered head x h s here =
      let (nobody, known) = subst (Known cap m) here inv.known in
      let quiet = none_popped r inv slots c nobody in
      same-Ordered (taking_over head x h s 0) (ground (arith, quiet)) (ground (arith, quiet, here))
        (ground (arith, quiet)) (ground (arith, quiet)) (ground (arith, quiet))

  written-Promise :
      (e : ℕ → ℕ) (x head j : ℕ) (m' : Shared)
      → x ≡ e head
      → m'.contents ≡ update m.contents head x
      → (q : Pc) → Promise payload e j m q
      → Promise payload e j m' q
  written-Promise e x head j m' owed same q k =
      ground (arith, k, owed, λ (b : ℕ). ap (λ (f : ℕ → ℕ). f b) same)

  -- The message of the waiter is written to the bucket that was kept for it.
  backfilling-Ordered :
      (head x v : ℕ) → rc ≡ backfilling head x v → head < cap → Goal (backfilling head x v)
  unfolding recv_act put_message backfill
  backfilling-Ordered head x v here below =
      let has = letter inv post c v (rw here (ground arith)) in
      let owed : payload v ≡ ord.expected head =
        subst (Debt payload ord.expected) here ord.keeps.debt in
      let m' = record m {
        message = update m.message v Option.none;
        filled = update m.filled head true;
        contents = update m.contents head (payload v);
      } in
      rw has (record {
        expected = ord.expected;
        keeps = record {
          held = λ at inside_ring full. ground (arith, ord.keeps.held at inside_ring, owed);
          promises = λ j.
              written-Promise ord.expected (payload v) head j m' owed refl (pc j)
                (ord.keeps.promises j);
          debt = tt;
        };
        order =
            rw (append-nil ins, append-nil outs)
              (ord.order ∙ ap (λ q. outs ++ window cap ord.expected m.recv_head (used m q)) here);
      })

  recv_cases : (p : Rc) → rc ≡ p → ReceiverInRange cap p → Goal p
  unfolding recv_act pop wake
  recv_cases starting here range =
      same-Ordered starting (ground arith) (ground (arith, here)) (ground arith) (ground arith)
        (ground arith)
  recv_cases taking here range = taking-Ordered here
  recv_cases (passing head x v h s t) here range = passing-Ordered head x v h s t here range
  recv_cases (taking_over head x h s zero) here range = giving_back-Ordered head x h s here
  recv_cases (taking_over head x h s (suc t)) here range =
      handing_on-Ordered head x h s t here range
  recv_cases (backfilling head x v) here range = backfilling-Ordered head x v here range
  recv_cases p here range =
      same-Ordered p (ground arith) (ground (arith, here)) (ground arith) (ground arith)
        (ground arith)

  pub recv_act-Ordered : ReceiverInRange cap rc → Goal rc
  recv_act-Ordered range = recv_cases rc refl range
