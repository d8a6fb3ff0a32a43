-- ===== src/Futex/Queues.antt =====
-- `enqueue` of futex/mod.rs: the waiters of the inbox go to the ends of their queues, in order.
use native.Mathlib.Decide.{ℕ_discrete}
use async_mutex.Common.{
  ℕ, ◌<◌, ◌≢◌, sym, ◌∙◌, List, [], ◌∷◌, ◌++◌, Apart, update, update_self, update-ne, Apart-symm,
}
use async_mutex.Waiter.{Ptr, Links, WaiterList}
use async_mutex.Waiter.Chain.{IsList, SameOutside}
use async_mutex.Waiter.Frame.{IsList-SameOutside}

module _ (len : ℕ) (queue_of : Ptr → ℕ) where
  -- The waiters `ws` are put at the ends of their queues.
  unfoldable pub deliver : List Ptr → (ℕ → List Ptr) → ℕ → List Ptr
  deliver [] xss = xss
  deliver (w ∷ ws) xss = deliver ws (update xss (queue_of w) (xss (queue_of w) ++ w ∷ []))

  -- The queues stand for the sequences `xss`, and no two of them share a waiter.
  pub record Queues (h : Links) (qs : ℕ → WaiterList) (xss : ℕ → List Ptr) : Type 0 where
    pub lists : (i : ℕ) → i < len → IsList h (qs i) (xss i)
    pub apart : (i j : ℕ) → i < len → j < len → i ≢ j → Apart (xss i) (xss j)

  -- No queue shares a waiter with `ws`.
  abbrev pub Clear : (ℕ → List Ptr) → List Ptr → Type 0
  Clear xss ws = (i : ℕ) → i < len → Apart (xss i) ws

  -- Each waiter has a queue.
  abbrev pub InRange : List Ptr → Type 0
  InRange [] = Unit
  InRange (w ∷ ws) = (queue_of w < len) × InRange ws

  pub Queues-SameOutside :
      {h g : Links} {qs : ℕ → WaiterList} {xss : ℕ → List Ptr} (ws : List Ptr)
      → Clear xss ws
      → SameOutside ws h g
      → Queues h qs xss
      → Queues g qs xss
  Queues-SameOutside {xss} ws clear same s = record {
    lists = λ i lt. IsList-SameOutside (xss i) ws (clear i lt) same (s.lists i lt);
    apart = s.apart;
  }

  -- One queue is replaced, and no other shares a waiter with the new one.
  pub Queues-update :
      {h g : Links} {qs : ℕ → WaiterList} {xss : ℕ → List Ptr} (i : ℕ) {q : WaiterList}
      (ys : List Ptr)
      → Queues h qs xss
      → IsList g q ys
      → ((j : ℕ) → j < len → j ≢ i → Apart (xss j) ys × IsList g (qs j) (xss j))
      → Queues g (update qs i q) (update xss i ys)
  Queues-update {h} {g} {qs} {xss} i {q} ys s l others = record {
    lists = λ j lt. elim (ℕ_discrete j i) [
      | yes e ↦ rw (e, update_self qs i q, update_self xss i ys) l
      | no ne ↦ rw (update-ne qs i q j ne, update-ne xss i ys j ne) (others j lt ne).1
    ];
    apart = λ j k hj hk ne. elim (ℕ_discrete j i) [
      | yes e ↦ elim (ℕ_discrete k i) [
        | yes e' ↦ absurd (ne (e ∙ sym e'))
        | no ne' ↦
            rw (e, update_self xss i ys, update-ne xss i ys k ne')
              (Apart-symm (xss k) ys (others k hk ne').0)
      ]
      | no ne' ↦ elim (ℕ_discrete k i) [
        | yes e ↦ rw (e, update_self xss i ys, update-ne xss i ys j ne') (others j hj ne').0
        | no ne'' ↦ rw (update-ne xss i ys j ne', update-ne xss i ys k ne'') (s.apart j k hj hk ne)
      ]
    ];
  }
