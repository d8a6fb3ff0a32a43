-- ===== src/Futex/Enqueue.antt =====
-- `enqueue` of futex/mod.rs: the waiters of the inbox go to the ends of their queues, in order.
use native.Mathlib.Decide.{ℕ_discrete}
use async_mutex.Common.{
  ℕ, zero, suc, ◌≤◌, ◌<◌, ◌≡◌, arith, true, List, [], ◌∷◌, ◌++◌, reverse, reverse_aux,
  length-reverse_aux, ltb, NotIn, Apart, length, update, update_self, update-ne, Apart-symm,
  Apart-append_left, Apart-append_right, Apart-tail, Apart-single, Apart-reverse,
  NotIn-single_of_Apart,
}
use async_mutex.Waiter.{Ptr, Links, WaiterList, push_back}
use async_mutex.Waiter.Chain.{IsList, IsAlone, SameOutside, Returns, returns, bind, mono}
use async_mutex.Waiter.Frame.{IsList-SameOutside}
use async_mutex.Waiter.Push.{push_back_lem}
use async_mutex.Waiter.Pop.{pop_front-nil, pop_front_lem}
use async_mutex.Waiter.Stack.{IsStack, from_stack_lem}
use async_mutex.Futex.{drain, enqueue}
use async_mutex.Futex.Queues.{deliver, Queues, Clear, InRange, Queues-SameOutside, Queues-update}

module _ (len : ℕ) (queue_of : Ptr → ℕ) (fuel : ℕ) where
  -- `x` goes to the end of queue `i`, where it shares nothing with the rest.
  Clear-snoc :
      (xss : ℕ → List Ptr) (i x : ℕ) (ws : List Ptr)
      → i < len
      → NotIn x ws
      → Clear len queue_of xss (x ∷ ws)
      → Clear len queue_of (update xss i (xss i ++ x ∷ [])) ws
  Clear-snoc xss i x ws lt out clear j hj = elim (ℕ_discrete j i) [
    | yes e ↦
        rw (e, update_self xss i (xss i ++ x ∷ []))
          (Apart-append_left (xss i) (x ∷ []) ws (Apart-tail (xss i) x ws (clear i lt)) (out, tt))
    | no ne ↦ rw (update-ne xss i (xss i ++ x ∷ []) j ne) (Apart-tail (xss j) x ws (clear j hj))
  ]

  -- One round of the loop, from the point where `w` has been taken off the list.
  push_back-Queues :
      {g : Links} {qs : ℕ → WaiterList} {xss : ℕ → List Ptr} (w : Ptr) (ws : List Ptr)
      → queue_of w < len
      → Queues len queue_of g qs xss
      → Clear len queue_of xss (w ∷ ws)
      → IsAlone g w
      → Returns
          (λ q f.
            Queues len queue_of f
              (update qs (queue_of w) q)
              (update xss (queue_of w) (xss (queue_of w) ++ w ∷ []))
            × SameOutside (xss (queue_of w) ++ w ∷ []) g f)
          (push_back (qs (queue_of w)) w g)
  push_back-Queues {g} {qs} {xss} w ws lt s clear alone =
      let i : ℕ = queue_of w in
      let out : NotIn w (xss i) = NotIn-single_of_Apart (xss i) w ws (clear i lt) in
      mono (push_back_lem (xss i) w (s.lists i lt) alone out) λ q f (l, same). (
        Queues-update len queue_of i (xss i ++ w ∷ []) s l λ j hj ne.
            let far : Apart (xss j) (xss i ++ w ∷ []) =
              Apart-append_right (xss j) (xss i) (w ∷ []) (s.apart j i hj lt ne)
                (Apart-single (xss j) w (NotIn-single_of_Apart (xss j) w ws (clear j hj))) in
            (far, IsList-SameOutside (xss j) (xss i ++ w ∷ []) far same (s.lists j hj)),
        same,
      )

  drain_lem :
      (k : ℕ) {h : Links} {qs : ℕ → WaiterList} {l : WaiterList} (ws : List Ptr)
      (xss : ℕ → List Ptr)
      → length ws < k
      → IsList h l ws
      → Queues len queue_of h qs xss
      → Clear len queue_of xss ws
      → InRange len queue_of ws
      → Returns
          (λ rs g. Queues len queue_of g rs (deliver len queue_of ws xss))
          (drain len queue_of fuel k qs l h)
  unfolding drain deliver
  drain_lem zero ws xss enough l s clear ok = absurd (omega arith)
  drain_lem (suc k) [] xss enough l s clear ok = rw (pop_front-nil l) (returns s)
  drain_lem (suc k) {qs} (w ∷ ws) xss enough l s clear ok =
      let i : ℕ = queue_of w in
      let lt : i < len = ok.0 in
      let in_range : ltb i len ≡ true = ground arith in
      bind (pop_front_lem w ws l) λ (item, rest) g (got, r, alone, same).
        rw (got, in_range)
          (bind
            (push_back-Queues w ws lt (Queues-SameOutside len queue_of (w ∷ ws) clear same s) clear
              alone)
            λ q f (s', same').
              let far : Apart ws (xss i ++ w ∷ []) =
                Apart-append_right ws (xss i) (w ∷ [])
                  (Apart-symm (xss i) ws (Apart-tail (xss i) w ws (clear i lt)))
                  (Apart-single ws w l.distinct.0) in
              drain_lem k ws (update xss i (xss i ++ w ∷ [])) (omega arith)
                (IsList-SameOutside ws (xss i ++ w ∷ []) far same' r) s'
                (Clear-snoc xss i w ws lt l.distinct.0 clear) ok.1)

  Clear-reverse :
      (xss : ℕ → List Ptr) (ts : List Ptr)
      → Clear len queue_of xss ts
      → Clear len queue_of xss (reverse ts)
  Clear-reverse xss ts clear i lt = Apart-reverse (xss i) ts (clear i lt)

  InRange-reverse_aux :
      (ts ys : List Ptr)
      → InRange len queue_of ts
      → InRange len queue_of ys
      → InRange len queue_of (reverse_aux ts ys)
  InRange-reverse_aux [] ys h k = k
  InRange-reverse_aux (t ∷ ts) ys h k = InRange-reverse_aux ts (t ∷ ys) h.1 (h.0, k)

  -- `enqueue` of a stack of waiters puts each waiter, in the order of the pushes, at the end of the
  -- queue that it names; no access is invalid, and one round for each waiter is enough fuel.
  pub enqueue_lem :
      {h : Links} {qs : ℕ → WaiterList} (p : Ptr) (ts : List Ptr) (xss : ℕ → List Ptr)
      → length ts ≤ fuel
      → IsStack h p ts
      → Queues len queue_of h qs xss
      → Clear len queue_of xss ts
      → InRange len queue_of ts
      → Returns
          (λ rs g. Queues len queue_of g rs (deliver len queue_of (reverse ts) xss))
          (enqueue len queue_of fuel qs p h)
  unfolding enqueue
  enqueue_lem p ts xss enough stack s clear ok =
      bind (from_stack_lem fuel p ts stack enough) λ l g (r, same).
        drain_lem (suc fuel) (reverse ts) xss (omega (arith, length-reverse_aux ts [])) r
          (Queues-SameOutside len queue_of ts clear same s) (Clear-reverse xss ts clear)
          (InRange-reverse_aux ts [] ok tt)
