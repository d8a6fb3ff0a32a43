-- ===== src/Mpsc/Window.antt =====
-- What the buckets of mpsc.rs are to hold, from one bucket on, going round at the capacity.
use async_mutex.Common.{
  ℕ, zero, suc, ◌+◌, ◌-◌, ◌≤◌, ◌<◌, ◌≡◌, refl, sym, ap, ◌∙◌, arith, List, [], ◌∷◌, ◌++◌, length,
  update, update_self, update-ne,
}
use async_mutex.Mpsc.Ring.{wrap, wrap_shift, wrap_ne, wrap_next, wrap_self}

module _ (cap : ℕ) where
  pub window : (ℕ → ℕ) → (head len : ℕ) → List ℕ
  window e head zero = []
  window e head (suc len) = e head ∷ window e (wrap cap (head + 1)) len

  pub length-window : (e : ℕ → ℕ) (head len : ℕ) → length (window e head len) ≡ len
  unfolding window
  length-window e head zero = refl
  length-window e head (suc len) = omega (arith, length-window e (wrap cap (head + 1)) len)

  pub window-none : (e : ℕ → ℕ) (head : ℕ) → window e head 0 ≡ []
  unfolding window
  window-none e head = refl

  -- A value for the bucket behind a window makes it longer by that value.
  pub window-update :
      (e : ℕ → ℕ) (x head len at : ℕ)
      → head < cap
      → len < cap
      → at ≡ wrap cap (head + len)
      → window (update e at x) head (suc len) ≡ window e head len ++ (x ∷ [])
  unfolding window
  window-update e x head zero at h l k = rw (k, wrap_self cap head h, update_self e head x) refl
  window-update e x head (suc len) at h l k =
      let rest : window (update e at x) (wrap cap (head + 1)) (suc len)
          ≡ window e (wrap cap (head + 1)) len ++ (x ∷ []) =
        window-update e x (wrap cap (head + 1)) len at (wrap_next cap head h) (omega arith)
          (k ∙ sym (wrap_shift cap head (suc len) len (omega arith) h (omega arith))) in
      rw (update-ne e at x head (λ q. wrap_ne cap head len h l (sym (q ∙ k))), rest) refl

  pub window-pop :
      (e : ℕ → ℕ) (head len : ℕ)
      → 1 ≤ len
      → window e head len ≡ e head ∷ window e (wrap cap (head + 1)) (len - 1)
  unfolding window
  window-pop e head zero h = absurd (omega arith)
  window-pop e head (suc len) h = ap (λ k. window e head (suc k)) (omega arith)
