-- ===== src/WaitFuture/Packing.antt =====
-- futex/state.rs: `impl Packable for WaiterWaker`, two words that are a waker or a tag.
use mathlib.Core.Logic.{◌↔◌}
use async_mutex.Common.{ℕ, ◌*◌, ◌/◌, ◌^◌, ◌≡◌, ◌≢◌, arith, ◌==◌, if◌then◌else◌}
use async_mutex.WaitFuture.{WaiterWaker, none, waiting, done}

-- The tags are the addresses of `WAITER_NONE_TAG` and `WAITER_DONE_TAG`.
module _ (none_tag done_tag : ℕ) where
  pub encode_waker : WaiterWaker → ℕ
  encode_waker none = none_tag * 2 ^ 64
  encode_waker done = done_tag * 2 ^ 64
  encode_waker (waiting waker) = waker

  pub decode_waker : ℕ → WaiterWaker
  decode_waker val =
      if val / 2 ^ 64 == none_tag
      then none
      else if val / 2 ^ 64 == done_tag
      then done
      else waiting val

  -- The table of a waker is none of the tags.
  abbrev pub IsUntagged : WaiterWaker → Type 0
  IsUntagged (waiting waker) = (waker / 2 ^ 64 ≢ none_tag) × (waker / 2 ^ 64 ≢ done_tag)
  IsUntagged _ = Unit

  -- As the two tags are at different addresses, a `WaiterWaker` survives its packing exactly if it is
  -- `None` or `Done`, or a waker whose table is none of the two tags.
  pub decode_waker-encode_waker :
      none_tag ≢ done_tag → (w : WaiterWaker) → (decode_waker (encode_waker w) ≡ w) ↔ IsUntagged w
  unfolding encode_waker decode_waker
  decode_waker-encode_waker ne none = ((λ _. tt), (λ _. ground arith))
  decode_waker-encode_waker ne done = ((λ _. tt), (λ _. ground arith))
  decode_waker-encode_waker ne (waiting waker) =
      ((λ e. (ground arith, ground arith)), (λ u. ground arith))
