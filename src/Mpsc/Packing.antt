-- ===== src/Mpsc/Packing.antt =====
-- Which states of mpsc.rs survive their packing.
use async_mutex.Common.{ℕ, ◌/◌, ◌%◌, ◌^◌, ◌<◌, ◌≡◌, ◌≢◌, refl, ap, sym, ◌∙◌, arith}
use mathlib.Core.Logic.{◌↔◌}
use async_mutex.Mpsc.{
  SendState, send_packing, RecvState, registered, dirty, recv_encode, recv_decode,
}

abbrev pub pack : SendState → SendState
pack a = send_packing.decode (send_packing.encode a)

pack-fields :
    (a : SendState) → pack a ≡ record { write_head = a.write_head % 2 ^ 32; size = a.size % 2 ^ 32 }
pack-fields a = ground arith

pub decode-encode_send :
    (a : SendState) → (pack a ≡ a) ↔ ((a.write_head < 2 ^ 32) × (a.size < 2 ^ 32))
decode-encode_send a = (
  (λ e. (
    omega (arith, ap (λ b. b.write_head) (sym e ∙ pack-fields a)),
    omega (arith, ap (λ b. b.size) (sym e ∙ pack-fields a)),
  )),
  (λ h. ground arith),
)

-- The state of the receiver survives its packing exactly if it is `Dirty`, or a waker whose table is
-- not the tag.
pub recv_decode-recv_encode :
    (none_tag : ℕ) (r : RecvState)
    → (recv_decode none_tag (recv_encode none_tag r) ≡ r)
      ↔ ((waker : ℕ) → r ≡ registered waker → waker / 2 ^ 64 ≢ none_tag)
recv_decode-recv_encode none_tag dirty = ((λ e waker h. absurd (ground arith)), (λ h. ground arith))
recv_decode-recv_encode none_tag (registered w) =
    ((λ e waker h. ground arith), (λ h. ground (arith, h w refl)))
