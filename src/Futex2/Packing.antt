-- ===== src/Futex2/Packing.antt =====
-- futex2/mod.rs: `impl Packable for Bucket`, two words that are a waker or a tag.
use async_mutex.Common.{ℕ, ◌+◌, ◌*◌, ◌/◌, ◌%◌, ◌^◌, ◌<◌, ◌≡◌, ◌≢◌, arith, ◌==◌, if◌then◌else◌}
use async_mutex.Atomic.{usize_half}
use async_mutex.Futex2.{Bucket, empty, woken, waiting, waking, tombstone}

-- The tags are the addresses of `WOKEN`, `WAKING`, `EMPTY` and `TOMBSTONE`.
module _ (woken_tag waking_tag empty_tag tombstone_tag : ℕ) where
  pub encode_bucket : Bucket → ℕ
  encode_bucket (waiting waker) = waker
  encode_bucket (woken iteration) = woken_tag * 2 ^ 64 + iteration
  encode_bucket waking = waking_tag * 2 ^ 64
  encode_bucket (empty iteration) = empty_tag * 2 ^ 64 + iteration
  encode_bucket tombstone = tombstone_tag * 2 ^ 64

  pub decode_bucket : ℕ → Bucket
  decode_bucket val =
      if val / 2 ^ 64 == woken_tag
      then woken (usize_half (val % 2 ^ 64))
      else if val / 2 ^ 64 == waking_tag
      then waking
      else if val / 2 ^ 64 == empty_tag
      then empty (usize_half (val % 2 ^ 64))
      else if val / 2 ^ 64 == tombstone_tag
      then tombstone
      else waiting val

  -- The addresses of the four statics are different.
  abbrev pub AreDistinct : Type 0
  AreDistinct =
      (woken_tag ≢ waking_tag)
      × (woken_tag ≢ empty_tag)
      × (woken_tag ≢ tombstone_tag)
      × (waking_tag ≢ empty_tag)
      × (waking_tag ≢ tombstone_tag)
      × (empty_tag ≢ tombstone_tag)

  -- An iteration has 32 bits, and the table of a waker is none of the tags.
  abbrev pub IsPlain : Bucket → Type 0
  IsPlain (waiting waker) =
      (waker / 2 ^ 64 ≢ woken_tag)
      × (waker / 2 ^ 64 ≢ waking_tag)
      × (waker / 2 ^ 64 ≢ empty_tag)
      × (waker / 2 ^ 64 ≢ tombstone_tag)
  IsPlain (woken iteration) = iteration < 2 ^ 32
  IsPlain (empty iteration) = iteration < 2 ^ 32
  IsPlain _ = Unit

  -- As the four tags are at different addresses, a `Bucket` survives its packing if its iteration has
  -- 32 bits and the table of its waker is none of the tags.
  pub decode_bucket-encode_bucket :
      AreDistinct → (b : Bucket) → IsPlain b → decode_bucket (encode_bucket b) ≡ b
  unfolding encode_bucket decode_bucket
  decode_bucket-encode_bucket ne (waiting waker) plain = ground arith
  decode_bucket-encode_bucket ne (woken iteration) plain = ground arith
  decode_bucket-encode_bucket ne waking plain = ground arith
  decode_bucket-encode_bucket ne (empty iteration) plain = ground arith
  decode_bucket-encode_bucket ne tombstone plain = ground arith
