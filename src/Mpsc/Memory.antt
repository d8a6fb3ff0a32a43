-- ===== src/Mpsc/Memory.antt =====
-- mpsc.rs: the memory that the senders and the receiver share, with the abstract futex in it.
use async_mutex.Common.{
  ℕ, Bool, true, not, ◌&&◌, List, [], ◌++◌, reverse, Option, ◌==◌, ◌*◌, ◌/◌, ◌^◌, if◌then◌else◌,
  update,
}
use async_mutex.Tasks.{Waker, Choice, is_spurious, newest}
use async_mutex.Atomic.{Packable, usize_half, join, low, high}

pub record SendState : Type 0 where
  pub write_head : ℕ
  pub size : ℕ

-- `impl Packable for SendState`
abbrev pub send_packing : Packable SendState
send_packing = record {
  encode = λ val. join (usize_half val.size) (usize_half val.write_head);
  decode = λ val. record { size = low val; write_head = high val };
}

-- A waker is the number of its two words, of which the high one is the table.
pub data RecvState : Type 0 where
  registered : (waker : ℕ) → RecvState  -- `RecvState::Waiting`
  dirty : RecvState

-- `impl Packable for RecvState`; the tag is the address of `WAITER_NONE_TAG`.
abbrev pub recv_encode : (none_tag : ℕ) → RecvState → ℕ
recv_encode none_tag (registered waker) = waker
recv_encode none_tag dirty = none_tag * 2 ^ 64

abbrev pub recv_decode : (none_tag : ℕ) → ℕ → RecvState
recv_decode none_tag val = if val / 2 ^ 64 == none_tag then dirty else registered val

pub record Shared : Type 0 where
  pub write_head : ℕ  -- the atom of `send_queue`
  pub size : ℕ
  pub inbox : List ℕ
  pub queue : List ℕ
  pub waker : ℕ → Waker
  pub message : ℕ → Option ℕ  -- the `Message` of each sender
  pub filled : ℕ → Bool  -- the buckets
  pub contents : ℕ → ℕ  -- `data`
  pub recv_waiting : Bool  -- `recv_state` is `Waiting`
  pub recv_head : ℕ
  pub notified : Bool  -- the waker of the receiver was called since its last poll
  pub guards : ℕ  -- read guards of the futex's state
  pub locked : Bool  -- its write guard, which cancellation takes
  pub borrowed : Bool  -- `AtomicRefCell::state`
  pub panicked : Bool  -- an assertion, an `unwrap` or a panic of the futex

-- `RawFutex::cmpxchg_weak`: the atom and the inbox are compared.
abbrev pub wins : Choice → Shared → (write_head size newest : ℕ) → Bool
wins c m h s t =
    not (is_spurious c) && ((m.write_head == h) && ((m.size == s) && (newest m.inbox == t)))

abbrev pub panic : Shared → Shared
panic m = record m { panicked = true }

abbrev pub put_waker : Shared → ℕ → Waker → Shared
put_waker m i k = record m { waker = update m.waker i k }

-- `RawFutex::enqueue`
abbrev pub enqueue : Shared → Shared
enqueue m = record m { inbox = []; queue = m.queue ++ reverse m.inbox }
