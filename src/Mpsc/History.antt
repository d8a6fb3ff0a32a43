-- ===== src/Mpsc/History.antt =====
-- The messages that take a place in the ring of mpsc.rs, and those that are received, in the order of
-- the steps that do it.
use async_mutex.Common.{ℕ, ◌<◌, ◌≡◌, ◌≢◌, some, List, [], ◌∷◌, ◌++◌}
use async_mutex.Mpsc.{
  Choice, System, Pc, trying, writing, Rc, taking, locking, passing, taking_over, backfilling, act,
  recv_act, step, recv_step, new, fresh,
}
use async_mutex.Mpsc.Bounds.{Reach}

-- The message that gets a place as a sender goes from one point to another: `send` has won its exchange.
abbrev pub placed : (message : ℕ) → Pc → Pc → List ℕ
placed x (trying h s t) (writing at) = x ∷ []
placed x _ _ = []

-- The same for the receiver, which gives a place to the message of a waiter.
abbrev pub placed_for : (payload : ℕ → ℕ) → Rc → Rc → List ℕ
placed_for payload (passing head x v h s t) (backfilling _ _ w) = payload w ∷ []
placed_for payload (taking_over head x h s t) (backfilling _ _ w) = payload w ∷ []
placed_for payload _ _ = []

-- The message that the receiver reads.
abbrev pub delivered : Rc → Rc → List ℕ
delivered taking (locking head x) = x ∷ []
delivered _ _ = []

-- A state, with all messages that got a place and all that were received until then.
pub data History (cap : ℕ) (payload : ℕ → ℕ) (n : ℕ) : System → List ℕ → List ℕ → Type 0 where
  start : new cap ≡ some fresh → History cap payload n fresh [] []
  sends :
      {s : System} {ins outs : List ℕ} (i : ℕ) (c : Choice)
      → i ≢ 0
      → i < n
      → History cap payload n s ins outs
      → History cap payload n
          (step cap payload i c s)
          (ins ++ placed (payload i) (s.pc i) (act cap payload i c s.mem (s.pc i)).1)
          outs
  receives :
      {s : System} {ins outs : List ℕ} (c : Choice)
      → History cap payload n s ins outs
      → History cap payload n
          (recv_step cap c s)
          (ins ++ placed_for payload s.rc (recv_act cap c s.mem s.rc).1)
          (outs ++ delivered s.rc (recv_act cap c s.mem s.rc).1)

pub History-Reach :
    {cap n : ℕ} {payload : ℕ → ℕ} {s : System} {ins outs : List ℕ}
    → History cap payload n s ins outs
    → Reach cap payload n s
History-Reach (start e) = Reach.start e
History-Reach (sends i c ne lt h) = Reach.sends i c ne lt (History-Reach h)
History-Reach (receives c h) = Reach.receives c (History-Reach h)
