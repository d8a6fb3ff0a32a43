-- ===== src/Mpsc/Letters.antt =====
-- A step of mpsc.rs keeps the place of each waiter, and its message until it is taken.
use native.Mathlib.Decide.{ℕ_discrete}
use async_mutex.Common.{
  ℕ, ◌+◌, ◌≤◌, ◌<◌, ◌≡◌, ◌≢◌, ◌⊎◌, refl, ◌∙◌, arith, Option, some, ◌==◌, if◌then◌else◌, update,
  update_self, update-ne, count, tally-ge,
}
use async_mutex.Tasks.Counts.{count-enqueue, count-erase_self, count-erase_ne}
use async_mutex.Mpsc.{
  Waker, waiting, done, Choice, Shared, Pc, idle, trying, writing, asleep, dropping, flip_load,
  flip, unlinking, Rc, starting, load_popped, passing, backfilling, waking, act, recv_act,
}
use async_mutex.Mpsc.Waiting.{cancelling, guarding, Inv}

abbrev pub is_done : Waker → ℕ
is_done done = 1
is_done _ = 0

-- The sender's waiter has been pushed, and the sender has not taken notice of its removal.
abbrev pub pushed : Pc → ℕ
pushed asleep = 1
pushed dropping = 1
pushed flip_load = 1
pushed (flip h s t) = 1
pushed unlinking = 1
pushed _ = 0

-- The receiver has popped waiter `j` and not yet taken its message.
abbrev pub carries : ℕ → Rc → ℕ
carries j (load_popped head r v) = if v == j then 1 else 0
carries j (passing head r v h s t) = if v == j then 1 else 0
carries j (backfilling head r v) = if v == j then 1 else 0
carries j _ = 0

-- The receiver has popped waiter `j` and not yet woken it.
abbrev pub aims : ℕ → Rc → ℕ
aims j (waking r v) = if v == j then 1 else 0
aims j p = carries j p

-- How often waiter `j` is queued, or carried with its message.
abbrev pub queued : ℕ → Shared → Rc → ℕ
queued j m rc = count j m.inbox + count j m.queue + carries j rc

-- The message of a sender that waits is there as long as it has not been taken.
abbrev pub Kept : (payload : ℕ → ℕ) → ℕ → Shared → Rc → Type 0
Kept payload j m rc =
    (m.waker j ≢ Waker.none)
    × (m.waker j ≡ done → m.message j ≡ Option.none)
    × (1 ≤ queued j m rc → m.message j ≡ some (payload j))

abbrev pub Letter : (payload : ℕ → ℕ) → ℕ → Shared → Rc → Pc → Type 0
Letter payload j m rc (trying h s t) = m.message j ≡ some (payload j)
Letter payload j m rc (writing at) = m.message j ≡ some (payload j)
Letter payload j m rc asleep = Kept payload j m rc
Letter payload j m rc dropping = Kept payload j m rc
Letter payload j m rc flip_load = Kept payload j m rc
Letter payload j m rc (flip h s t) = Kept payload j m rc × (t ≡ 0 → count j m.inbox ≡ 0)
Letter payload j m rc unlinking = Kept payload j m rc × (count j m.inbox ≡ 0)
Letter payload j m rc _ = Unit

abbrev pub Taken : Shared → Rc → Type 0
Taken m (waking r v) = m.message v ≡ Option.none
Taken m _ = Unit

pub record Post (payload : ℕ → ℕ) (n : ℕ) (m : Shared) (pc : ℕ → Pc) (rc : Rc) : Type 0 where
  pub place :
      (j : ℕ) → count j m.inbox + count j m.queue + aims j rc + is_done (m.waker j) ≡ pushed (pc j)
  pub letters : (j : ℕ) → Letter payload j m rc (pc j)
  pub taken : Taken m rc
  pub nobody : pc 0 ≡ idle
  pub outside : (j : ℕ) → n ≤ j → pc j ≡ idle

carries-le : (j : ℕ) (p : Rc) → carries j p ≤ aims j p
carries-le j p = ground arith

aims-le : (j : ℕ) (p : Rc) → aims j p ≤ guarding p
aims-le j p = ground arith

module _ {cap n : ℕ} {payload : ℕ → ℕ} {m : Shared} {pc : ℕ → Pc} {rc : Rc}
    (inv : Inv cap n m pc rc) (post : Post payload n m pc rc) (c : Choice) where
  module _ (i : ℕ) (pos : i ≢ 0) (lt : i < n) where
    abbrev mem' : Pc → Shared
    mem' p = (act cap payload i c m p).0

    -- While a sender cancels its wait, the receiver carries no waiter.
    unaimed : (j : ℕ) → cancelling (pc i) ≡ 1 → aims j rc ≡ 0
    unaimed j h = ground (
      arith,
      inv.apart,
      inv.guards_is,
      inv.locked_is,
      tally-ge cancelling n pc i lt,
      aims-le j rc,
    )

    act-others :
        (p : Pc) (j : ℕ)
        → pc i ≡ p
        → j ≢ i
        → ((mem' p).waker j ≡ m.waker j)
          × ((mem' p).message j ≡ m.message j)
          × (count j (mem' p).inbox + count j (mem' p).queue ≡ count j m.inbox + count j m.queue)
          × (count j (mem' p).inbox ≤ count j m.inbox)
    unfolding act
    act-others idle j here ne = ground arith
    act-others unlinking j here ne = ground (arith, count-erase_ne i j m.queue ne)
    act-others p j here ne = ground (arith, count-enqueue j m.queue m.inbox, post.letters i)

    act-place_self :
        (p : Pc)
        → pc i ≡ p
        → count i (mem' p).inbox + count i (mem' p).queue + aims i rc + is_done ((mem' p).waker i)
          ≡ pushed (act cap payload i c m p).1
    unfolding act
    act-place_self idle here = ground (arith, post.place i)
    act-place_self unlinking here =
        ground (arith, post.place i, post.letters i, unaimed i, count-erase_self i m.queue)
    act-place_self p here =
        ground (arith, post.place i, post.letters i, count-enqueue i m.queue m.inbox)

    act-Letter_self : (p : Pc) → pc i ≡ p → Letter payload i (mem' p) rc (act cap payload i c m p).1
    unfolding act
    act-Letter_self idle here = ground arith
    act-Letter_self p here =
        ground
          (arith, post.place i, post.letters i, count-enqueue i m.queue m.inbox, carries-le i rc)

    act-Letter_other :
        (j : ℕ)
        → j ≢ i
        → (p : Pc) → pc j ≡ p
        → Letter payload j m rc p
        → Letter payload j (mem' (pc i)) rc p
    act-Letter_other j ne idle here k = tt
    act-Letter_other j ne p here k = ground (arith, act-others (pc i) j refl ne, k)

    -- A sender whose message the receiver has taken leaves it so.
    act-message :
        (p : Pc)
        → pc i ≡ p
        → 1 ≤ aims i rc
        → m.message i ≡ Option.none
        → (mem' p).message i ≡ Option.none
    unfolding act
    act-message idle here aimed gone = ground (arith, post.place i)
    act-message p here aimed gone = ground (arith, post.place i, post.letters i, unaimed i)

    act-Taken : (r : Rc) → rc ≡ r → Taken m r → Taken (mem' (pc i)) r
    act-Taken (waking r v) here gone = elim (ℕ_discrete v i) [
      | yes e ↦ rw e (act-message (pc i) refl (rw (here, e) (ground arith)) (rw e at gone))
      | no ne ↦ (act-others (pc i) v refl ne).1 ∙ gone
    ]
    act-Taken starting here gone = tt
    act-Taken r here gone = ground arith

    pub act-Post : Post payload n (mem' (pc i)) (update pc i (act cap payload i c m (pc i)).1) rc
    act-Post = record {
      place = λ j. elim (ℕ_discrete j i) [
        | yes e ↦
            rw (e, update_self pc i (act cap payload i c m (pc i)).1) (act-place_self (pc i) refl)
        | no ne ↦
            rw (update-ne pc i (act cap payload i c m (pc i)).1 j ne)
              (ground (arith, act-others (pc i) j refl ne, post.place j))
      ];
      letters = λ j. elim (ℕ_discrete j i) [
        | yes e ↦
            rw (e, update_self pc i (act cap payload i c m (pc i)).1) (act-Letter_self (pc i) refl)
        | no ne ↦
            rw (update-ne pc i (act cap payload i c m (pc i)).1 j ne)
              (act-Letter_other j ne (pc j) refl (post.letters j))
      ];
      taken = act-Taken rc refl post.taken;
      nobody = ground (arith, post.nobody);
      outside = λ j h. ground (arith, post.outside j);
    }

  -- The waiter that the receiver has popped is that of a sender that waits.
  target_cases :
      (w : ℕ) (p : Pc)
      → pc w ≡ p
      → 1 + is_done (m.waker w) ≤ pushed p
      → Letter payload w m rc p
      → m.waker w ≡ waiting
  target_cases w p here k l = ground arith

  pub target : (w : ℕ) → 1 ≤ aims w rc → m.waker w ≡ waiting
  target w aimed = target_cases w (pc w) refl (omega (arith, post.place w)) (post.letters w)

  -- It has its message until that is taken.
  message_cases :
      (w : ℕ) (p : Pc)
      → pc w ≡ p
      → 1 ≤ pushed p
      → 1 ≤ carries w rc
      → Letter payload w m rc p
      → m.message w ≡ some (payload w)
  message_cases w p here k h l = ground arith

  pub letter : (w : ℕ) → 1 ≤ carries w rc → m.message w ≡ some (payload w)
  letter w h =
      message_cases w (pc w) refl (omega (arith, post.place w, carries-le w rc)) h (post.letters w)

  recv_mem' : Rc → Shared
  recv_mem' p = (recv_act cap c m p).0

  recv_act-others :
      (p : Rc) (j : ℕ)
      → rc ≡ p
      → (count j (recv_mem' p).inbox
            + count j (recv_mem' p).queue
            + aims j (recv_act cap c m p).1
            + is_done ((recv_mem' p).waker j)
          ≡ count j m.inbox + count j m.queue + aims j rc + is_done (m.waker j))
  unfolding recv_act recv_mem'
  recv_act-others starting j here = ground arith
  recv_act-others (waking r v) j here = ground (arith, target v)
  recv_act-others p j here = ground (arith, count-enqueue j m.queue m.inbox)

  abbrev Changed : Rc → ℕ → Type 0
  Changed p j =
      (((recv_mem' p).waker j ≡ m.waker j)
        ⊎ (((recv_mem' p).waker j ≡ done) × ((recv_mem' p).message j ≡ Option.none)))
      × (count j (recv_mem' p).inbox ≤ count j m.inbox)
      × (queued j (recv_mem' p) (recv_act cap c m p).1 ≤ queued j m rc)
      × (((recv_mem' p).message j ≡ m.message j)
          ⊎ (((recv_mem' p).message j ≡ Option.none)
              × (queued j (recv_mem' p) (recv_act cap c m p).1 ≡ 0)
              × (pushed (pc j) ≡ 1)))

  recv_act-Changed : (p : Rc) → rc ≡ p → (j : ℕ) → Changed p j
  unfolding recv_act recv_mem'
  recv_act-Changed starting here j = ground arith
  recv_act-Changed (backfilling head r v) here j =
      ground (arith, letter v (rw here (ground arith)), post.place j)
  recv_act-Changed (waking r v) here j =
      ground (arith, target v (rw here (ground arith)), rw here at post.taken)
  recv_act-Changed p here j = ground (arith, count-enqueue j m.queue m.inbox)

  recv_act-Letter :
      (j : ℕ) (q : Pc)
      → pc j ≡ q
      → Letter payload j m rc q
      → Letter payload j (recv_mem' rc) (recv_act cap c m rc).1 q
  recv_act-Letter j idle here k = tt
  recv_act-Letter j q here k = ground (arith, recv_act-Changed rc refl j, k)

  recv_act-Taken : (p : Rc) → rc ≡ p → Taken (recv_mem' p) (recv_act cap c m p).1
  unfolding recv_act recv_mem'
  recv_act-Taken starting here = ground arith
  recv_act-Taken (backfilling head r v) here = ground (arith, letter v (rw here (ground arith)))
  recv_act-Taken p here = ground (arith, rw here at post.taken)

  pub recv_act-Post : Post payload n (recv_act cap c m rc).0 pc (recv_act cap c m rc).1
  unfolding recv_mem'
  recv_act-Post = record {
    place = λ j. recv_act-others rc j refl ∙ post.place j;
    letters = λ j. recv_act-Letter j (pc j) refl (post.letters j);
    taken = recv_act-Taken rc refl;
    nobody = post.nobody;
    outside = post.outside;
  }
