-- ===== src/Waiter.antt =====
-- The intrusive list of futex/waiter.rs: `struct Waiter`, `struct WaiterList` and the functions of
-- `impl WaiterList`, over an explicit store. A command returns `none` where the source would read
-- or write through a null or dangling pointer, or where the fuel of a loop has run out.
pub mod Chain
pub mod Frame
pub mod Push
pub mod Pop
pub mod Stack
pub mod Many
pub mod Iter
mod Tests
pub mod Splice
use async_mutex.Common.{
  ℕ, zero, suc, ◌-◌, ◌^◌, ◌<◌, Bool, true, false, ◌&&◌, ◌||◌, not, Option, none, some, List, [],
  ◌∷◌, ltb, ◌==◌, if◌then◌else◌, update,
}

abbrev pub Ptr : Type 0
Ptr = ℕ

abbrev pub null : Ptr
null = 0

abbrev pub usize_max : ℕ
usize_max = 2 ^ 64 - 1

-- The link fields of every `Waiter`, one map for each field; `live` holds of the addresses at
-- which a `Waiter` is pinned.
pub record Links : Type 0 where
  pub live : Ptr → Bool
  pub next : Ptr → Ptr
  pub prev : Ptr → Ptr

abbrev pub Cmd : Type 0 → Type 0
Cmd A = Links → Option (A × Links)

abbrev pub pure : {A : Type 0} → A → Cmd A
pure a h = some (a, h)

-- An invalid access, or no fuel.
abbrev pub fault : {A : Type 0} → Cmd A
fault h = none

module _ {A B : Type 0} where
  abbrev pub and_then : Option (A × Links) → (A → Cmd B) → Option (B × Links)
  and_then none k = none
  and_then (some (a, h)) k = k a h

  infixl 5 ◌>>=◌ ◌>>◌
  abbrev pub ◌>>=◌ : Cmd A → (A → Cmd B) → Cmd B
  command >>= rest = λ h. and_then (command h) rest

  abbrev pub ◌>>◌ : Cmd A → Cmd B → Cmd B
  command >> rest = command >>= λ _. rest

-- `Waiter::next`, `Waiter::prev`, `Waiter::set_next`, `Waiter::set_prev`.
unfoldable pub next : Ptr → Cmd Ptr
next p h = if h.live p then some (h.next p, h) else none

unfoldable pub prev : Ptr → Cmd Ptr
prev p h = if h.live p then some (h.prev p, h) else none

unfoldable pub set_next : Ptr → Ptr → Cmd (Unit {0})
set_next p q h = if h.live p then some (tt, record h { next = update h.next p q }) else none

unfoldable pub set_prev : Ptr → Ptr → Cmd (Unit {0})
set_prev p q h = if h.live p then some (tt, record h { prev = update h.prev p q }) else none

pub record WaiterList : Type 0 where
  pub head : Ptr
  pub tail : Ptr

abbrev pub waiter_list : Ptr → Ptr → WaiterList
waiter_list a b = record { head = a; tail = b }

-- `WaiterList::new`
abbrev pub new : WaiterList
new = waiter_list null null

-- The loop of `from_stack`, with `head` as its variable: it returns the last `head`.
from_stack_loop : ℕ → Ptr → Cmd Ptr
from_stack_loop zero head = fault
from_stack_loop (suc k) head = do
  before ← prev head
  if before == null then pure head else (set_next before head >> from_stack_loop k before)

-- `WaiterList::from_stack`
unfoldable pub from_stack : ℕ → Ptr → Cmd WaiterList
unfolding from_stack_loop
from_stack fuel tail =
    if tail == null
    then pure (waiter_list tail tail)
    else do head ← from_stack_loop fuel tail; pure (waiter_list head tail)

-- `WaiterList::append`
unfoldable pub append : WaiterList → WaiterList → Cmd WaiterList
append self list = if (self.head == null) && (self.tail == null) then pure list else do
  set_next self.tail list.head
  set_prev list.head self.tail
  pure (record self { tail = list.tail })

-- `WaiterList::remove`, in the order of the source: the link from the left, then from the right.
pub remove_left : WaiterList → (waiter before after : Ptr) → Cmd WaiterList
remove_left self waiter before after =
    if before == null
    then pure (if self.head == waiter then record self { head = after } else self)
    else (set_next before after >> pure self)

pub remove_right : WaiterList → (waiter before after : Ptr) → Cmd WaiterList
remove_right self waiter before after =
    if after == null
    then pure (if self.tail == waiter then record self { tail = before } else self)
    else (set_prev after before >> pure self)

unfoldable pub remove : WaiterList → Ptr → Cmd WaiterList
remove self waiter = do
  before ← prev waiter
  after ← next waiter
  self ← remove_left self waiter before after
  remove_right self waiter before after

-- `if result.next() != null() { result.next().set_prev(null()); }` in `pop_front`.
detach : Ptr → Cmd (Unit {0})
detach after = if after == null then pure tt else set_prev after null

-- `WaiterList::pop_front`
unfoldable pub pop_front : WaiterList → Cmd (Option Ptr × WaiterList)
unfolding detach
pop_front self = if self.head == null then pure (none, self) else do
  let result = self.head
  head ← next self.head
  let tail = if self.tail == result then null else self.tail
  after ← next result
  detach after
  set_next result null
  pure (some result, waiter_list head tail)

-- The loop of `pop_front_many`: it returns the last `keep_head`.
skip : ℕ → Ptr → Cmd Ptr
skip zero keep_head = pure keep_head
skip (suc count) keep_head =
    if keep_head == null then pure keep_head else do after ← next keep_head; skip count after

-- `WaiterList::pop_front_many`: what is returned, and what is left in `self`.
unfoldable pub pop_front_many : WaiterList → ℕ → Cmd (WaiterList × WaiterList)
unfolding skip
pop_front_many self count = if count == usize_max then pure (self, new) else do
  keep_head ← skip count self.head
  if keep_head == null then pure (self, new) else do
    ret_tail ← prev keep_head
    if ret_tail == null then pure (new, self) else do
      set_next ret_tail null
      set_prev keep_head null
      pure (waiter_list self.head ret_tail, record self { head = keep_head })

-- `WaiterList::push_back`
unfoldable pub push_back : WaiterList → Ptr → Cmd WaiterList
push_back self waiter =
    if (self.head == null) && (self.tail == null) then pure (waiter_list waiter waiter) else do
      set_next self.tail waiter
      set_prev waiter self.tail
      pure (record self { tail = waiter })

-- `WaiterList::is_empty`
abbrev pub is_empty : WaiterList → Bool
is_empty self = self.head == null
