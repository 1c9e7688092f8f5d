-- ===== src/Wheel.antt =====
-- wheel_timer/wheel_timer.c: the hierarchical timer wheel. One record holds the wheel and the timer
-- nodes; a node is its address, and a list of nodes the list of their addresses. Calls hold the lock
-- of the wheel from end to end, so each is one step. No call is made with NULL for the wheel or node.
pub mod Slots
pub mod Moves
pub mod Turns
pub mod Ticks
pub mod Arming
pub mod Firing
pub mod Deleting
mod Tests
use rsvp_te.Prelude.{
  ℕ, ◌+◌, ◌-◌, ◌/◌, ◌%◌, ◌^◌, Bool, true, false, not, ◌&&◌, ◌||◌, List, [], ◌∷◌, ◌++◌, Option, none,
  some, ltb, leb, ◌==◌, if◌then◌else◌, contains,
}

-- `struct timer_node_s`; its list links are the lists of the wheel.
pub record Node : Type 0 where
  pub expires : ℕ
  pub period : ℕ
  pub callback : Option ℕ
  pub arg : ℕ
  pub wheel : Option ℕ
  pub pending : Bool
  pub executing : Bool

-- `timer_node_init`
abbrev pub timer_node_init : Node
timer_node_init = record {
  expires = 0;
  period = 0;
  callback = none;
  arg = 0;
  wheel = none;
  pending = false;
  executing = false;
}

-- `struct timer_wheel`; `tv k i` is the list `tvk[i]`, and `node_lists` are the nodes that a worker
-- thread has taken and did not come to.
pub record Wheel : Type 0 where
  pub self : ℕ
  pub jiffies : ℕ
  pub tv : ℕ → ℕ → List ℕ
  pub tick_ms : ℕ
  pub running : Bool
  pub expired_list : List ℕ
  pub node_lists : List ℕ
  pub node : ℕ → Node

-- What a call returns: 0, 1, -EINVAL, -ESHUTDOWN, -EEXIST.
pub data Status : Type 0 where
  success not_pending einval eshutdown eexist : Status

-- `timer_wheel_create`, past the calls of pthread and calloc.
unfoldable pub timer_wheel_create : ℕ → ℕ → ℕ → (ℕ → Node) → Option Wheel
timer_wheel_create self tick_ms worker_count node =
    if tick_ms == 0 || worker_count == 0
    then none
    else some record {
      self = self;
      jiffies = 0;
      tv = λ k i. [];
      tick_ms = tick_ms;
      running = true;
      expired_list = [];
      node_lists = [];
      node = node;
    }

unfoldable pub change_node : Wheel → ℕ → (Node → Node) → Wheel
change_node w n f = record w { node = λ m. if n == m then f (w.node m) else w.node m }

-- The list that `internal_add_timer` chooses at the tick `j` for a timer that expires at `e`: its
-- wheel and its index there. A difference of 2 ^ 63 or more is a negative `int64_t`.
unfoldable pub slot_of : ℕ → ℕ → ℕ × ℕ
slot_of j e =
    let idx = (e + 2 ^ 64 - j) % 2 ^ 64 in
    if idx == 0 || leb (2 ^ 63) idx
    then (1, (j + 1) % 256)
    else if ltb idx 256
    then (1, e % 256)
    else if ltb idx (2 ^ 14)
    then (2, e / 2 ^ 8 % 64)
    else if ltb idx (2 ^ 20)
    then (3, e / 2 ^ 14 % 64)
    else if ltb idx (2 ^ 26)
    then (4, e / 2 ^ 20 % 64)
    else (5, e / 2 ^ 26 % 64)

unfoldable pub internal_add_timer : Wheel → ℕ → Wheel
unfolding change_node
internal_add_timer w n =
    let s = slot_of w.jiffies (w.node n).expires in
    record (change_node w n (λ m. record m { pending = true })) {
      tv = λ k i. if s.0 == k && s.1 == i then w.tv k i ++ (n ∷ []) else w.tv k i;
    }

unfoldable pub add_all : Wheel → List ℕ → Wheel
add_all w [] = w
add_all w (n ∷ ns) = add_all (internal_add_timer w n) ns

-- `list_splice_init` of a list of the wheel: the list is empty after it.
unfoldable pub emptied : Wheel → ℕ → ℕ → Wheel
emptied w k i = record w { tv = λ k' i'. if k == k' && i == i' then [] else w.tv k' i' }

unfoldable pub cascade : Wheel → ℕ → ℕ → Wheel
unfolding emptied add_all
cascade w k i = add_all (emptied w k i) (w.tv k i)

-- The cascades of the tick: each wheel is turned when the one before it is at index 0.
unfoldable pub cascades : Wheel → ℕ → Wheel
cascades w j =
    let w2 = cascade w 2 (j / 2 ^ 8 % 64) in
    let w3 = cascade w2 3 (j / 2 ^ 14 % 64) in
    let w4 = cascade w3 4 (j / 2 ^ 20 % 64) in
    let w5 = cascade w4 5 (j / 2 ^ 26 % 64) in
    if not (j % 256 == 0)
    then w
    else if not (j / 2 ^ 8 % 64 == 0)
    then w2
    else if not (j / 2 ^ 14 % 64 == 0)
    then w3
    else if not (j / 2 ^ 20 % 64 == 0)
    then w4
    else w5

-- The timers of the current list are due: they go to the front of `expired_list`.
unfoldable pub expire : Wheel → ℕ → Wheel
unfolding emptied
expire w i =
    let due = w.tv 1 i in
    record (emptied w 1 i) {
      node = λ m. if contains m due then record (w.node m) { pending = false } else w.node m;
      expired_list = due ++ w.expired_list;
    }

-- The body of the loop of `tick_thread_func`.
unfoldable pub tick : Wheel → Wheel
unfolding cascades expire
tick w =
    let next_jiffies = (w.jiffies + 1) % 2 ^ 64 in
    expire (cascades (record w { jiffies = next_jiffies }) next_jiffies) (next_jiffies % 256)

-- The list without a node.
abbrev pub delete : ℕ → List ℕ → List ℕ
delete n [] = []
delete n (m ∷ ms) = if m == n then delete n ms else m ∷ delete n ms

-- `worker_thread_func`: a worker takes the expired timers, and runs the callback of each.
unfoldable pub worker_take : Wheel → Wheel
worker_take w = record w { node_lists = w.node_lists ++ w.expired_list; expired_list = [] }

-- The worker comes to a node: the wheel, and the callback with its argument.
unfoldable pub worker_start : Wheel → ℕ → Wheel × Option (ℕ × ℕ)
unfolding change_node
worker_start w n = (
  record (change_node w n (λ m. record m { executing = true })) {
    node_lists = delete n w.node_lists;
  },
  elim (w.node n).callback [ none ↦ none | some cb ↦ some (cb, (w.node n).arg) ],
)

-- The callback has returned.
unfoldable pub worker_finish : Wheel → ℕ → Wheel
unfolding change_node internal_add_timer
worker_finish w n =
    let m = w.node n in
    let w' = change_node w n (λ m. record m { executing = false }) in
    if w.running && (ltb 0 m.period && not m.pending)
    then internal_add_timer
        (change_node w' n (λ m. record m { expires = (m.expires + m.period) % 2 ^ 64 })) n
    else if m.period == 0 && not m.pending
    then change_node w' n (λ m. record m { wheel = none })
    else w'

-- `list_del` of a node of the wheel.
unfoldable pub list_del : Wheel → ℕ → Wheel
list_del w n = record w { tv = λ k i. delete n (w.tv k i) }

-- `if (node->pending) { list_del(...); node->pending = false; }`
unfoldable pub detach : Wheel → ℕ → Wheel
unfolding list_del change_node
detach w n =
    if (w.node n).pending
    then change_node (list_del w n) n (λ m. record m { pending = false })
    else w

-- `node->wheel && node->wheel != wheel`
unfoldable pub elsewhere : Wheel → ℕ → Bool
elsewhere w n = elim (w.node n).wheel [ none ↦ false | some v ↦ not (v == w.self) ]

-- The delay in ticks, rounded up.
unfoldable pub ticks_of : Wheel → ℕ → ℕ
ticks_of w ms = if ltb 0 ms && not (ms % w.tick_ms == 0) then ms / w.tick_ms + 1 else ms / w.tick_ms

-- A node that is not pending and is linked still, in `expired_list` or at a worker, would be linked
-- a second time, which breaks both lists: `none`.
unfoldable pub linked : Wheel → ℕ → Bool
linked w n = not (w.node n).pending && (contains n w.expired_list || contains n w.node_lists)

-- The guards that the adding functions share.
unfoldable pub admit : Wheel → ℕ → Wheel → Option (Wheel × Status)
unfolding linked
admit w n w' =
    if not w.running
    then some (w, eshutdown)
    else if elsewhere w n
    then some (w, eexist)
    else if linked w n
    then none
    else some (w', success)

-- The fields that `timer_add`, `timer_add_periodic` and `timer_mod` set.
abbrev pub one_shot : Wheel → ℕ → Option ℕ → ℕ → Node → Node
one_shot w expires_ms cb arg m = record m {
  wheel = some w.self;
  expires = (w.jiffies + ticks_of w expires_ms) % 2 ^ 64;
  period = 0;
  callback = cb;
  arg = arg;
}

unfoldable pub period_of : Wheel → ℕ → ℕ
period_of w period_ms = let q = period_ms / w.tick_ms in if q == 0 then 1 else q

abbrev pub periodic : Wheel → ℕ → Option ℕ → ℕ → Node → Node
periodic w period_ms cb arg m = record m {
  wheel = some w.self;
  period = period_of w period_ms;
  expires = (w.jiffies + period_of w period_ms) % 2 ^ 64;
  callback = cb;
  arg = arg;
}

abbrev pub moved : Wheel → ℕ → Node → Node
moved w expires_ms m = record m {
  wheel = some w.self;
  expires = (w.jiffies + ticks_of w expires_ms) % 2 ^ 64;
}

-- Past the guards: the node is taken out of its list, its fields are set, and it is put back.
abbrev pub armed : Wheel → ℕ → (Node → Node) → Wheel
armed w n f = internal_add_timer (change_node (detach w n) n f) n

unfoldable pub timer_add : Wheel → ℕ → ℕ → Option ℕ → ℕ → Option (Wheel × Status)
unfolding admit detach change_node internal_add_timer ticks_of
timer_add w n expires_ms cb arg = admit w n (armed w n (one_shot w expires_ms cb arg))

unfoldable pub timer_add_periodic : Wheel → ℕ → ℕ → Option ℕ → ℕ → Option (Wheel × Status)
unfolding admit detach change_node internal_add_timer period_of
timer_add_periodic w n period_ms cb arg =
    if period_ms == 0 then some (w, einval) else admit w n (armed w n (periodic w period_ms cb arg))

unfoldable pub timer_mod : Wheel → ℕ → ℕ → Option (Wheel × Status)
unfolding admit detach change_node internal_add_timer ticks_of
timer_mod w n expires_ms = admit w n (armed w n (moved w expires_ms))

unfoldable pub timer_del : Wheel → ℕ → Wheel × Status
unfolding change_node list_del
timer_del w n =
    let w' = change_node w n (λ m. record m { period = 0 }) in
    let gone = λ (m : Node). record m { pending = false; wheel = none } in
    if elsewhere w n
    then (w, einval)
    else if (w.node n).pending
    then (change_node (list_del w' n) n gone, success)
    else if (w.node n).executing
    then (w', success)
    else (w', not_pending)

-- `timer_del_sync`: what the deletion returns, and whether the caller waits for a callback.
unfoldable pub timer_del_sync : Wheel → ℕ → Wheel × Status × Bool
unfolding timer_del
timer_del_sync w n =
    let r = timer_del w n in (r.0, r.1, elim r.1 [ einval ↦ false | _ ↦ (r.0.node n).executing ])
