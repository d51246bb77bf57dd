-- ===== src/ThreadList.antt =====
-- src/kern/thread/threadlist.c: doubly linked lists of threads with a node at each end. A memory maps
-- the address of a node to the node; the node of a thread has the thread's number as its address. An
-- assertion that fails and a NULL pointer that is followed stop the kernel. The DEBUGASSERTs of the file
-- are checked, as in a build that switches them on; where they hold, other builds do the same.
pub mod Chains
pub mod Nodes
pub mod Places
pub mod Laws
pub mod Adding
pub mod Removing
mod Tests
use ed_operating_system.Prelude.{
  ℕ, ◌+◌, ◌-◌, ◌%◌, ◌^◌, Bool, true, false, ◌&&◌, ◌||◌, Option, none, some, ltb, ◌==◌,
  if◌then◌else◌, Outcome, ret, panic, ◌>>=◌,
}

-- `struct threadlistnode`
pub record Node : Type 0 where
  pub prev : Option ℕ
  pub next : Option ℕ
  pub self : Option ℕ

abbrev pub Memory : Type 0
Memory = ℕ → Node

-- `struct threadlist`, with the addresses of its two nodes.
pub record ThreadList : Type 0 where
  pub head : ℕ
  pub tail : ℕ
  pub count : ℕ

abbrev is_null : Option ℕ → Bool
is_null none = true
is_null (some a) = false

-- Stores to a node.
abbrev store : Memory → ℕ → Node → Memory
store m a n b = if a == b then n else m b

unfoldable pub set_prev : Memory → ℕ → Option ℕ → Memory
set_prev m a p = store m a (record (m a) { prev = p })

unfoldable pub set_next : Memory → ℕ → Option ℕ → Memory
set_next m a p = store m a (record (m a) { next = p })

-- The same through a pointer.
abbrev set_prev_of : Memory → Option ℕ → Option ℕ → Outcome Memory
set_prev_of m none p = panic
set_prev_of m (some a) p = ret (set_prev m a p)

abbrev set_next_of : Memory → Option ℕ → Option ℕ → Outcome Memory
set_next_of m none p = panic
set_next_of m (some a) p = ret (set_next m a p)

-- `threadlistnode_init`
abbrev pub node_init : ℕ → Node
node_init t = record { prev = none; next = none; self = some t }

-- `threadlist_init`
unfoldable pub init : Memory → ℕ → ℕ → Memory × ThreadList
init m head tail = (
  store (store m head (record { prev = none; next = some tail; self = none })) tail
      (record { prev = some head; next = none; self = none }),
  record { head = head; tail = tail; count = 0 },
)

-- `threadlist_isempty`
abbrev pub isempty : ThreadList → Bool
isempty tl = tl.count == 0

-- `threadlist_insertafternode`
unfoldable pub insertafternode : Memory → ℕ → ℕ → Outcome Memory
insertafternode m onlist addee =
    if is_null (m addee).prev && is_null (m addee).next
    then (let m1 = set_prev m addee (some onlist) in
        let m2 = set_next m1 addee (m1 onlist).next in
        set_next_of m2 (m2 addee).prev (some addee) >>= λ m3.
        set_prev_of m3 (m3 addee).next (some addee))
    else panic

-- `threadlist_insertbeforenode`
unfoldable pub insertbeforenode : Memory → ℕ → ℕ → Outcome Memory
insertbeforenode m addee onlist =
    if is_null (m addee).prev && is_null (m addee).next
    then (let m1 = set_prev m addee (m onlist).prev in
        let m2 = set_next m1 addee (some onlist) in
        set_next_of m2 (m2 addee).prev (some addee) >>= λ m3.
        set_prev_of m3 (m3 addee).next (some addee))
    else panic

-- `threadlist_removenode`
unfoldable pub removenode : Memory → ℕ → Outcome Memory
removenode m n =
    if is_null (m n).prev || is_null (m n).next
    then panic
    else (set_next_of m (m n).prev (m n).next >>= λ m1.
        set_prev_of m1 (m1 n).next (m1 n).prev >>= λ m2. ret (set_next (set_prev m2 n none) n none))

abbrev pub counted : ThreadList → ThreadList
counted tl = record tl { count = (tl.count + 1) % 2 ^ 32 }

-- The end of the removals: `tl_count` was positive.
abbrev pub discounted : {A : Type 0} → A → ThreadList → Memory → Outcome (A × Memory × ThreadList)
discounted a tl m = if ltb 0 tl.count then ret (a, m, record tl { count = tl.count - 1 }) else panic

-- `threadlist_addhead`
unfoldable pub addhead : Memory → ThreadList → ℕ → Outcome (Memory × ThreadList)
addhead m tl t = insertafternode m tl.head t >>= λ m1. ret (m1, counted tl)

-- `threadlist_addtail`
unfoldable pub addtail : Memory → ThreadList → ℕ → Outcome (Memory × ThreadList)
addtail m tl t = insertbeforenode m t tl.tail >>= λ m1. ret (m1, counted tl)

-- The node that `threadlist_remhead` and `threadlist_remtail` take out, if it is not the other end.
abbrev pub take_node : Memory → ThreadList → ℕ → Option ℕ → Outcome (Option ℕ × Memory × ThreadList)
take_node m tl n none = ret (none, m, tl)
take_node m tl n (some beyond) = removenode m n >>= λ m1. discounted (m1 n).self tl m1

abbrev take_head : Memory → ThreadList → Option ℕ → Outcome (Option ℕ × Memory × ThreadList)
take_head m tl none = panic
take_head m tl (some n) = take_node m tl n (m n).next

abbrev take_tail : Memory → ThreadList → Option ℕ → Outcome (Option ℕ × Memory × ThreadList)
take_tail m tl none = panic
take_tail m tl (some n) = take_node m tl n (m n).prev

-- `threadlist_remhead`
unfoldable pub remhead : Memory → ThreadList → Outcome (Option ℕ × Memory × ThreadList)
remhead m tl = take_head m tl (m tl.head).next

-- `threadlist_remtail`
unfoldable pub remtail : Memory → ThreadList → Outcome (Option ℕ × Memory × ThreadList)
remtail m tl = take_tail m tl (m tl.tail).prev

-- `threadlist_insertafter`
unfoldable pub insertafter : Memory → ThreadList → ℕ → ℕ → Outcome (Memory × ThreadList)
insertafter m tl onlist addee = insertafternode m onlist addee >>= λ m1. ret (m1, counted tl)

-- `threadlist_insertbefore`
unfoldable pub insertbefore : Memory → ThreadList → ℕ → ℕ → Outcome (Memory × ThreadList)
insertbefore m tl addee onlist = insertbeforenode m addee onlist >>= λ m1. ret (m1, counted tl)

-- `threadlist_remove`
unfoldable pub remove : Memory → ThreadList → ℕ → Outcome (Unit {0} × Memory × ThreadList)
remove m tl t = removenode m t >>= λ m1. discounted tt tl m1
