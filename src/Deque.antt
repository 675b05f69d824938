-- ===== src/Deque.antt =====
-- src/work_stealing_deque.c: the Chase-Lev deque over a circular array that grows. Each function here
-- is one call that no other thread interrupts; what a compare-exchange of another thread does to it
-- enters as the argument `exchanged`.
pub mod Cells
pub mod Contents
pub mod Taking
mod Tests
use libfiber.Prelude.{
  ℕ, zero, suc, ◌+◌, ◌-◌, ◌%◌, ◌^◌, Bool, ◌&&◌, ◌||◌, not, true, false, ◌==◌, leb, ltb,
  if◌then◌else◌, update, Option, none, some, sub64,
}

abbrev pub add64 : ℕ → ℕ → ℕ
add64 a b = (a + b) % 2 ^ 64

abbrev pub negative : ℕ → Bool
negative a = leb (2 ^ 63) a

-- `wsd_circular_array_t`. Its `size` is `2 ^ log_size`, so `i & size_minus_one` is `i % 2 ^ log_size`.
pub record CircularArray : Type 0 where
  pub log_size : ℕ
  pub cell : ℕ → ℕ

abbrev pub size : CircularArray → ℕ
size a = 2 ^ a.log_size

-- `malloc` leaves the cells as they were: their first contents are an argument.
abbrev pub create : (ℕ → ℕ) → ℕ → CircularArray
create garbage log_size = record { log_size = log_size; cell = garbage }

abbrev pub get : CircularArray → ℕ → ℕ
get a i = a.cell (i % size a)

abbrev pub put : CircularArray → ℕ → ℕ → CircularArray
put a i p = record a { cell = update a.cell (i % size a) p }

-- The loop of `wsd_circular_array_grow`, with `k` rounds left.
unfoldable pub copy : CircularArray → CircularArray → ℕ → ℕ → CircularArray
copy a new_a i zero = new_a
copy a new_a i (suc k) = copy a (put new_a i (get a i)) (i + 1) k

-- A new array of twice the size with the cells from `start` to `end`.
unfoldable pub grow : (ℕ → ℕ) → CircularArray → ℕ → ℕ → CircularArray
unfolding copy
grow garbage a start end = copy a (create garbage (a.log_size + 1)) start (end - start)

pub record Deque : Type 0 where
  pub top : ℕ
  pub bottom : ℕ
  pub underlying_array : CircularArray

abbrev pub create_deque : (ℕ → ℕ) → Deque
create_deque garbage = record { top = 0; bottom = 0; underlying_array = create garbage 8 }

-- A taken element, WSD_EMPTY or WSD_ABORT.
pub data Taken : Type 0 where
  item : ℕ → Taken
  empty abort : Taken

unfoldable pub size_of : Deque → ℕ
size_of d = let n = sub64 d.bottom d.top in if negative n then 0 else n

-- `allocated` says whether `malloc` succeeds in growing the array; if not, the code goes on with
-- NULL, and there is no result.
unfoldable pub push_bottom : Bool → (ℕ → ℕ) → Deque → ℕ → Option Deque
unfolding grow
push_bottom allocated garbage d p =
    let b = d.bottom in
    let t = d.top in
    let a = d.underlying_array in
    let new_a = (if leb (size a - 1) (sub64 b t) then grow garbage a t b else a) in
    if leb (size a - 1) (sub64 b t) && not allocated
    then none
    else some (record d { underlying_array = put new_a b p; bottom = add64 b 1 })

-- `exchanged` says whether the compare-exchange on `top` succeeds; a weak one may fail although `top`
-- has not changed.
unfoldable pub pop_bottom : Bool → Deque → Deque × Taken
pop_bottom exchanged d =
    let b = sub64 d.bottom 1 in
    let a = d.underlying_array in
    let t = d.top in
    let n = sub64 b t in
    if negative n
    then (record d { bottom = t }, empty)
    else if ltb 0 n
    then (record d { bottom = b }, item (get a b))
    else if exchanged
    then (record d { top = add64 t 1; bottom = add64 t 1 }, item (get a b))
    else (record d { bottom = add64 t 1 }, abort)

unfoldable pub steal : Bool → Deque → Deque × Taken
steal exchanged d =
    let t = d.top in
    let n = sub64 d.bottom t in
    if negative n || n == 0
    then (d, empty)
    else if exchanged
    then (record d { top = add64 t 1 }, item (get d.underlying_array t))
    else (d, abort)
