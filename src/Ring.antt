-- ===== src/Ring.antt =====
-- include/lockfree_ring_buffer.h: a bounded buffer on a ring of 2^k cells, and threads interleaved at its
-- atomic steps.
pub mod Cells
pub mod Claim
pub mod Turns
pub mod Order
pub mod Stages
mod Tests
use libfiber.Prelude.{
  ℕ, ◌+◌, ◌-◌, ◌%◌, ◌^◌, Bool, true, false, not, ◌&&◌, ◌==◌, leb, ltb, if◌then◌else◌, List, [], ◌∷◌,
  ◌++◌, update, sub64,
}

-- `lockfree_ring_buffer_t`; NULL is 0.
pub record Ring : Type 0 where
  pub high : ℕ
  pub low : ℕ
  pub log_size : ℕ
  pub buffer : ℕ → ℕ

-- `calloc` gives a buffer of NULLs.
abbrev pub create : ℕ → Ring
create power_of_2_size = record { high = 0; low = 0; log_size = power_of_2_size; buffer = λ i. 0 }

abbrev pub size : Ring → ℕ
size rb = 2 ^ rb.log_size

-- `i & rb->power_of_2_mod`
abbrev pub index : Ring → ℕ → ℕ
index rb i = i % size rb

abbrev pub incr64 : ℕ → ℕ
incr64 a = (a + 1) % 2 ^ 64

-- Where a thread stands in `trypush` or `trypop`, with what it has loaded: it is away; it has loaded the
-- first counter, and the second; its tests have let it through to the exchange; or it has to write the
-- cell.
pub data Pc : Type 0 where
  away : Pc
  push_low : ℕ → ℕ → Pc
  push_both : ℕ → ℕ → ℕ → Pc
  push_through : ℕ → ℕ → Pc
  storing : ℕ → ℕ → Pc
  pop_high : ℕ → Pc
  pop_both : ℕ → ℕ → Pc
  pop_through : ℕ → ℕ → Pc
  clearing : ℕ → Pc

-- `put` has the values in the order of the exchanges of their pushes, `taken` what the pops return, in
-- the order of theirs; `queue` is the abstract queue, which an exchange of a push lengthens at the end and
-- that of a pop shortens at the front.
pub record System : Type 0 where
  pub ring : Ring
  pub pc : ℕ → Pc
  pub put : List ℕ
  pub taken : List ℕ
  pub queue : List ℕ

-- `spurious` is the failure of a weak compare-exchange for no reason.
pub data Action : Type 0 where
  do_push : ℕ → Action
  do_pop go spurious : Action

abbrev pub moved : System → ℕ → Pc → System
moved s i p = record s { pc = update s.pc i p }

abbrev pub tail : List ℕ → List ℕ
tail [] = []
tail (x ∷ xs) = xs

-- The exchange of `high` in `trypush`.
abbrev pub exchange_high : ℕ → ℕ → System → ℕ → System
exchange_high message high s i =
    let rb = s.ring in
    if rb.high == high
    then record s {
      ring = record rb { high = incr64 high };
      pc = update s.pc i (storing message high);
      put = s.put ++ (message ∷ []);
      queue = s.queue ++ (message ∷ []);
    }
    else moved s i away

-- The exchange of `low` in `trypop`.
abbrev pub exchange_low : ℕ → ℕ → System → ℕ → System
exchange_low low ret s i =
    let rb = s.ring in
    if rb.low == low
    then record s {
      ring = record rb { low = incr64 low };
      pc = update s.pc i (clearing low);
      taken = s.taken ++ (ret ∷ []);
      queue = tail s.queue;
    }
    else moved s i away

abbrev pub write : ℕ → ℕ → System → ℕ → System
write at value s i =
    let rb = s.ring in
    record s {
      ring = record rb { buffer = update rb.buffer (index rb at) value };
      pc = update s.pc i away;
    }

-- Thread `i` takes a step. A push is of a value that is not NULL.
unfoldable pub act : Action → Pc → System → ℕ → System
act (do_push message) away s i = if message == 0 then s else moved s i (push_low message s.ring.low)
act go (push_low message low) s i = moved s i (push_both message low s.ring.high)
act go (push_both message low high) s i = moved s i (
    if (s.ring.buffer (index s.ring high) == 0) && ltb (sub64 high low) (size s.ring)
    then push_through message high
    else away)
act go (push_through message high) s i = exchange_high message high s i
act spurious (push_through message high) s i = moved s i away
act go (storing message high) s i = write high message s i
act do_pop away s i = moved s i (pop_high s.ring.high)
act go (pop_high high) s i = moved s i (pop_both high s.ring.low)
act go (pop_both high low) s i =
    let ret = s.ring.buffer (index s.ring low) in
    moved s i (if not (ret == 0) && ltb low high then pop_through low ret else away)
act go (pop_through low ret) s i = exchange_low low ret s i
act spurious (pop_through low ret) s i = moved s i away
act go (clearing low) s i = write low 0 s i
act a p s i = s

-- A schedule of `n` threads.
unfoldable pub run : ℕ → List (ℕ × Action) → System → System
unfolding act
run n [] s = s
run n ((i, a) ∷ l) s = run n l (if ltb i n then act a (s.pc i) s i else s)
