-- ===== src/Mpsc/Threads.antt =====
-- Many producers and one consumer at one FIFO, interleaved at the steps of mpsc_fifo_push: a
-- schedule is a list of actions, and each runs one step of a thread.
use libfiber.Prelude.{ℕ, List, [], ◌∷◌, ◌++◌, Bool, true, false, ◌&&◌, not, update, ◌==◌}
use libfiber.Prelude.{if◌then◌else◌}
use libfiber.Mpsc.{Fifo, publish, link, trypop}
use libfiber.Mpsc.Chain.{Pc, idle, linking}

-- `owned` holds the nodes that belong to the clients. `pushed` has the values in the order in which
-- their pushes exchanged the tail, `popped` those that the consumer found in the nodes it popped.
pub record System : Type 0 where
  pub fifo : Fifo
  pub pc : ℕ → Pc
  pub owned : ℕ → Bool
  pub pushed : List ℕ
  pub popped : List ℕ

-- Thread `i` pushes its node `n` with value `v`, thread `i` links the node it has published, and the
-- consumer pops.
pub data Action : Type 0 where
  start : ℕ → ℕ → ℕ → Action
  finish : ℕ → Action
  pop : Action

abbrev pub is_idle : Pc → Bool
is_idle idle = true
is_idle (linking p n) = false

-- The client writes the node that it owns, then the first half of the push runs.
unfoldable pub published : System → ℕ → ℕ → ℕ → System
unfolding publish
published s i n v =
    let f = s.fifo in
    let (g, prev_tail) = publish (record f { value = update f.value n v }) n in
    record s {
      fifo = g;
      pc = update s.pc i (linking prev_tail n);
      owned = update s.owned n false;
      pushed = s.pushed ++ (v ∷ []);
    }

unfoldable pub linked : System → ℕ → ℕ → ℕ → System
unfolding link
linked s i p n = record s { fifo = link s.fifo p n; pc = update s.pc i idle }

-- The consumer takes the node that `trypop` returns, if any, and reads its value.
unfoldable pub consumed : System → System
unfolding trypop
consumed s =
    let (g, node) = trypop s.fifo in
    if node == 0 then s else record s {
      fifo = g;
      owned = update s.owned node true;
      popped = s.popped ++ (g.value node ∷ []);
    }

-- An action that its thread cannot take changes nothing.
unfoldable pub step : Action → System → System
unfolding published linked consumed
step (start i n v) s =
    if is_idle (s.pc i) && not (n == 0) && s.owned n then published s i n v else s
step (finish i) s = elim (s.pc i) [ idle ↦ s | linking p n ↦ linked s i p n ]
step pop s = consumed s

unfoldable pub run : List Action → System → System
unfolding step
run [] s = s
run (a ∷ l) s = run l (step a s)
