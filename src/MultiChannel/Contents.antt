-- ===== src/MultiChannel/Contents.antt =====
-- The ring of a multi channel holds the messages that are sent and not received.
use libfiber.Prelude.{
  ℕ, zero, suc, ◌+◌, ◌-◌, ◌%◌, ◌^◌, ◌≤◌, ◌<◌, ◌≡◌, ◌≢◌, refl, ap, ap₂, ◌∙◌, arith, sub64, List, [],
  ◌∷◌, ◌++◌, append_assoc, update_ne,
}
use libfiber.Deque.{CircularArray, get, put}
use libfiber.Deque
use libfiber.Deque.Cells.{slice, mod-ne, slice-put, get-put, slice-append}
use libfiber.Deque.Taking.{slice-front}
use libfiber.MultiChannel.{MultiChannel}

abbrev pub array : MultiChannel → CircularArray
array c = record { log_size = c.log_size; cell = c.buffer }

-- The messages in the channel.
abbrev pub contents : MultiChannel → List ℕ
contents c = slice (array c) c.low (c.high - c.low)

pub record Fifo (a : CircularArray) (low high : ℕ) (sent received : List ℕ) : Type 0 where
  pub order : low ≤ high
  pub room : high ≤ low + Deque.size a
  pub history : sent ≡ received ++ slice a low (high - low)

-- A write to a cell in front of a slice that does not come round to it.
slice-put_front :
    (a : CircularArray) (i p t m : ℕ)
    → i < t
    → t + m ≤ i + Deque.size a
    → slice (put a i p) t m ≡ slice a t m
slice-put_front a i p t zero h l = refl
slice-put_front a i p t (suc m) h l =
    ap₂ ◌∷◌ (update_ne a.cell (i % Deque.size a) (t % Deque.size a) p apart)
      (slice-put_front a i p (t + 1) m (omega arith) (omega arith))
  where
    apart : i % Deque.size a ≢ t % Deque.size a
    apart e =
        mod-ne (Deque.size a) i (t - i) (omega arith) (omega arith)
          (e ∙ ap (λ j. j % Deque.size a) (omega arith))

module _ {a : CircularArray} {low high : ℕ} {sent received : List ℕ}
    (v : Fifo a low high sent received) where
  open v use {order, room, history}

  -- The test of send.
  pub send-room : high < 2 ^ 64 → sub64 high low < Deque.size a → high < low + Deque.size a
  send-room b e = omega (arith, order, e)

  pub send-Fifo :
      (message : ℕ)
      → high < low + Deque.size a
      → Fifo (put a high message) low (high + 1) (sent ++ (message ∷ [])) received
  send-Fifo message h = record {
    order = omega (arith, order);
    room = omega arith;
    history =
        rw
          (
            history,
            longer,
            slice-append (put a high message) low (high - low),
            end,
            slice-put a high message low (high - low) (omega (arith, order)) h,
            append_assoc,
          )
          refl;
  }
    where
      longer : high + 1 - low ≡ suc (high - low)
      longer = omega (arith, order)

      end : get (put a high message) (low + (high - low)) ≡ message
      end = ap (get (put a high message)) (omega (arith, order)) ∙ get-put a high message

  pub receive-Fifo :
      low < high → Fifo (put a low 0) (low + 1) high sent (received ++ (get a low ∷ []))
  receive-Fifo h = record {
    order = omega arith;
    room = omega (arith, room);
    history =
        rw
          (
            history,
            slice-front a low (high - low) (omega arith),
            fewer,
            slice-put_front a low 0 (low + 1) (high - (low + 1)) (omega arith)
                (omega (arith, room)),
            append_assoc,
          )
          refl;
  }
    where
      fewer : high - low - 1 ≡ high - (low + 1)
      fewer = omega arith
