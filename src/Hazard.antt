-- ===== src/Hazard.antt =====
-- src/hazard_pointer.c and include/hazard_pointer.h: the records of the threads, and the scan that frees
-- the retired nodes that no hazard pointer names. Nodes are numbers, NULL is 0.
pub mod Search
pub mod Scan
mod Tests
use libfiber.Prelude.{
  ℕ, zero, suc, ◌+◌, ◌-◌, ◌*◌, ◌/◌, ◌%◌, ◌^◌, Bool, true, false, not, ◌&&◌, ◌==◌, ltb, leb,
  if◌then◌else◌, Option, none, some, List, [], ◌∷◌, ◌++◌, length, map,
}

-- `hazard_pointer_thread_record_t`; `retired_list` has the newest node first.
pub record ThreadRecord : Type 0 where
  pub retire_threshold : ℕ
  pub retired_count : ℕ
  pub retired_list : List ℕ
  pub hazard_pointers : List ℕ

-- The records from the head on.
abbrev pub Records : Type 0
Records = List ThreadRecord

abbrev pub replicate : ℕ → List ℕ
replicate zero = []
replicate (suc n) = 0 ∷ replicate n

-- `calloc` of a record, and the threshold for `threads` threads.
abbrev pub create_record : ℕ → ℕ → ThreadRecord
create_record threads pointers_per_thread = record {
  retire_threshold = 2 * threads * pointers_per_thread % 2 ^ 64;
  retired_count = 0;
  retired_list = [];
  hazard_pointers = replicate pointers_per_thread;
}

abbrev pub raise_threshold : ThreadRecord → ThreadRecord
raise_threshold r = record r {
  retire_threshold = (r.retire_threshold + 2 * length r.hazard_pointers) % 2 ^ 64;
}

-- One call with no other thread between its exchange of the head and its last addition.
unfoldable pub create_and_push : Records → ℕ → Records
create_and_push records pointers_per_thread =
    create_record (1 + length records) pointers_per_thread ∷ map raise_threshold records

pub data Comparison : Type 0 where
  below same above : Comparison

unfoldable pub hazard_pointer_compare : ℕ → ℕ → Comparison
hazard_pointer_compare one two = if one == two then same else if ltb one two then below else above

-- `haystack[i]`
abbrev pub entry : List ℕ → ℕ → ℕ
entry [] i = 0
entry (x ∷ xs) zero = x
entry (x ∷ xs) (suc i) = entry xs i

-- The loop of `binary_search`; `past` is `end + 1`, since `end` may be -1. `none` if an
-- assertion on an index fails or the fuel runs out; `start` and `middle` are never negative.
unfoldable pub search_loop : ℕ → List ℕ → ℕ → ℕ → ℕ → Option Bool
search_loop zero haystack start past needle = none
search_loop (suc fuel) haystack start past needle =
    let middle = (start + past - 1) / 2 in
    let middle_value = entry haystack middle in
    let less = ltb needle middle_value in
    let rest =
      search_loop fuel haystack (if less then start else middle + 1) (if less then middle else past)
        needle in
    let size = length haystack in
    let asserted = ltb start size && (ltb 0 past && leb past size) && ltb middle size in
    if leb past start
    then some false
    else if not asserted
    then none
    else if middle_value == needle
    then some true
    else rest

unfoldable pub binary_search : List ℕ → ℕ → Option Bool
unfolding search_loop
binary_search haystack needle =
    search_loop (length haystack + 1) haystack 0 (length haystack) needle

-- The pointers of one record that are not NULL.
abbrev pub in_use : List ℕ → List ℕ
in_use [] = []
in_use (h ∷ hs) = if h == 0 then in_use hs else h ∷ in_use hs

-- The first loop of `hazard_pointer_scan`; `none` if its assertion fails.
unfoldable pub collect : ℕ → Records → List ℕ → Option (List ℕ)
collect max_pointers [] plist = some plist
collect max_pointers (cur_record ∷ next) plist =
    let rest = collect max_pointers next (plist ++ in_use cur_record.hazard_pointers) in
    if ltb (length plist) max_pointers then rest else none

-- What a scan leaves on the retired list, and the nodes that it gives to their `gc_function`, in order.
pub record Swept : Type 0 where
  pub retired : List ℕ
  pub count : ℕ
  pub freed : List ℕ

-- The second loop, from the node `node` on; `gc_function` is whether that of a node is not NULL. `none` if
-- an assertion fails.
unfoldable pub sweep : (ℕ → Bool) → List ℕ → List ℕ → Swept → Option Swept
unfolding binary_search
sweep gc_function plist [] s = some s
sweep gc_function plist (node ∷ next) s = elim (binary_search plist node) [
  | none ↦ none
  | some true ↦
      sweep gc_function plist next (record s { retired = node ∷ s.retired; count = s.count + 1 })
  | some false ↦
      if gc_function node
      then sweep gc_function plist next (record s { freed = s.freed ++ (node ∷ []) })
      else none
]

-- `qsort` is the C library's: it is given the comparison and the array.
unfoldable pub scan :
    ((ℕ → ℕ → Comparison) → List ℕ → List ℕ)
    → (ℕ → Bool)
    → Records
    → ThreadRecord
    → Option (ThreadRecord × List ℕ)
unfolding collect sweep
scan qsort gc_function [] hptr = none
scan qsort gc_function (head ∷ next) hptr =
    elim (collect (head.retire_threshold / 2) (head ∷ next) []) [
      | none ↦ none
      | some plist ↦
          elim (sweep gc_function (qsort hazard_pointer_compare plist) hptr.retired_list
            (record { retired = []; count = 0; freed = [] })) [
              | none ↦ none
              | some s ↦
                  some (record hptr { retired_list = s.retired; retired_count = s.count }, s.freed)
            ]
    ]
