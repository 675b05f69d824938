-- ===== src/Hazard/Scan.antt =====
-- The thresholds of the records, and what a scan keeps and frees.
use libfiber.Prelude.{
  ℕ, zero, suc, ◌+◌, ◌*◌, ◌/◌, ◌%◌, ◌^◌, ◌≤◌, ◌<◌, ◌≡◌, inl, inr, refl, arith, Bool, true, false,
  not, lt→ltb, if◌then◌else◌, Bool-cases, some, List, [], ◌∷◌, ◌++◌, length, length-append,
  append-nil, append_assoc, map, All, ap, sym, ◌∙◌, subst, fun_ext,
}
use libfiber.Hazard.{
  ThreadRecord, Records, raise_threshold, create_and_push, replicate, Comparison,
  hazard_pointer_compare, binary_search, in_use, collect, Swept, sweep, scan,
}
use libfiber.Hazard.Search.{Ascending, contains, binary_search-contains}

-- A record of `n` threads with `k` pointers each.
abbrev pub Fits : ℕ → ℕ → ThreadRecord → Type 0
Fits k n r = (r.retire_threshold ≡ 2 * (n * k)) × (length r.hazard_pointers ≡ k)

abbrev pub IsValid : ℕ → Records → Type 0
IsValid k records = All (Fits k (length records)) records

length-replicate : (n : ℕ) → length (replicate n) ≡ n
length-replicate zero = refl
length-replicate (suc n) = omega (arith, length-replicate n)

length-map : (rs : Records) → length (map raise_threshold rs) ≡ length rs
length-map [] = refl
length-map (r ∷ rs) = omega (arith, length-map rs)

raised : (k n : ℕ) → 2 * ((n + 1) * k) < 2 ^ 64 → (2 * (n * k) + 2 * k) % 2 ^ 64 ≡ 2 * ((n + 1) * k)
raised k n b = omega (arith, b)

raise-Fits :
    (k n : ℕ) (r : ThreadRecord)
    → 2 * ((n + 1) * k) < 2 ^ 64
    → Fits k n r
    → Fits k (n + 1) (raise_threshold r)
raise-Fits k n r b (e, l) = (rw (e, l) (raised k n b), l)

map-Fits :
    (k n : ℕ) (rs : Records)
    → 2 * ((n + 1) * k) < 2 ^ 64
    → All (Fits k n) rs
    → All (Fits k (n + 1)) (map raise_threshold rs)
map-Fits k n [] b h = tt
map-Fits k n (r ∷ rs) b h = (raise-Fits k n r b h.0, map-Fits k n rs b h.1)

-- Registering a thread keeps the threshold of every record at twice the number of all pointers.
pub create_and_push-IsValid :
    (k : ℕ) (records : Records)
    → 2 * ((length records + 1) * k) < 2 ^ 64
    → IsValid k records
    → IsValid k (create_and_push records k)
unfolding create_and_push
create_and_push-IsValid k records b v = rw (length-map records) (
  (omega (arith, b), length-replicate k),
  subst (λ n. All (Fits k n) (map raise_threshold records)) (omega (arith, length-map records))
      (map-Fits k (length records) records b v),
)

-- The pointers of all records that are not NULL.
abbrev pub pointers : Records → List ℕ
pointers [] = []
pointers (r ∷ rs) = in_use r.hazard_pointers ++ pointers rs

length-in_use : (hs : List ℕ) → length (in_use hs) ≤ length hs
length-in_use [] = omega arith
length-in_use (h ∷ hs) = ground (arith, length-in_use hs)

collect-pointers :
    (max k n : ℕ) (rs : Records) (plist : List ℕ)
    → 0 < k
    → All (Fits k n) rs
    → length plist + length rs * k ≤ max
    → collect max rs plist ≡ some (plist ++ pointers rs)
unfolding collect
collect-pointers max k n [] plist z v h = ap some (sym (append-nil plist))
collect-pointers max k n (r ∷ rs) plist z v h = rw (lt→ltb (length plist) max (omega (arith, h))) (
    collect-pointers max k n rs (plist ++ in_use r.hazard_pointers) z v.1 (
      omega (
        arith,
        h,
        v.0.1,
        length-in_use r.hazard_pointers,
        length-append plist (in_use r.hazard_pointers),
      ))
    ∙ ap some (append_assoc plist (in_use r.hazard_pointers) (pointers rs)))

-- The members of a list that pass a test.
abbrev pub keep_if : (ℕ → Bool) → List ℕ → List ℕ
keep_if p [] = []
keep_if p (x ∷ xs) = if p x then x ∷ keep_if p xs else keep_if p xs

abbrev pub reverse_onto : List ℕ → List ℕ → List ℕ
reverse_onto [] acc = acc
reverse_onto (x ∷ xs) acc = reverse_onto xs (x ∷ acc)

-- The second loop on the nodes `nodes`.
abbrev swept : (ℕ → Bool) → List ℕ → Swept → Swept
swept p nodes s = record {
  retired = reverse_onto (keep_if p nodes) s.retired;
  count = s.count + length (keep_if p nodes);
  freed = s.freed ++ keep_if (λ n. not (p n)) nodes;
}

sweep-kept :
    (g : ℕ → Bool) (q nodes : List ℕ) (n : ℕ) (s : Swept)
    → binary_search q n ≡ some true
    → sweep g q (n ∷ nodes) s
      ≡ sweep g q nodes (record s { retired = n ∷ s.retired; count = s.count + 1 })
unfolding sweep
sweep-kept g q nodes n s e = rw (e, sweep) refl

sweep-freed :
    (g : ℕ → Bool) (q nodes : List ℕ) (n : ℕ) (s : Swept)
    → binary_search q n ≡ some false
    → g n ≡ true
    → sweep g q (n ∷ nodes) s ≡ sweep g q nodes (record s { freed = s.freed ++ (n ∷ []) })
unfolding sweep
sweep-freed g q nodes n s e h = rw (e, sweep) (rw h refl)

sweep-swept :
    (g : ℕ → Bool) (q nodes : List ℕ) (s : Swept)
    → Ascending q
    → All (λ n. g n ≡ true) nodes
    → sweep g q nodes s ≡ some (swept (λ n. contains n q) nodes s)
unfolding sweep
sweep-swept g q [] s a h = ground (arith, append-nil s.freed)
sweep-swept g q (n ∷ nodes) s a h = elim (Bool-cases (contains n q)) [
  | inl e ↦
      sweep-kept g q nodes n s (binary_search-contains q n a ∙ ap some e)
      ∙ sweep-swept g q nodes (record s { retired = n ∷ s.retired; count = s.count + 1 }) a h.1
      ∙ ap some (
          rw e (
            ap
              (λ c. record {
                retired = reverse_onto (keep_if (λ m. contains m q) nodes) (n ∷ s.retired);
                count = c;
                freed = s.freed ++ keep_if (λ m. not (contains m q)) nodes;
              })
              (omega arith)))
  | inr e ↦
      sweep-freed g q nodes n s (binary_search-contains q n a ∙ ap some e) h.0
      ∙ sweep-swept g q nodes (record s { freed = s.freed ++ (n ∷ []) }) a h.1
      ∙ ap some (
          rw e (
            ap
              (λ f. record {
                retired = reverse_onto (keep_if (λ m. contains m q) nodes) s.retired;
                count = s.count + length (keep_if (λ m. contains m q) nodes);
                freed = f;
              })
              (append_assoc s.freed (n ∷ []) (keep_if (λ m. not (contains m q)) nodes))))
]

-- What a scan leaves, given its test for hazards.
abbrev scanned : ThreadRecord → (ℕ → Bool) → ThreadRecord × List ℕ
scanned hptr p =
    let kept = keep_if p hptr.retired_list in
    (
      record hptr { retired_list = reverse_onto kept []; retired_count = length kept },
      keep_if (λ n. not (p n)) hptr.retired_list,
    )

scan-scanned :
    (qsort : (ℕ → ℕ → Comparison) → List ℕ → List ℕ) (g : ℕ → Bool) (head : ThreadRecord)
    (next : Records) (hptr : ThreadRecord) (plist : List ℕ) (s : Swept)
    → collect (head.retire_threshold / 2) (head ∷ next) [] ≡ some plist
    → sweep g
        (qsort hazard_pointer_compare plist)
        hptr.retired_list
        (record { retired = []; count = 0; freed = [] })
      ≡ some s
    → scan qsort g (head ∷ next) hptr
      ≡ some (record hptr { retired_list = s.retired; retired_count = s.count }, s.freed)
unfolding scan
scan-scanned qsort g head next hptr plist s e f = rw (e, scan) (rw f refl)

-- When the records are valid, all retired nodes have a `gc_function` and `qsort` sorts the pointers, none
-- of the assertions on indices and on the `gc_function` fails in a scan: it keeps the retired nodes that
-- some hazard pointer names, the oldest first, counts them, and frees the others, each once.
pub scan-exact :
    (qsort : (ℕ → ℕ → Comparison) → List ℕ → List ℕ) (g : ℕ → Bool) (k : ℕ) (head : ThreadRecord)
    (next : Records) (hptr : ThreadRecord)
    → 0 < k
    → IsValid k (head ∷ next)
    → All (λ n. g n ≡ true) hptr.retired_list
    → Ascending (qsort hazard_pointer_compare (pointers (head ∷ next)))
    → ((n : ℕ)
        → contains n (qsort hazard_pointer_compare (pointers (head ∷ next)))
          ≡ contains n (pointers (head ∷ next)))
    → let kept = keep_if (λ n. contains n (pointers (head ∷ next))) hptr.retired_list in
      scan qsort g (head ∷ next) hptr
      ≡ some (
        record hptr { retired_list = reverse_onto kept []; retired_count = length kept },
        keep_if (λ n. not (contains n (pointers (head ∷ next)))) hptr.retired_list,
      )
scan-exact qsort g k head next hptr z v f a c =
    scan-scanned qsort g head next hptr (pointers (head ∷ next))
      (swept (λ n. contains n q) hptr.retired_list (record { retired = []; count = 0; freed = [] }))
      (collect-pointers (head.retire_threshold / 2) k (length (head ∷ next)) (head ∷ next) [] z v
        (omega (arith, v.0.0)))
      (sweep-swept g q hptr.retired_list (record { retired = []; count = 0; freed = [] }) a f)
    ∙ ap
        (λ c. some (
          record hptr {
            retired_list = reverse_onto (keep_if (λ n. contains n q) hptr.retired_list) [];
            retired_count = c;
          },
          keep_if (λ n. not (contains n q)) hptr.retired_list,
        ))
        (omega arith)
    ∙ ap (λ p. some (scanned hptr p)) (fun_ext c)
  where
    q : List ℕ
    q = qsort hazard_pointer_compare (pointers (head ∷ next))
