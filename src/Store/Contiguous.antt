-- ===== src/Store/Contiguous.antt =====
-- What the scan of the retired sequences computes.
use thism.Base.{
  ℕ, ◌+◌, ◌≤◌, ◌<◌, ◌≡◌, refl, sym, ◌∙◌, true, false, List, [], ◌∷◌, String, ◌==◌, ◌||◌, nat_eq,
  leb, arith, contains, filter, All, All-append, Bool-cases, inl, inr,
}
use thism.Models.{UpdateJobTarget}
use thism.Store.Tables.{Db, Retirement}
use thism.Store.Watermark.{
  insert_distinct, sort_distinct, scan_watermark, retired_seqs, retired_watermark_from,
  retired_target_seqs, retirement_seqs,
}

contains-insert_distinct :
    (n k : ℕ) (ms : List ℕ) → contains (insert_distinct n ms) k ≡ (n == k || contains ms k)
unfolding insert_distinct contains
contains-insert_distinct n k [] = refl
contains-insert_distinct n k (m ∷ ms) = ground (arith, contains-insert_distinct n k ms)

contains-sort_distinct : (k : ℕ) (ns : List ℕ) → contains (sort_distinct ns) k ≡ contains ns k
unfolding sort_distinct contains
contains-sort_distinct k [] = refl
contains-sort_distinct k (n ∷ ns) =
    ground (arith, contains-insert_distinct n k (sort_distinct ns), contains-sort_distinct k ns)

-- The members rise, and lie above the bound.
abbrev Ascending : ℕ → List ℕ → Type 0
Ascending low [] = Unit
Ascending low (n ∷ ns) = (low < n) × Ascending n ns

insert_distinct-Ascending :
    (low n : ℕ) (ms : List ℕ) → low < n → Ascending low ms → Ascending low (insert_distinct n ms)
unfolding insert_distinct
insert_distinct-Ascending low n [] h a = ground arith
insert_distinct-Ascending low n (m ∷ ms) h a = ground (arith, insert_distinct-Ascending m n ms)

sort_distinct-Ascending : (ns : List ℕ) → All (λ n. 0 < n) ns → Ascending 0 (sort_distinct ns)
unfolding sort_distinct
sort_distinct-Ascending [] h = tt
sort_distinct-Ascending (n ∷ ns) h =
    insert_distinct-Ascending 0 n (sort_distinct ns) h.0 (sort_distinct-Ascending ns h.1)

not-contains_below : (low k : ℕ) (ns : List ℕ) → Ascending low ns → k ≤ low → contains ns k ≡ false
unfolding contains
not-contains_below low k [] a h = refl
not-contains_below low k (n ∷ ns) a h = ground (arith, not-contains_below n k ns a.1)

scan_watermark-le : (w : ℕ) (ns : List ℕ) → Ascending w ns → w ≤ scan_watermark w ns
unfolding scan_watermark
scan_watermark-le w [] a = omega arith
scan_watermark-le w (n ∷ ns) a = ground (arith, scan_watermark-le n ns a.1)

scan_watermark-contains :
    (w k : ℕ) (ns : List ℕ)
    → Ascending w ns
    → w < k
    → k ≤ scan_watermark w ns
    → contains ns k ≡ true
unfolding scan_watermark contains
scan_watermark-contains w k [] a h l = absurd (omega arith)
scan_watermark-contains w k (n ∷ ns) a h l = ground (arith, scan_watermark-contains n k ns a.1)

scan_watermark-gap :
    (w : ℕ) (ns : List ℕ) → Ascending w ns → contains ns (scan_watermark w ns + 1) ≡ false
unfolding scan_watermark contains
scan_watermark-gap w [] a = refl
scan_watermark-gap w (n ∷ ns) a = ground (
  arith,
  scan_watermark-gap n ns a.1,
  not-contains_below n (w + 1) ns a.1,
  scan_watermark-le n ns a.1,
)

target_seqs-pos :
    (node : String) (ts : List UpdateJobTarget) → All (λ n. 0 < n) (retired_target_seqs node ts)
unfolding retired_target_seqs filter
target_seqs-pos node [] = tt
target_seqs-pos node (t ∷ ts) = ground (arith, target_seqs-pos node ts)

retirement_seqs-pos :
    (node : String) (rs : List Retirement) → All (λ n. 0 < n) (retirement_seqs node rs)
unfolding retirement_seqs filter
retirement_seqs-pos node [] = tt
retirement_seqs-pos node (r ∷ rs) = ground (arith, retirement_seqs-pos node rs)

retired_seqs-pos : (node : String) (db : Db) → All (λ n. 0 < n) (retired_seqs node db)
unfolding retired_seqs
retired_seqs-pos node db =
    All-append (λ n. 0 < n) _ _ (target_seqs-pos node db.targets)
      (All-append (λ n. 0 < n) _ _ (retirement_seqs-pos node db.tombstones)
        (retirement_seqs-pos node db.retirements))

pub retired-below_watermark :
    (node : String) (db : Db) (k : ℕ)
    → 0 < k
    → k ≤ retired_watermark_from node db
    → contains (retired_seqs node db) k ≡ true
unfolding retired_watermark_from
retired-below_watermark node db k h l =
    sym (contains-sort_distinct k (retired_seqs node db))
    ∙ scan_watermark-contains 0 k _ (sort_distinct-Ascending _ (retired_seqs-pos node db)) h l

pub not-retired-above_watermark :
    (node : String) (db : Db)
    → contains (retired_seqs node db) (retired_watermark_from node db + 1) ≡ false
unfolding retired_watermark_from
not-retired-above_watermark node db =
    sym (contains-sort_distinct _ (retired_seqs node db))
    ∙ scan_watermark-gap 0 _ (sort_distinct-Ascending _ (retired_seqs-pos node db))

-- The watermark of a node is the end of the contiguous prefix: every sequence from 1 up to it has
-- a terminal target, a tombstone or a retirement, and the next one has none; so no later retired
-- sequence skips one that is open.
pub retired_watermark_from_contiguous :
    (node : String) (db : Db)
    → ((k : ℕ)
        → 0 < k
        → k ≤ retired_watermark_from node db
        → contains (retired_seqs node db) k ≡ true)
      × (contains (retired_seqs node db) (retired_watermark_from node db + 1) ≡ false)
retired_watermark_from_contiguous node db =
    (retired-below_watermark node db, not-retired-above_watermark node db)

-- Whatever keeps the retired sequences keeps the watermark from falling.
pub retired_watermark_from_mono :
    (node : String) (db db' : Db)
    → ((k : ℕ)
        → contains (retired_seqs node db) k ≡ true
        → contains (retired_seqs node db') k ≡ true)
    → retired_watermark_from node db ≤ retired_watermark_from node db'
retired_watermark_from_mono node db db' keep = elim (Bool-cases (leb w w')) [
  | inl e ↦ ground arith
  | inr e ↦ ground (
    arith,
    keep (w' + 1),
    retired-below_watermark node db (w' + 1),
    not-retired-above_watermark node db',
  )
]
  where
    w : ℕ
    w = retired_watermark_from node db

    w' : ℕ
    w' = retired_watermark_from node db'
