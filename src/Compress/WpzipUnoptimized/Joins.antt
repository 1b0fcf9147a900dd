-- ===== src/Compress/WpzipUnoptimized/Joins.antt =====
-- `merge` joins neighbouring entries with the same byte; what that gives for the runs of the parts
-- of a text.
use wpi_operating_systems.Base.{
  ℕ, ◌+◌, ◌≤◌, ◌<◌, ◌≡◌, refl, sym, ◌∙◌, ap, true, false, Bool-cases, inl, inr, Option, none, some,
  List, [], ◌∷◌, ◌++◌, append_assoc, ◌==◌, if◌then◌else◌, arith, length, length-append,
}
use wpi_operating_systems.Compress.Runs.{Entry, push, runs}
use wpi_operating_systems.Compress.WpzipUnoptimized.{
  Result, init_result, add_entry, Merging, merge_entry, merge_entries, merge_results,
  estimated_total, start_merge, end_merge, merge,
}

-- entries with neighbours of the same byte joined
abbrev pub join : List Entry → List Entry
join [] = []
join ((n, c) ∷ r) = push n c (join r)

-- bytes in front of runs
abbrev pub extend : List ℕ → List Entry → List Entry
extend [] r = r
extend (c ∷ cs) r = push 1 c (extend cs r)

pub extend-append : (a b : List ℕ) (r : List Entry) → extend (a ++ b) r ≡ extend a (extend b r)
extend-append [] b r = refl
extend-append (c ∷ a) b r = ap (push 1 c) (extend-append a b r)

pub extend-runs : (cs : List ℕ) → extend cs [] ≡ runs cs
unfolding runs
extend-runs [] = refl
extend-runs (c ∷ cs) = ap (push 1 c) (extend-runs cs)

-- Two entries in front: joined if the bytes agree.
push-push :
    (n c k d : ℕ) (r : List Entry)
    → push n c (push k d r) ≡ (if d == c then push (n + k) c r else (n, c) ∷ push k d r)
push-push n c k d [] = ground arith
push-push n c k d ((j, e) ∷ r) = ground arith

join-push : (n c : ℕ) (r l : List Entry) → join (push n c r ++ l) ≡ push n c (join (r ++ l))
join-push n c [] l = refl
join-push n c ((k, d) ∷ r) l =
    let two = push-push n c k d (join (r ++ l)) in
    elim (Bool-cases (c == d)) [
      | inl y ↦
          let same : (d == c) ≡ true = ground arith in
          let byte : c ≡ d = ground arith in
          rw y (ap (λ b. push (n + k) b (join (r ++ l))) (sym byte) ∙ sym (two ∙ rw same))
      | inr y ↦ rw y
    ]

-- The runs of a text in front of entries.
pub join-runs : (cs : List ℕ) (l : List Entry) → join (runs cs ++ l) ≡ extend cs (join l)
unfolding runs
join-runs [] l = refl
join-runs (c ∷ cs) l = join-push 1 c (runs cs) l ∙ ap (push 1 c) (join-runs cs l)

abbrev pub all_entries : List Result → List Entry
all_entries [] = []
all_entries (r ∷ rs) = r.entries ++ all_entries rs

pub all_entries-append : (a b : List Result) → all_entries (a ++ b) ≡ all_entries a ++ all_entries b
all_entries-append [] b = refl
all_entries-append (r ∷ a) b =
    ap (λ t. r.entries ++ t) (all_entries-append a b)
    ∙ sym (append_assoc r.entries (all_entries a) (all_entries b))

length-all_entries : (rs : List Result) → length (all_entries rs) ≡ estimated_total rs
length-all_entries [] = refl
length-all_entries (r ∷ rs) =
    omega (arith, length-append r.entries (all_entries rs), length-all_entries rs)

-- An entry for which the arrays have room.
pub add_entry_room :
    (r : Result) (n c : ℕ)
    → length r.entries < r.capacity
    → add_entry r n c ≡ some (record r { entries = r.entries ++ ((n, c) ∷ []) })
unfolding add_entry
add_entry_room r n c h = ground arith

abbrev done : Option Merging → Option Result
done none = none
done (some m) = end_merge m

abbrev pending : ℕ → ℕ → Result → Merging
pending n c r = record { first = false; last_char = c; last_count = n; merged = r }

-- the loop on more entries, where it did not fail before
abbrev onwards : Option Merging → List Entry → Option Merging
onwards none l = none
onwards (some m) l = merge_entries m l

merge_entries-cons :
    (m : Merging) (e : Entry) (l : List Entry)
    → merge_entries m (e ∷ l) ≡ onwards (merge_entry m e) l
unfolding merge_entries
merge_entries-cons m e l = go (merge_entry m e)
  where
    go : (o : Option Merging) → (elim o [ none ↦ none | some n ↦ merge_entries n l ]) ≡ onwards o l
    go none = refl
    go (some n) = refl

-- A pending entry and the next one.
merge_same :
    (n c k d : ℕ) (r : Result)
    → (d == c) ≡ true
    → merge_entry (pending n c r) (k, d) ≡ some (pending (n + k) c r)
unfolding merge_entry
merge_same n c k d r y = rw y

merge_other :
    (n c k d : ℕ) (r : Result)
    → (d == c) ≡ false
    → length r.entries < r.capacity
    → merge_entry (pending n c r) (k, d)
      ≡ some (pending k d (record r { entries = r.entries ++ ((n, c) ∷ []) }))
unfolding merge_entry
merge_other n c k d r y room = rw (y, add_entry_room r n c room)

-- The loop with a pending entry, and its last entry.
merge-pending :
    (n c : ℕ) (r : Result) (l : List Entry)
    → length r.entries + length l < r.capacity
    → done (merge_entries (pending n c r) l)
      ≡ some (record r { entries = r.entries ++ push n c (join l) })
merge-pending n c r [] room = unfold merge_entries end_merge in add_entry_room r n c (omega arith)
merge-pending n c r ((k, d) ∷ l) room =
    let two = push-push n c k d (join l) in
    let start = merge_entries-cons (pending n c r) (k, d) l in
    elim (Bool-cases (d == c)) [
      | inl y ↦
          ap done (start ∙ ap (λ o. onwards o l) (merge_same n c k d r y))
          ∙ merge-pending (n + k) c r l (omega arith)
          ∙ ap (λ t. some (record r { entries = r.entries ++ t })) (sym (two ∙ rw y))
      | inr y ↦
          let longer : Result = record r { entries = r.entries ++ ((n, c) ∷ []) } in
          ap done (start ∙ ap (λ o. onwards o l) (merge_other n c k d r y (omega arith)))
          ∙ merge-pending k d longer l (omega (arith, length-append r.entries ((n, c) ∷ [])))
          ∙ ap (λ t. some (record r { entries = t }))
              (append_assoc r.entries ((n, c) ∷ []) (push k d (join l))
                ∙ ap (λ t. r.entries ++ t) (sym (two ∙ rw y)))
    ]

merge_entries-append :
    (m : Merging) (a b : List Entry) → merge_entries m (a ++ b) ≡ onwards (merge_entries m a) b
merge_entries-append m [] b = unfold merge_entries in refl
merge_entries-append m (e ∷ a) b =
    merge_entries-cons m e (a ++ b)
    ∙ go (merge_entry m e) (λ n. merge_entries-append n a b)
    ∙ ap (λ o. onwards o b) (sym (merge_entries-cons m e a))
  where
    go :
        (o : Option Merging)
        → ((n : Merging) → merge_entries n (a ++ b) ≡ onwards (merge_entries n a) b)
        → onwards o (a ++ b) ≡ onwards (onwards o a) b
    go none ih = refl
    go (some n) ih = ih n

merge_results-entries :
    (m : Merging) (rs : List Result) → merge_results m rs ≡ merge_entries m (all_entries rs)
unfolding merge_results
merge_results-entries m [] = unfold merge_entries in refl
merge_results-entries m (r ∷ rs) =
    go (merge_entries m r.entries) (λ n. merge_results-entries n rs)
    ∙ sym (merge_entries-append m r.entries (all_entries rs))
  where
    go :
        (o : Option Merging)
        → ((n : Merging) → merge_results n rs ≡ merge_entries n (all_entries rs))
        → (elim o [ none ↦ none | some n ↦ merge_results n rs ]) ≡ onwards o (all_entries rs)
    go none ih = refl
    go (some n) ih = ih n

merge_done :
    (rs : List Result) → merge rs ≡ done (merge_results (start_merge (estimated_total rs)) rs)
unfolding merge
merge_done rs = go (merge_results (start_merge (estimated_total rs)) rs)
  where
    go : (o : Option Merging) → (elim o [ none ↦ none | some m ↦ end_merge m ]) ≡ done o
    go none = refl
    go (some m) = refl

-- The first entry is pending at once.
merge_from_start :
    (total : ℕ) (l : List Entry)
    → length l ≤ total
    → done (merge_entries (start_merge total) l)
      ≡ some (record { entries = join l; capacity = total })
merge_from_start total [] room = unfold merge_entries start_merge end_merge init_result in refl
merge_from_start total ((k, d) ∷ l) room =
    let first : merge_entry (start_merge total) (k, d) ≡ some (pending k d (init_result total)) =
      unfold merge_entry start_merge in refl in
    ap done (merge_entries-cons (start_merge total) (k, d) l ∙ ap (λ o. onwards o l) first)
    ∙ (unfold init_result in merge-pending k d (init_result total) l (omega arith))

-- `merge` joins the neighbouring entries of all results that have the same byte. The arrays of the
-- merged result hold them, and are never doubled.
pub merge-join :
    (rs : List Result)
    → merge rs ≡ some (record { entries = join (all_entries rs); capacity = estimated_total rs })
merge-join rs =
    let total : ℕ = estimated_total rs in
    merge_done rs
    ∙ ap done (merge_results-entries (start_merge total) rs)
    ∙ merge_from_start total (all_entries rs) (omega (arith, length-all_entries rs))
