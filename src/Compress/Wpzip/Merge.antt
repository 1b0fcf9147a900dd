-- ===== src/Compress/Wpzip/Merge.antt =====
-- `merge` and `write_results` join the runs of neighbouring parts.
use mathlib.Core.Option
use wpi_operating_systems.Base.{
  ℕ, zero, suc, ◌<◌, ◌≡◌, refl, sym, ◌∙◌, ap, subst, false, Bool-cases, inl, inr, Option, none,
  some, List, [], ◌∷◌, ◌++◌, append_assoc, append-nil, ◌==◌, if◌then◌else◌, arith, length,
  length-append, drop,
}
use wpi_operating_systems.Compress.Runs.{Entry, encode, encode-append, push, runs}
use wpi_operating_systems.Compress.Wpzip.{Result, last?, bump_last, absorb, merge, write_results}

-- The runs of a text and of a text behind it, as the runs of the two together.
abbrev pub glue : List Entry → List Entry → List Entry
glue l [] = l
glue l ((k, c) ∷ es) = elim (last? l) [
  | none ↦ l ++ ((k, c) ∷ es)
  | some (j, d) ↦ if d == c then bump_last l k ++ es else l ++ ((k, c) ∷ es)
]

push-glue : (n x : ℕ) (r s : List Entry) → push n x (glue r s) ≡ glue (push n x r) s
push-glue n x r [] = refl
push-glue n x [] ((k, c) ∷ es) = ground arith
push-glue n x ((j, d) ∷ []) ((k, c) ∷ es) = ground arith
push-glue n x ((j, d) ∷ f ∷ r) ((k, c) ∷ es) = ground arith

-- Runs at a boundary.
pub runs-append : (xs ys : List ℕ) → runs (xs ++ ys) ≡ glue (runs xs) (runs ys)
unfolding runs
runs-append [] ys = nil (runs ys)
  where
    nil : (s : List Entry) → s ≡ glue [] s
    nil [] = refl
    nil ((k, c) ∷ s) = refl
runs-append (x ∷ xs) ys = rw (runs-append xs ys) (push-glue 1 x (runs xs) (runs ys))

last?-some : (l : List Entry) → 0 < length l → (e : Entry) × (last? l ≡ some e)
last?-some [] h = absurd (omega arith)
last?-some (e ∷ []) h = (e, refl)
last?-some (e ∷ f ∷ r) h = last?-some (f ∷ r) (omega arith)

last?-append : (a l : List Entry) → 0 < length l → last? (a ++ l) ≡ last? l
last?-append [] l h = refl
last?-append (e ∷ []) [] h = absurd (omega arith)
last?-append (e ∷ []) (f ∷ l) h = refl
last?-append (e ∷ f ∷ a) l h = last?-append (f ∷ a) l h

bump_last-append :
    (a l : List Entry) (k : ℕ) → 0 < length l → bump_last (a ++ l) k ≡ a ++ bump_last l k
bump_last-append [] l k h = refl
bump_last-append (e ∷ []) [] k h = absurd (omega arith)
bump_last-append (e ∷ []) (f ∷ l) k h = refl
bump_last-append (e ∷ f ∷ a) l k h = ap (λ t. e ∷ t) (bump_last-append (f ∷ a) l k h)

length-bump_last : (l : List Entry) (k : ℕ) → length (bump_last l k) ≡ length l
length-bump_last [] k = refl
length-bump_last ((n, c) ∷ []) k = refl
length-bump_last (e ∷ f ∷ r) k = ap suc (length-bump_last (f ∷ r) k)

drop-bump_last :
    (s : ℕ) (l : List Entry) (k : ℕ)
    → s < length l
    → drop s (bump_last l k) ≡ bump_last (drop s l) k
drop-bump_last zero l k h = refl
drop-bump_last (suc s) [] k h = absurd (omega arith)
drop-bump_last (suc s) (e ∷ []) k h = absurd (omega arith)
drop-bump_last (suc s) (e ∷ f ∷ r) k h = drop-bump_last s (f ∷ r) k (omega arith)

last?-drop : (s : ℕ) (l : List Entry) → s < length l → last? (drop s l) ≡ last? l
last?-drop zero l h = refl
last?-drop (suc s) [] h = absurd (omega arith)
last?-drop (suc s) (e ∷ []) h = absurd (omega arith)
last?-drop (suc s) (e ∷ f ∷ r) h = last?-drop s (f ∷ r) (omega arith)

glue_at :
    (l : List Entry) (k c j d : ℕ) (es : List Entry)
    → last? l ≡ some (j, d)
    → glue l ((k, c) ∷ es) ≡ (if d == c then bump_last l k ++ es else l ++ ((k, c) ∷ es))
glue_at l k c j d es at = rw (at, glue)

glue-append : (a l es : List Entry) → 0 < length l → glue (a ++ l) es ≡ a ++ glue l es
glue-append a l [] h = refl
glue-append a l ((k, c) ∷ es) h =
    let ((j, d), at) = last?-some l h in
    let left = glue_at (a ++ l) k c j d es (last?-append a l h ∙ at) in
    let right = glue_at l k c j d es at in
    elim (Bool-cases (d == c)) [
      | inl y ↦ rw (left, right, y, bump_last-append a l k h) (append_assoc a (bump_last l k) es)
      | inr y ↦ rw (left, right, y) (append_assoc a l ((k, c) ∷ es))
    ]

length-glue : (l es : List Entry) → 0 < length l → 0 < length (glue l es)
length-glue l [] h = h
length-glue l ((k, c) ∷ es) h =
    let ((j, d), at) = last?-some l h in
    rw (glue_at l k c j d es at) (elim (Bool-cases (d == c)) [
      | inl y ↦ rw y (omega (arith, length-append (bump_last l k) es, length-bump_last l k))
      | inr y ↦ rw y (omega (arith, length-append l ((k, c) ∷ es)))
    ])

-- The parts, glued from the left.
abbrev pub glue_all : List Entry → List Result → List Entry
glue_all l [] = l
glue_all l (n ∷ rest) = glue_all (glue l n.entries) rest

glue_all-append :
    (a l : List Entry) (rest : List Result)
    → 0 < length l
    → glue_all (a ++ l) rest ≡ a ++ glue_all l rest
glue_all-append a l [] h = refl
glue_all-append a l (n ∷ rest) h =
    rw (glue-append a l n.entries h)
      (glue_all-append a (glue l n.entries) rest (length-glue l n.entries h))

-- `m` is a list of results that is written as `text`.
abbrev pub Writes : Option (List Result) → List ℕ → Type 0
Writes none text = ⊥
Writes (some []) text = ⊥
Writes (some (r ∷ rest)) text = write_results (r ∷ rest) ≡ text

Writes-cons :
    (r : Result) (m : Option (List Result)) (text : List ℕ)
    → 0 < length r.entries
    → Writes m text
    → Writes (Option.map (λ t. r ∷ t) m) (encode (drop r.start r.entries) ++ text)
unfolding write_results
Writes-cons r none text h w = absurd w
Writes-cons r (some []) text h w = absurd w
Writes-cons r (some (s ∷ rest)) text h w =
    let some_entries : (length r.entries == 0) ≡ false = ground arith in
    rw some_entries (ap (λ t. encode (drop r.start r.entries) ++ t) w)

abbrev result : List Entry → ℕ → ℕ → Result
result es cap s = record { entries = es; capacity = cap; start = s }

abbrev bumped : Result → ℕ → Result
bumped r k = record r { entries = bump_last r.entries k }

merge_step :
    (r : Result) (rest : List Result) (k c j d n : ℕ) (es : List Entry)
    → last? r.entries ≡ some (j, d)
    → merge r (result ((k, c) ∷ es) n 0 ∷ rest) ≡ (
        if d == c
        then (if length es == 0
            then merge (bumped r k) rest
            else Option.map (λ t. bumped r k ∷ t) (merge (result ((k, c) ∷ es) n 1) rest))
        else Option.map (λ t. r ∷ t) (merge (result ((k, c) ∷ es) n 0) rest))
unfolding merge absorb
merge_step r rest k c j d n [] at = ground (arith, at)
merge_step r rest k c j d n (e ∷ es) at = ground (arith, at)

-- results of parts that are not empty, before the merge
abbrev pub AllFresh : List Result → Type 0
AllFresh [] = Unit {0}
AllFresh (r ∷ rest) = (r.start ≡ 0) × (0 < length r.entries) × AllFresh rest

module _ (z : Result) (more : List Result) (empty : z.entries ≡ []) where
  writes_end :
      (r : Result)
      → 0 < length r.entries
      → Writes (merge r (z ∷ more)) (encode (drop r.start r.entries))
  unfolding merge write_results
  writes_end r h =
      let some_entries : (length r.entries == 0) ≡ false = ground arith in
      subst (λ m. Writes m (encode (drop r.start r.entries))) (sym at_end)
        (rw some_entries
          (ap (λ t. encode (drop r.start r.entries) ++ t) (nothing more) ∙ append-nil _))
    where
      at_end : merge r (z ∷ more) ≡ some (r ∷ z ∷ more)
      at_end = ground (arith, empty)

      nothing : (l : List Result) → write_results (z ∷ l) ≡ []
      nothing [] = refl
      nothing (y ∷ l) = ground (arith, empty)

  module _ (rest : List Result)
      (ih : (r : Result)
        → r.start < length r.entries
        → Writes (merge r (rest ++ (z ∷ more))) (encode (glue_all (drop r.start r.entries) rest)))
      (r : Result) (live : r.start < length r.entries) where
    -- the parts from a result that is kept as it is
    kept :
        (l es : List Entry) (m : Option (List Result))
        → 0 < length es
        → (s : Result) → 0 < length s.entries
        → drop s.start s.entries ≡ l
        → Writes m (encode (glue_all es rest))
        → Writes (Option.map (λ t. s ∷ t) m) (encode (glue_all (l ++ es) rest))
    kept l es m some_es s some_entries same w =
        subst (λ t. Writes (Option.map (λ u. s ∷ u) m) t)
          (ap (λ u. encode u ++ encode (glue_all es rest)) same
            ∙ sym (
                ap encode (glue_all-append l es rest some_es) ∙ encode-append l (glue_all es rest)))
          (Writes-cons s m (encode (glue_all es rest)) some_entries w)

    part :
        (es : List Entry) (n : ℕ)
        → 0 < length es
        → Writes
            (merge r (result es n 0 ∷ (rest ++ (z ∷ more))))
            (encode (glue_all (glue (drop r.start r.entries) es) rest))
    part [] n h = absurd (omega arith)
    part ((k, c) ∷ es) n h =
        let ((j, d), at) = last?-some r.entries (omega arith) in
        let glued =
          glue_at (drop r.start r.entries) k c j d es (last?-drop r.start r.entries live ∙ at) in
        let bump = drop-bump_last r.start r.entries k live in
        let size = length-bump_last r.entries k in
        rw (merge_step r (rest ++ (z ∷ more)) k c j d n es at, glued)
          (elim (Bool-cases (d == c)) [
            | inl y ↦ rw y (absorbed es n k c bump size)
            | inr y ↦ rw y (
                kept (drop r.start r.entries) ((k, c) ∷ es)
                  (merge (result ((k, c) ∷ es) n 0) (rest ++ (z ∷ more))) (omega arith) r
                  (omega arith) refl (ih (result ((k, c) ∷ es) n 0) (omega arith)))
          ])
      where
        absorbed :
            (es : List Entry) (n k c : ℕ)
            → drop r.start (bump_last r.entries k) ≡ bump_last (drop r.start r.entries) k
            → length (bump_last r.entries k) ≡ length r.entries
            → Writes
                (if length es == 0
                  then merge (bumped r k) (rest ++ (z ∷ more))
                  else Option.map
                      (λ t. bumped r k ∷ t)
                      (merge (result ((k, c) ∷ es) n 1) (rest ++ (z ∷ more))))
                (encode (glue_all (bump_last (drop r.start r.entries) k ++ es) rest))
        absorbed [] n k c bump size =
            subst (λ l. Writes (merge (bumped r k) (rest ++ (z ∷ more))) (encode (glue_all l rest)))
              (bump ∙ sym (append-nil _)) (ih (bumped r k) (omega arith))
        absorbed (e ∷ es) n k c bump size =
            let some_left : (suc (length es) == 0) ≡ false = ground arith in
            rw some_left (
              kept (bump_last (drop r.start r.entries) k) (e ∷ es)
                (merge (result ((k, c) ∷ e ∷ es) n 1) (rest ++ (z ∷ more))) (omega arith)
                (bumped r k) (omega arith) bump (ih (result ((k, c) ∷ e ∷ es) n 1) (omega arith)))

  -- With results that are not empty up to one that is, `merge` stays in bounds, and what is written
  -- is the glued runs up to there.
  pub merge-glue_all :
      (rest : List Result) (r : Result)
      → AllFresh rest
      → r.start < length r.entries
      → Writes (merge r (rest ++ (z ∷ more))) (encode (glue_all (drop r.start r.entries) rest))
  merge-glue_all [] r fresh live = writes_end r (omega arith)
  merge-glue_all (n ∷ rest) r fresh live =
      subst
        (λ s.
          Writes (merge r (result n.entries n.capacity s ∷ (rest ++ (z ∷ more))))
            (encode (glue_all (glue (drop r.start r.entries) n.entries) rest)))
        (sym fresh.0)
        (part rest (λ s. merge-glue_all rest s fresh.2) r live n.entries n.capacity fresh.1)
