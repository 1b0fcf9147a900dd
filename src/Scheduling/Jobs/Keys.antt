-- ===== src/Scheduling/Jobs/Keys.antt =====
-- The numbers and lengths of the jobs of a list, which the operations on queues move and never lose.
use wpi_operating_systems.Base.{
  ℕ, zero, suc, ◌+◌, ◌<◌, ◌≡◌, refl, ◌∙◌, ap, ◌⊎◌, Bool, true, false, Bool-cases, inl, inr, Option,
  none, some, List, [], ◌∷◌, ◌++◌, ◌==◌, if◌then◌else◌, arith, get_elem?, set,
}
use wpi_operating_systems.Scheduling.Jobs.{
  Job, copy_job, move_mark, mark_head, mark_second, shift_job_queue, remove_finished_jobs, arrives,
  new_jobs,
}
use wpi_operating_systems.Scheduling.Jobs.All.{All}

-- the number of a job and the time that it still has to run
pub record Key : Type 0 where
  pub id : ℕ
  pub left : ℕ

abbrev pub key : Job → Key
key j = record { id = j.id; left = j.length }

abbrev pub keys : List Job → List Key
keys [] = []
keys (j ∷ js) = key j ∷ keys js

-- the keys of the jobs that no queue has seen yet
abbrev pub waiting : List Job → List Key
waiting [] = []
waiting (j ∷ js) = if j.scheduled then waiting js else key j ∷ waiting js

abbrev pub total : (Key → ℕ) → List Key → ℕ
total w [] = 0
total w (k ∷ ks) = w k + total w ks

-- The first key with no time left is dropped.
abbrev pub drop_done : List Key → List Key
drop_done [] = []
drop_done (k ∷ ks) = if k.left == 0 then ks else k ∷ drop_done ks

pub total-append : (w : Key → ℕ) (xs ys : List Key) → total w (xs ++ ys) ≡ total w xs + total w ys
total-append w [] ys = omega arith
total-append w (x ∷ xs) ys = omega (arith, total-append w xs ys)

pub keys-append : (xs ys : List Job) → keys (xs ++ ys) ≡ keys xs ++ keys ys
keys-append [] ys = refl
keys-append (x ∷ xs) ys = ap (◌∷◌ (key x)) (keys-append xs ys)

pub keys-set : (q : List Job) (i : ℕ) (x : Job) → keys (set q i x) ≡ set (keys q) i (key x)
keys-set [] i x = refl
keys-set (j ∷ q) zero x = refl
keys-set (j ∷ q) (suc i) x = ap (◌∷◌ (key j)) (keys-set q i x)

pub get_elem?-keys :
    (q : List Job) (i : ℕ) (j : Job) → get_elem? q i ≡ some j → get_elem? (keys q) i ≡ some (key j)
get_elem?-keys [] i j e = cc
get_elem?-keys (x ∷ q) zero j e = ground arith
get_elem?-keys (x ∷ q) (suc i) j e = get_elem?-keys q i j e

pub keys-remove_finished_jobs :
    (q : List Job) → keys (remove_finished_jobs q).0 ≡ drop_done (keys q)
unfolding remove_finished_jobs
keys-remove_finished_jobs [] = refl
keys-remove_finished_jobs (j ∷ js) = elim (Bool-cases (j.length == 0)) [
  | inl y ↦ rw y refl
  | inr y ↦ rw y (ap (◌∷◌ (key j)) (keys-remove_finished_jobs js))
]

Marked : List Job → Option (List Job × Bool) → Type 0
Marked q none = Unit
Marked q (some (r, last)) = keys r ≡ keys q

move_mark-Marked : (q : List Job) → Marked q (move_mark q)
unfolding move_mark Marked
move_mark-Marked [] = tt
move_mark-Marked (j ∷ []) = elim (Bool-cases j.next_to_run) [ inl y ↦ rw y refl | inr y ↦ rw y tt ]
move_mark-Marked (j ∷ k ∷ js) = elim (Bool-cases j.next_to_run) [
  | inl y ↦ rw y refl
  | inr y ↦ rw y (deeper (move_mark (k ∷ js)) (move_mark-Marked (k ∷ js)))
]
  where
    deeper :
        (m : Option (List Job × Bool))
        → Marked (k ∷ js) m
        → Marked (j ∷ k ∷ js) (elim m [ none ↦ none | some (r, last) ↦ some (j ∷ r, last) ])
    deeper none h = tt
    deeper (some (r, last)) h = ap (◌∷◌ (key j)) h

pub keys-shift_job_queue : (q : List Job) → keys (shift_job_queue q) ≡ keys q
unfolding shift_job_queue Marked
keys-shift_job_queue q = go (move_mark q) (move_mark-Marked q)
  where
    second : (q : List Job) → keys (mark_second q) ≡ keys q
    second [] = refl
    second (j ∷ []) = refl
    second (j ∷ k ∷ js) = refl

    head : (q : List Job) → keys (mark_head q) ≡ keys q
    head [] = refl
    head (j ∷ js) = refl

    go :
        (m : Option (List Job × Bool))
        → Marked q m
        → keys (elim m [ none ↦ mark_second q | some (r, last) ↦ if last then mark_head r else r ])
          ≡ keys q
    go none h = second q
    go (some (r, true)) h = head r ∙ h
    go (some (r, false)) h = h

-- The jobs that arrive leave those that wait.
pub total-new_jobs :
    (w : Key → ℕ) (t : ℕ) (js : List Job)
    → total w (keys (new_jobs t js).0) + total w (waiting (new_jobs t js).1) ≡ total w (waiting js)
unfolding new_jobs copy_job
total-new_jobs w t [] = omega arith
total-new_jobs w t (j ∷ js) = elim (Bool-cases (arrives t j)) [
  | inl y ↦
      let fresh : j.scheduled ≡ false = ground arith in
      rw (y, fresh) (omega (arith, total-new_jobs w t js))
  | inr y ↦ elim (Bool-cases j.scheduled) [
    | inl z ↦ rw (y, z) (total-new_jobs w t js)
    | inr z ↦ rw (y, z) (omega (arith, total-new_jobs w t js))
  ]
]

module _ (w : Key → ℕ) where
  -- A write in a list exchanges one weight for another.
  pub total-set :
      (ks : List Key) (i : ℕ) (k x : Key)
      → get_elem? ks i ≡ some k
      → total w (set ks i x) + w k ≡ total w ks + w x
  total-set [] i k x e = cc
  total-set (y ∷ ks) zero k x e = let same : w y ≡ w k = ap w (ground arith) in omega arith
  total-set (y ∷ ks) (suc i) k x e = omega (arith, total-set ks i k x e)

-- One key `k` has no time left, and all others have.
abbrev pub OneDone : Key → List Key → Type 0
OneDone k [] = ⊥
OneDone k (x ∷ xs) =
    ((x ≡ k) × (k.left ≡ 0) × All (λ y. 0 < y.left) xs) ⊎ ((0 < x.left) × OneDone k xs)

pub OneDone-set :
    (ks : List Key) (i : ℕ) (j k : Key)
    → All (λ y. 0 < y.left) ks
    → get_elem? ks i ≡ some j
    → k.left ≡ 0
    → OneDone k (set ks i k)
OneDone-set [] i j k h e z = cc
OneDone-set (x ∷ ks) zero j k h e z = inl (refl, z, h.1)
OneDone-set (x ∷ ks) (suc i) j k h e z = inr (h.0, OneDone-set ks i j k h.1 e z)

pub OneDone-append :
    (k : Key) (xs ys : List Key) → OneDone k xs → All (λ y. 0 < y.left) ys → OneDone k (xs ++ ys)
OneDone-append k [] ys d h = absurd d
OneDone-append k (x ∷ xs) ys (inl (e, z, p)) h = inl (e, z, go xs p)
  where
    go : (xs : List Key) → All (λ y. 0 < y.left) xs → All (λ y. 0 < y.left) (xs ++ ys)
    go [] p = h
    go (x ∷ xs) p = (p.0, go xs p.1)
OneDone-append k (x ∷ xs) ys (inr (p, d)) h = inr (p, OneDone-append k xs ys d h)

-- It is the key that is dropped, and the others have time left.
pub OneDone-drop_done :
    (k : Key) (ks : List Key)
    → OneDone k ks
    → All (λ y. 0 < y.left) (drop_done ks)
      × ((w : Key → ℕ) → total w (drop_done ks) + w k ≡ total w ks)
OneDone-drop_done k [] d = absurd d
OneDone-drop_done k (x ∷ ks) (inl (e, z, h)) =
    let zero_left : x.left ≡ 0 = ap (λ y. y.left) e ∙ z in
    let test : (x.left == 0) ≡ true = ground arith in
    rw test (h, λ w. let same : w x ≡ w k = ap w e in omega arith)
OneDone-drop_done k (x ∷ ks) (inr (p, d)) =
    let (h, same) = OneDone-drop_done k ks d in
    let test : (x.left == 0) ≡ false = ground arith in rw test ((p, h), λ w. omega (arith, same w))

pub All-drop_done {κ} : (P : Key → Type κ) (ks : List Key) → All P ks → All P (drop_done ks)
All-drop_done P [] h = h
All-drop_done P (k ∷ ks) h = elim (Bool-cases (k.left == 0)) [
  | inl y ↦ rw y h.1
  | inr y ↦ rw y (h.0, All-drop_done P ks h.1)
]

-- A job that no queue has seen has the property.
abbrev pub Waits {κ} : (Job → Type κ) → Job → Type κ
Waits P j = j.scheduled ≡ false → P j

-- The jobs that arrive have it, and those that still wait arrive later.
pub All-keys-new_jobs {κ} :
    (P : Job → Type κ) (R : Key → Type κ) (t : ℕ) (js : List Job)
    → ((j : Job) → P j → R (key j))
    → All (Waits P) js
    → All R (keys (new_jobs t js).0)
      × All (Waits (λ j. P j × (t < j.arrival_time))) (new_jobs t js).1
unfolding new_jobs copy_job
All-keys-new_jobs P R t [] f h = (tt, tt)
All-keys-new_jobs P R t (j ∷ js) f h =
    let (some_arrive, rest_wait) = All-keys-new_jobs P R t js f h.1 in
    elim (Bool-cases (arrives t j)) [
      | inl y ↦
          let fresh : j.scheduled ≡ false = ground arith in
          rw y ((f j (h.0 fresh), some_arrive), ((λ e. cc), rest_wait))
      | inr y ↦ rw y (some_arrive, ((λ e. (h.0 e, late j e y)), rest_wait))
    ]
  where
    late : (j : Job) → j.scheduled ≡ false → arrives t j ≡ false → t < j.arrival_time
    late j e y = ground arith
