-- ===== src/Shell/Jobs/Table.antt =====
-- The slots of the background jobs: how many running jobs there are before and after an operation.
use wpi_operating_systems.Base.{
  ℕ, suc, ◌+◌, ◌<◌, ◌≡◌, refl, ap, Bool, true, false, Bool-cases, Option, none, some, inl, inr,
  List, [], ◌∷◌, ◌&&◌, ◌==◌, if◌then◌else◌, arith, length,
}
use wpi_operating_systems.Shell.Jobs.{Slot, place_job, stop_first}

-- The number of running jobs that pass a test.
abbrev pub number : (Slot → Bool) → List Slot → ℕ
number p [] = 0
number p (s ∷ slots) = (if s.running && p s then 1 else 0) + number p slots

abbrev pub has_id : ℕ → Slot → Bool
has_id k s = s.id == k

abbrev pub is_any : Slot → Bool
is_any s = true

pub number-place_job :
    (p : Slot → Bool) (job : Slot) (slots : List Slot)
    → job.running ≡ true
    → number p (place_job job slots).0
      ≡ number p slots + (if (place_job job slots).1 && p job then 1 else 0)
unfolding place_job
number-place_job p job [] r = refl
number-place_job p job (s ∷ slots) r =
    let ih = number-place_job p job slots r in
    elim (Bool-cases s.running) [
      | inl y ↦ rw y (omega (arith, ih))
      | inr y ↦ rw (y, r) (omega arith)
    ]

pub length-place_job :
    (job : Slot) (slots : List Slot) → length (place_job job slots).0 ≡ length slots
unfolding place_job
length-place_job job [] = refl
length-place_job job (s ∷ slots) =
    let ih = length-place_job job slots in
    elim (Bool-cases s.running) [ inl y ↦ rw y (ap suc ih) | inr y ↦ rw y refl ]

-- Unless all slots are taken, there is one for the job.
pub place_job_free :
    (job : Slot) (slots : List Slot)
    → number is_any slots < length slots
    → (place_job job slots).1 ≡ true
unfolding place_job
place_job_free job [] h = absurd (omega arith)
place_job_free job (s ∷ slots) h = elim (Bool-cases s.running) [
  | inl y ↦ rw y (place_job_free job slots (ground (arith, y)))
  | inr y ↦ rw y refl
]

-- What `stop_first` found and left.
abbrev pub Stopped : (Slot → Bool) → List Slot → List Slot × Option Slot → Type 0
Stopped test slots (rest, none) = rest ≡ slots
Stopped test slots (rest, some s) =
    (s.running ≡ true)
    × (test s ≡ true)
    × (length rest ≡ length slots)
    × ((p : Slot → Bool) → number p rest + (if p s then 1 else 0) ≡ number p slots)

Stopped-cons :
    (test : Slot → Bool) (s : Slot) (slots : List Slot) (r : List Slot × Option Slot)
    → Stopped test slots r
    → Stopped test (s ∷ slots) (s ∷ r.0, r.1)
Stopped-cons test s slots (rest, none) h = ap (λ t. s ∷ t) h
Stopped-cons test s slots (rest, some f) (run, same, size, all) =
    (run, same, ap suc size, λ p. omega (arith, all p))

pub stop_first-Stopped :
    (test : Slot → Bool) (slots : List Slot) → Stopped test slots (stop_first test slots)
unfolding stop_first
stop_first-Stopped test [] = refl
stop_first-Stopped test (s ∷ slots) = elim (Bool-cases (s.running && test s)) [
  | inl y ↦
      let run : s.running ≡ true = and_left s.running (test s) y in
      let same : test s ≡ true = and_right s.running (test s) y in
      let left : (p : Slot → Bool)
          → number p (record s { running = false } ∷ slots) + (if p s then 1 else 0)
            ≡ number p (s ∷ slots) =
        λ p. ground (arith, run) in
      rw y (run, same, refl, left)
  | inr y ↦ rw y (Stopped-cons test s slots (stop_first test slots) (stop_first-Stopped test slots))
]
  where
    and_left : (a b : Bool) → (a && b) ≡ true → a ≡ true
    and_left a b h = ground arith

    and_right : (a b : Bool) → (a && b) ≡ true → b ≡ true
    and_right a b h = ground arith
