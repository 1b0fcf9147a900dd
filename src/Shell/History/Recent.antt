-- ===== src/Shell/History/Recent.antt =====
-- The history keeps the last ten lines, in their order.
use wpi_operating_systems.Base.{
  ℕ, zero, suc, ◌+◌, ◌-◌, ◌%◌, ◌≤◌, ◌<◌, ◌≡◌, refl, sym, ◌∙◌, ap, subst, false, Bool-cases, inl,
  inr, List, [], ◌∷◌, ◌++◌, append_assoc, append-nil, ltb, if◌then◌else◌, arith, length,
  length-append, set, get_or, take, drop, length-drop, length-set,
}
use wpi_operating_systems.Shell.Text.{Text}
use wpi_operating_systems.Shell.History.{
  History, no_history, copy_down, add_history, show_from, show_history,
}

-- The lines `cs` in their order on top of a history.
abbrev pub add_all : History → List Text → History
add_all h [] = h
add_all h (c ∷ cs) = add_all (add_history h c) cs

-- The last ten.
abbrev pub recent : List Text → List Text
recent cs = drop (length cs - 10) cs

-- The arrays hold `shown`.
pub record Keeps (h : History) (shown : List Text) : Type 0 where
  pub room : length h.lines ≡ 10
  pub few : h.count ≤ 10
  pub same : take h.count h.lines ≡ shown

take-set :
    (xs : List Text) (i : ℕ) (c : Text)
    → i < length xs
    → take (suc i) (set xs i c) ≡ take i xs ++ (c ∷ [])
take-set [] i c h = absurd (omega arith)
take-set (x ∷ xs) zero c h = refl
take-set (x ∷ xs) (suc i) c h = ap (λ t. x ∷ t) (take-set xs i c (omega arith))

length-copy_down : (xs : List Text) → length (copy_down xs) ≡ length xs
unfolding copy_down
length-copy_down [] = refl
length-copy_down (x ∷ []) = refl
length-copy_down (x ∷ y ∷ r) = ap suc (length-copy_down (y ∷ r))

take-copy_down : (xs : List Text) (n : ℕ) → length xs ≡ suc n → take n (copy_down xs) ≡ drop 1 xs
unfolding copy_down
take-copy_down [] n h = absurd (omega arith)
take-copy_down (x ∷ []) zero h = refl
take-copy_down (x ∷ []) (suc n) h = absurd (omega arith)
take-copy_down (x ∷ y ∷ r) zero h = absurd (omega arith)
take-copy_down (x ∷ y ∷ r) (suc n) h = ap (λ t. y ∷ t) (take-copy_down (y ∷ r) n (omega arith))

take_whole : (n : ℕ) (xs : List Text) → length xs ≡ n → take n xs ≡ xs
take_whole zero [] h = refl
take_whole zero (x ∷ xs) h = absurd (omega arith)
take_whole (suc n) [] h = refl
take_whole (suc n) (x ∷ xs) h = ap (λ t. x ∷ t) (take_whole n xs (omega arith))

length_shown : (n : ℕ) (xs : List Text) → n ≤ length xs → length (take n xs) ≡ n
length_shown zero xs h = refl
length_shown (suc n) [] h = absurd (omega arith)
length_shown (suc n) (x ∷ xs) h = ap suc (length_shown n xs (omega arith))

-- A line on top of ten.
abbrev pub push_line : List Text → Text → List Text
push_line shown c = if ltb (length shown) 10 then shown ++ (c ∷ []) else drop 1 shown ++ (c ∷ [])

add_history-Keeps :
    (h : History) (shown : List Text) (c : Text)
    → Keeps h shown
    → Keeps (add_history h c) (push_line shown c)
unfolding add_history
add_history-Keeps h shown c k =
    let size : length shown ≡ h.count =
      ap length (sym k.same) ∙ length_shown h.count h.lines (omega (arith, k.few, k.room)) in
    elim (Bool-cases (ltb h.count 10)) [
      | inl y ↦
          let next : h.count + 1 ≡ suc h.count = omega arith in
          rw (size, y)
            (record {
              room = length-set h.lines h.count c ∙ k.room;
              few = ground arith;
              same =
                  ap (λ n. take n (set h.lines h.count c)) next
                  ∙ take-set h.lines h.count c (ground (arith, k.room))
                  ∙ ap (λ t. t ++ (c ∷ [])) k.same;
            })
      | inr y ↦
          let full : h.count ≡ 10 = ground (arith, k.few) in
          let all : h.lines ≡ shown =
            sym (take_whole 10 h.lines k.room) ∙ ap (λ n. take n h.lines) (sym full) ∙ k.same in
          rw (size, y)
            (record {
              room = length-set (copy_down h.lines) 9 c ∙ length-copy_down h.lines ∙ k.room;
              few = k.few;
              same =
                  ap (λ n. take n (set (copy_down h.lines) 9 c)) full
                  ∙ take-set (copy_down h.lines) 9 c
                      (omega (arith, length-copy_down h.lines, k.room))
                  ∙ ap (λ t. t ++ (c ∷ [])) (take-copy_down h.lines 9 k.room ∙ ap (drop 1) all);
            })
    ]

drop-append :
    (n : ℕ) (xs : List Text) (c : Text)
    → n ≤ length xs
    → drop n (xs ++ (c ∷ [])) ≡ drop n xs ++ (c ∷ [])
drop-append zero xs c h = refl
drop-append (suc n) [] c h = absurd (omega arith)
drop-append (suc n) (x ∷ xs) c h = drop-append n xs c (omega arith)

drop-suc : (n : ℕ) (xs : List Text) → drop (suc n) xs ≡ drop 1 (drop n xs)
drop-suc zero xs = refl
drop-suc (suc n) [] = refl
drop-suc (suc n) (x ∷ xs) = drop-suc n xs

push_line-recent : (cs : List Text) (c : Text) → push_line (recent cs) c ≡ recent (cs ++ (c ∷ []))
push_line-recent cs c =
    let size : length (drop (length cs - 10) cs) ≡ length cs - (length cs - 10) =
      length-drop (length cs - 10) cs in
    let longer : length (cs ++ (c ∷ [])) ≡ suc (length cs) =
      omega (arith, length-append cs (c ∷ [])) in
    elim (Bool-cases (ltb (length (recent cs)) 10)) [
      | inl y ↦
          let none_left : length cs - 10 ≡ 0 = ground arith in
          let none_yet : suc (length cs) - 10 ≡ 0 = ground arith in
          rw y (
            sym (drop-append (length cs - 10) cs c (omega arith))
            ∙ ap (λ n. drop n (cs ++ (c ∷ [])))
                (none_left ∙ sym none_yet ∙ ap (λ n. n - 10) (sym longer)))
      | inr y ↦
          let one_more : suc (length cs - 10) ≡ suc (length cs) - 10 = ground arith in
          rw y (
            ap (λ t. t ++ (c ∷ [])) (sym (drop-suc (length cs - 10) cs))
            ∙ sym (drop-append (suc (length cs - 10)) cs c (ground arith))
            ∙ ap (λ n. drop n (cs ++ (c ∷ []))) (one_more ∙ ap (λ n. n - 10) (sym longer)))
    ]

pub add_all-Keeps :
    (h : History) (past cs : List Text)
    → Keeps h (recent past)
    → Keeps (add_all h cs) (recent (past ++ cs))
add_all-Keeps h past [] k = subst (λ t. Keeps h (recent t)) (sym (append-nil past)) k
add_all-Keeps h past (c ∷ cs) k =
    subst (λ t. Keeps (add_all (add_history h c) cs) (recent t)) (append_assoc past (c ∷ []) cs)
      (add_all-Keeps (add_history h c) (past ++ (c ∷ [])) cs (
        subst (Keeps (add_history h c)) (push_line-recent past c)
          (add_history-Keeps h (recent past) c k)))

take-drop :
    (xs : List Text) (i n : ℕ)
    → i < length xs
    → take (suc n) (drop i xs) ≡ get_or xs i [] ∷ take n (drop (suc i) xs)
take-drop [] i n h = absurd (omega arith)
take-drop (x ∷ xs) zero n h = refl
take-drop (x ∷ xs) (suc i) n h = take-drop xs i n (omega arith)

-- The remainder by 10 changes no index, as the count stops at 10.
show_from-take :
    (h : History) (n i : ℕ)
    → i + n ≤ 10
    → length h.lines ≡ 10
    → show_from h i n ≡ take n (drop i h.lines)
unfolding show_from
show_from-take h zero i fits room = refl
show_from-take h (suc n) i fits room =
    let index : i % 10 ≡ i = omega arith in
    let next : i + 1 ≡ suc i = omega arith in
    ap (λ k. get_or h.lines k [] ∷ show_from h (i + 1) n) index
    ∙ ap (λ t. get_or h.lines i [] ∷ t)
        (show_from-take h n (i + 1) (omega arith) room ∙ ap (λ k. take n (drop k h.lines)) next)
    ∙ sym (take-drop h.lines i n (omega arith))

-- What is printed of arrays that hold `shown`.
pub show_history-Keeps : (h : History) (shown : List Text) → Keeps h shown → show_history h ≡ shown
unfolding show_history
show_history-Keeps h shown k =
    let first : (ltb 10 h.count) ≡ false = ground (arith, k.few) in
    let all : h.count - 0 ≡ h.count = omega arith in
    rw (first, all) (show_from-take h h.count 0 (omega (arith, k.few)) k.room ∙ k.same)

pub no_history-Keeps : Keeps no_history []
no_history-Keeps = record { room = refl; few = omega arith; same = refl }

-- `history` prints the last ten of the lines that were added, or all of them where they are fewer,
-- the oldest first.
pub show_history-recent : (cs : List Text) → show_history (add_all no_history cs) ≡ recent cs
show_history-recent cs =
    show_history-Keeps (add_all no_history cs) (recent cs)
      (add_all-Keeps no_history [] cs no_history-Keeps)
