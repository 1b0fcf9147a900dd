-- ===== src/Files/Transfer/WriteLoop.antt =====
-- The loop of `wfswrite` over the direct blocks of a file.
use wpi_operating_systems.Base.{
  ℕ, zero, suc, ◌+◌, ◌-◌, ◌*◌, ◌≤◌, ◌<◌, ◌≡◌, ◌≢◌, ◌⊎◌, inl, inr, refl, sym, ◌∙◌, ap, subst, Bool,
  false, Option, none, some, List, [], ◌∷◌, ◌++◌, ◌==◌, arith, length, length-take, length-drop,
  take-append-drop, take, drop, min, if◌then◌else◌,
}
use wpi_operating_systems.Files.Disk.{Block, Fs, Run, Cmd, ok, and_then, and_then-ok, pure, ◌>>=◌}
use wpi_operating_systems.Files.Inodes.{Inode}
use wpi_operating_systems.Files.Transfer.{Cursor, round_bytes, write_round, write_loop}
use wpi_operating_systems.Files.Transfer.Bytes.{IsRound, round_bytes-IsRound}
use wpi_operating_systems.Files.Transfer.Writable.{IsWritable, IsFull}
use wpi_operating_systems.Files.Transfer.Writes.{Writes, Writes-none, Writes-append}
use wpi_operating_systems.Files.Transfer.WriteRound.{RoundEnds, write_round-ok}

-- The loop writes the bytes `done` of all that were to be written. It ends with the inode if they are
-- all, and with -1 if no data block was free for those that are left.
pub record LoopEnds (s : Fs) (inode : Inode) (o : ℕ) (xs : List ℕ) (run : Run (Option Inode))
    : Type 0 where
  pub state : Fs
  pub direct : List ℕ
  pub done : List ℕ
  pub rest : List ℕ
  pub all : xs ≡ done ++ rest
  pub writes : Writes s inode.direct o done state direct
  pub answer :
      ((run ≡ ok (some (record inode { direct = direct })) state) × (rest ≡ []))
      ⊎ ((run ≡ ok none state) × IsFull state × (rest ≢ []))

LoopEnds-none :
    (s : Fs) (inode : Inode) (o : ℕ)
    → IsWritable s inode.direct
    → LoopEnds s inode o [] (ok (some inode) s)
LoopEnds-none s inode o w = record {
  state = s;
  direct = inode.direct;
  done = [];
  rest = [];
  all = refl;
  writes = Writes-none s inode.direct o w;
  answer = inl (refl, refl);
}

-- A round, and the loop behind it.
LoopEnds-append :
    (s t : Fs) (inode : Inode) (es : List ℕ) (o : ℕ) (xs ys : List ℕ) (run : Run (Option Inode))
    → Writes s inode.direct o xs t es
    → LoopEnds t (record inode { direct = es }) (o + length xs) ys run
    → LoopEnds s inode o (xs ++ ys) run
LoopEnds-append s t inode es o xs ys run w r = record {
  state = r.state;
  direct = r.direct;
  done = xs ++ r.done;
  rest = r.rest;
  all = ap (λ zs. xs ++ zs) r.all ∙ sym (append_assoc xs r.done r.rest);
  writes = Writes-append s t r.state inode.direct es r.direct o xs r.done w r.writes;
  answer = r.answer;
}
  where
    append_assoc : (xs ys zs : List ℕ) → (xs ++ ys) ++ zs ≡ xs ++ (ys ++ zs)
    append_assoc [] ys zs = refl
    append_assoc (x ∷ xs) ys zs = ap (λ vs. x ∷ vs) (append_assoc xs ys zs)

write_loop_done :
    (fuel : ℕ) (inode : Inode) (c : Cursor) (s : Fs)
    → write_loop fuel inode c [] s ≡ ok (some inode) s
unfolding write_loop
write_loop_done zero inode c s = refl
write_loop_done (suc fuel) inode c s = refl

-- The loop, behind the test for its end and behind its first round.
abbrev with_round : ℕ → List ℕ → Option (Inode × Cursor) → Cmd (Option Inode)
with_round fuel xs none = pure none
with_round fuel xs (some (inode, d)) = write_loop fuel inode (record d { cur_offset = 0 }) xs

abbrev by_test : Inode → Cursor → List ℕ → ℕ → Bool → Cmd (Option Inode)
by_test inode c xs fuel at_end =
    if at_end
    then pure (some inode)
    else (write_round inode c (take (round_bytes (length xs) c.cur_offset) xs)
        >>= with_round fuel (drop (round_bytes (length xs) c.cur_offset) xs))

round_then_loop :
    (s : Fs) (inode : Inode) (c : Cursor) (x : ℕ) (xs : List ℕ) (fuel : ℕ) {k : ℕ}
    → IsRound (length (x ∷ xs)) c.cur_offset k
    → (run : Run (Option (Inode × Cursor))) → RoundEnds s inode c (take k (x ∷ xs)) run
    → IsWritable s inode.direct
    → ((t : Fs) (es : List ℕ) (b : Block)
        → IsWritable t es
        → LoopEnds t
            (record inode { direct = es })
            ((c.direct_iter + 1) * 4096 + 0)
            (drop k (x ∷ xs))
            (write_loop fuel
              (record inode { direct = es })
              (record c { direct_iter = c.direct_iter + 1; cur_offset = 0; data_buffer = b })
              (drop k (x ∷ xs))
              t))
    → LoopEnds s inode
        (c.direct_iter * 4096 + c.cur_offset)
        (x ∷ xs)
        (and_then run (with_round fuel (drop k (x ∷ xs))))
round_then_loop s inode c x xs fuel r run (inl (e, full)) w loop = record {
  state = s;
  direct = inode.direct;
  done = [];
  rest = x ∷ xs;
  all = refl;
  writes = Writes-none s inode.direct (c.direct_iter * 4096 + c.cur_offset) w;
  answer = inr (and_then-ok _ e, full, λ z. cc);
}
round_then_loop s inode c x xs fuel {k = k} r run (inr (t, es, b, e, v)) w loop =
    let o : ℕ = c.direct_iter * 4096 + c.cur_offset in
    let inode' : Inode = record inode { direct = es } in
    let d : Cursor = record c {
      direct_iter = c.direct_iter + 1;
      cur_offset = 0;
      data_buffer = b;
    } in
    subst (λ q. LoopEnds s inode o (x ∷ xs) q) (sym (and_then-ok _ e))
      (subst (λ ys. LoopEnds s inode o ys (write_loop fuel inode' d (drop k (x ∷ xs)) t))
        (take-append-drop k (x ∷ xs))
        (LoopEnds-append s t inode es o (take k (x ∷ xs)) (drop k (x ∷ xs))
          (write_loop fuel inode' d (drop k (x ∷ xs)) t) v
          (behind t inode' d (o + length (take k (x ∷ xs))) v.writable (loop t es b v.writable)
            (at_place (length-take k (x ∷ xs)) (length-drop k (x ∷ xs)) r.whole r.in_left))))
  where
    at_place :
        length (take k (x ∷ xs)) ≡ min k (length (x ∷ xs))
        → length (drop k (x ∷ xs)) ≡ length (x ∷ xs) - k
        → (k ≡ length (x ∷ xs)) ⊎ (c.cur_offset + k ≡ 4096)
        → k ≤ length (x ∷ xs)
        → (length (drop k (x ∷ xs)) ≡ 0)
          ⊎ ((c.direct_iter + 1) * 4096 + 0
              ≡ c.direct_iter * 4096 + c.cur_offset + length (take k (x ∷ xs)))
    at_place first left (inl e) le = inl (omega arith)
    at_place first left (inr e) le = inr (omega arith)

    -- The place of the loop does not count where no byte is left.
    behind :
        {ys : List ℕ} (t : Fs) (inode : Inode) (d : Cursor) {p : ℕ} (o : ℕ)
        → IsWritable t inode.direct
        → LoopEnds t inode p ys (write_loop fuel inode d ys t)
        → (length ys ≡ 0) ⊎ (p ≡ o)
        → LoopEnds t inode o ys (write_loop fuel inode d ys t)
    behind {ys = []} t inode d o w l h =
        subst (LoopEnds t inode o []) (sym (write_loop_done fuel inode d t))
          (LoopEnds-none t inode o w)
    behind {ys = y ∷ ys} t inode d o w l (inl e) = absurd (omega arith)
    behind {ys = y ∷ ys} t inode d {p = p} o w l (inr e) =
        subst (λ q. LoopEnds t inode q (y ∷ ys) (write_loop fuel inode d (y ∷ ys) t)) e l

-- The loop ends as described, on as much fuel as there are bytes.
pub write_loop-LoopEnds :
    (fuel : ℕ) (inode : Inode) (c : Cursor) (xs : List ℕ) (s : Fs)
    → length xs ≤ fuel
    → c.cur_offset < 4096
    → c.direct_iter * 4096 + c.cur_offset + length xs ≤ 20480
    → IsWritable s inode.direct
    → LoopEnds s inode (c.direct_iter * 4096 + c.cur_offset) xs (write_loop fuel inode c xs s)
unfolding write_loop
write_loop-LoopEnds fuel inode c [] s enough small inside w =
    subst (LoopEnds s inode (c.direct_iter * 4096 + c.cur_offset) [])
      (sym (write_loop_done fuel inode c s))
      (LoopEnds-none s inode (c.direct_iter * 4096 + c.cur_offset) w)
write_loop-LoopEnds zero inode c (x ∷ xs) s enough small inside w = absurd (omega arith)
write_loop-LoopEnds (suc fuel) inode c (x ∷ xs) s enough small inside w =
    let k : ℕ = round_bytes (length (x ∷ xs)) c.cur_offset in
    let r = round_bytes-IsRound (length (x ∷ xs)) c.cur_offset (omega arith) small in
    let first = length-take k (x ∷ xs) in
    let left = length-drop k (x ∷ xs) in
    let more : (length (x ∷ xs) == 0) ≡ false = ground arith in
    subst (LoopEnds s inode (c.direct_iter * 4096 + c.cur_offset) (x ∷ xs))
      (sym (ap (λ b. by_test inode c (x ∷ xs) fuel b s) more))
      (round_then_loop s inode c x xs fuel r (write_round inode c (take k (x ∷ xs)) s)
        (write_round-ok inode c (take k (x ∷ xs)) s w (omega arith)
          (omega (arith, first, r.in_block, r.in_left)))
        w
        (λ t es b v.
          write_loop-LoopEnds fuel (record inode { direct = es })
            (record c { direct_iter = c.direct_iter + 1; cur_offset = 0; data_buffer = b })
            (drop k (x ∷ xs)) t (omega (arith, left, r.some_bytes)) (omega arith)
            (omega (arith, left, r.in_left, r.whole)) v))
