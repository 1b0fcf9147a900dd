-- ===== src/Scheduling/Policies.antt =====
-- The three policies: the position of the job that runs next, `none` for NULL.
pub mod Shortest
pub mod Picks
use wpi_operating_systems.Base.{
  ℕ, ◌+◌, ◌≤◌, ◌<◌, ◌≡◌, Bool, Option, none, some, List, [], ◌∷◌, ltb, if◌then◌else◌,
}
use wpi_operating_systems.Scheduling.Jobs.{Job}

abbrev pub int_max : ℕ
int_max = 0x7fff_ffff

pub data Policy : Type 0 where
  fifo sjf rr : Policy

handler_fifo : List Job → Option ℕ
handler_fifo [] = none
handler_fifo (j ∷ js) = some 0

-- `chosen` is the choice among the jobs before position `i`.
sjf_loop : ℕ → Option ℕ → ℕ → List Job → Option ℕ
sjf_loop shortest_length chosen i [] = chosen
sjf_loop shortest_length chosen i (j ∷ js) =
    if ltb j.length shortest_length
    then sjf_loop j.length (some i) (i + 1) js
    else sjf_loop shortest_length chosen (i + 1) js

handler_sjf : List Job → Option ℕ
unfolding sjf_loop
handler_sjf q = sjf_loop int_max none 0 q

rr_loop : ℕ → List Job → Option ℕ
rr_loop i [] = none
rr_loop i (j ∷ js) = let rest = rr_loop (i + 1) js in if j.next_to_run then some i else rest

handler_rr : List Job → Option ℕ
unfolding rr_loop handler_fifo
handler_rr q = elim (rr_loop 0 q) [ none ↦ handler_fifo q | some i ↦ some i ]

unfoldable pub policy_func : Policy → List Job → Option ℕ
unfolding handler_fifo handler_sjf handler_rr
policy_func fifo = handler_fifo
policy_func sjf = handler_sjf
policy_func rr = handler_rr
