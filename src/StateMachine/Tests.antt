-- ===== src/StateMachine/Tests.antt =====
-- A counter as a state machine: its states and events are numbers.
use smart_net.Base.{ℕ, ◌+◌, pos, negsuc, [], ◌∷◌, some, ◌≡◌, refl, if◌then◌else◌, ◌==◌}
use smart_net.StateMachine.{
  Enum, HasState, Handler, Table, Elem, find_elem, reg_evt_state, post_evt, find, assign, run_elem,
}
use smart_net.StateMachine.Laws.{post_evt-reg_evt_state}

instance ℕ-Enum : Enum ℕ
ℕ-Enum = record { code = λ n. n }

instance ℕ-HasState : HasState ℕ ℕ
ℕ-HasState = record { cur_state = λ t. t; set_cur_state = λ s t. s; cur-set = λ s t. refl }

-- Zero may not be left by the event 2.
abbrev handler : Handler ℕ ℕ ℕ ℕ
handler s e n p t = some (if s + 0 == 0 then negsuc 4 else pos 0, t)

abbrev small : Table ℕ ℕ ℕ ℕ
small = (1, (2, record { end_state = 5; fun = some handler }) ∷ []) ∷ []

abbrev added : Elem ℕ ℕ ℕ ℕ
added = record { end_state = 6; fun = some handler }

abbrev larger : Table ℕ ℕ ℕ ℕ
larger = (1, (2, record { end_state = 5; fun = some handler }) ∷ (3, added) ∷ []) ∷ []

post_evt-reg_evt_state_example : post_evt larger 3 7 1 ≡ (
    if 1 == 1
    then (if 3 == 3 then run_elem 3 7 added 1 else post_evt small 3 7 1)
    else post_evt small 3 7 1)
unfolding find_elem find reg_evt_state ℕ-Enum ℕ-HasState assign
post_evt-reg_evt_state_example = post_evt-reg_evt_state 1 3 3 6 handler small larger 7 1 refl
