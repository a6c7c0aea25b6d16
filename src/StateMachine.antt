-- ===== src/StateMachine.antt =====
-- class CStateMachine of libcomm_utils/src/utils/state_machine.h and state_machine.hpp: a table of
-- transitions, and the posting of an event to an object that holds its current state.
-- The std::map keyed by int32_t is an association list; states and events are enumerations with
-- the integers that the source gives them. The mutex is recursive, so a handler may set the state.
pub mod Laws
mod Tests
use smart_net.Base.{
  ℕ, ℤ, pos, negsuc, Bool, true, false, List, [], ◌∷◌, Option, none, some, ◌==◌, if◌then◌else◌,
  is_neg, ◌>>=◌, ◌≡◌,
}

-- An enumeration: the int32_t of each constructor.
pub record Enum (A : Type 0) : Type 0 where
  pub code : A → ℕ

-- An object with a member m_sm: m_i32curstate, and set_cur_state.
pub record HasState (S T : Type 0) : Type 0 where
  pub cur_state : T → S
  pub set_cur_state : S → T → T
  pub cur-set : (s : S) (t : T) → cur_state (set_cur_state s t) ≡ s

-- std::map::find.
unfoldable pub find : {A V : Type 0} ⦃a : Enum A⦄ → A → List (A × V) → Option V
find k [] = none
find ⦃a⦄ k ((j, v) ∷ m) = if a.code j == a.code k then some v else find k m

-- m[k] = v.
unfoldable pub assign : {A V : Type 0} ⦃a : Enum A⦄ → A → V → List (A × V) → List (A × V)
assign k v [] = (k, v) ∷ []
assign ⦃a⦄ k v ((j, w) ∷ m) = if a.code j == a.code k then (j, v) ∷ m else (j, w) ∷ assign k v m

module _ (S E P T : Type 0) where
  -- PFUN_TRANSFORM_STATE: the current state, the event, the next state and the argument, on the
  -- object; `none` is an abort.
  abbrev pub Handler : Type 0
  Handler = S → E → S → P → T → Option (ℤ × T)

  -- SElem.
  pub record Elem : Type 0 where
    pub end_state : S
    pub fun : Option Handler

  abbrev pub Table : Type 0
  Table = List (S × List (E × Elem))

module _ {S E P T : Type 0} ⦃ms : Enum S⦄ ⦃me : Enum E⦄ where
  abbrev pub row : Option (List (E × Elem S E P T)) → List (E × Elem S E P T)
  row none = []
  row (some r) = r

  -- m_evt_handler[s], which may be missing, and in it the event.
  unfoldable pub find_elem : S → E → Table S E P T → Option (Elem S E P T)
  find_elem s e tbl = find s tbl >>= find e

  -- A second registration for a state and an event fails an assertion.
  unfoldable pub reg_evt_state :
      S → E → S → Handler S E P T → Table S E P T → Option (Table S E P T)
  reg_evt_state s e end_state f tbl = elim (find_elem s e tbl) [
    | some _ ↦ none
    | none ↦ some (
        assign s (assign e (record { end_state = end_state; fun = some f }) (row (find s tbl))) tbl)
  ]

  module _ ⦃h : HasState S T⦄ where
    -- The call of a handler, and what its code decides.
    unfoldable pub run_elem : E → P → Elem S E P T → T → Option (ℤ × T)
    run_elem e p el t = elim el.fun [
      | none ↦ some (pos 0, h.set_cur_state el.end_state t)
      | some f ↦ elim (f (h.cur_state t) e el.end_state p t) [
        | none ↦ none
        | some (code, t') ↦
            if is_neg code
            then some (negsuc 1, t')
            else some (pos 0, h.set_cur_state el.end_state t')
      ]
    ]

    unfoldable pub post_evt : Table S E P T → E → P → T → Option (ℤ × T)
    post_evt tbl e p t = elim (find_elem (h.cur_state t) e tbl) [
      | none ↦ some (negsuc 0, t)
      | some el ↦ run_elem e p el t
    ]
