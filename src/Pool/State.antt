-- ===== src/Pool/State.antt =====
-- internal/pool/state.go: the states of a pool and what each allows. A state is a text in the
-- source; `parse_state` is none where `Valid` is false.
use icminers_stratum_v.Prelude.{
  ℕ, List, [], ◌∷◌, Bool, true, ◌||◌, ◌==◌, if◌then◌else◌, Option, none, some, Str, list_beq, codes,
}

pub data State : Type 0 where
  active draining maintenance paused disabled error : State

abbrev pub number : State → ℕ
number active = 0
number draining = 1
number maintenance = 2
number paused = 3
number disabled = 4
number error = 5

-- `a == b`
abbrev pub same : State → State → Bool
same a b = number a == number b

abbrev pub text_of : State → Str
text_of active = codes "active"
text_of draining = codes "draining"
text_of maintenance = codes "maintenance"
text_of paused = codes "paused"
text_of disabled = codes "disabled"
text_of error = codes "error"

abbrev states : List State
states = active ∷ draining ∷ maintenance ∷ paused ∷ disabled ∷ error ∷ []

unfoldable find_state : Str → List State → Option State
find_state s [] = none
find_state s (st ∷ rest) = if list_beq s (text_of st) then some st else find_state s rest

unfoldable pub parse_state : Str → Option State
unfolding find_state
parse_state s = find_state s states

abbrev pub accepts_new_authorization : State → Bool
accepts_new_authorization s = same s active

abbrev pub sends_new_jobs : State → Bool
sends_new_jobs s = same s active

abbrev pub accepts_shares : State → Bool
accepts_shares s = same s active || same s draining

abbrev pub runs_template_polling : State → Bool
runs_template_polling s = same s active || same s draining

-- The switch of `canTransition`.
abbrev listed : State → State → Bool
listed active to =
    same to draining || same to maintenance || same to paused || same to disabled || same to error
listed draining to =
    same to maintenance || same to paused || same to active || same to disabled || same to error
listed maintenance to =
    same to active || same to paused || same to disabled || same to error || same to draining
listed paused to = same to active || same to maintenance || same to disabled || same to error
listed disabled to = same to active
listed error to = same to active || same to paused || same to disabled || same to maintenance

unfoldable pub can_transition : State → State → Bool
can_transition from to = if same from to then true else listed from to
