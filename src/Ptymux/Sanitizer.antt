-- ===== src/Ptymux/Sanitizer.antt =====
-- pi-remote-daemon/internal/ptymux/sanitize.go: the filter that takes title-set sequences out of a
-- byte stream.
pub mod Chunks
pub mod Titles
use pi_remote.Prelude.{
  ℕ, Bool, true, false, not, ◌&&◌, ◌||◌, List, [], ◌∷◌, ◌++◌, length, ltb, leb, ◌==◌, if◌then◌else◌,
}

pub data SanState : Type 0 where
  normal after_esc osc_num osc_num_esc drop_title drop_esc pass_osc pass_osc_esc : SanState

pub record Sanitizer : Type 0 where
  pub state : SanState
  pub pending : List ℕ
  pub param : List ℕ

abbrev pub esc : ℕ
esc = 0x1b

abbrev pub bel : ℕ
bel = 0x07

-- The zero value.
abbrev pub new_sanitizer : Sanitizer
new_sanitizer = record { state = normal; pending = []; param = [] }

abbrev pub to : List ℕ → SanState → List ℕ → List ℕ → List ℕ × Sanitizer
to out state pending param = (out, record { state = state; pending = pending; param = param })

abbrev pub is_title_param : List ℕ → Bool
is_title_param (c ∷ []) = c == b'0' || (c == b'1' || c == b'2')
is_title_param _ = false

abbrev pub contains_esc : List ℕ → Bool
contains_esc [] = false
contains_esc (c ∷ b) = if c == esc then true else contains_esc b

-- One round of the loop: the bytes that it adds to `out`, and the new state.
unfoldable pub step_in : SanState → ℕ → List ℕ → List ℕ → List ℕ × Sanitizer
step_in normal c pending param =
    if c == esc then to [] after_esc (c ∷ []) param else to (c ∷ []) normal pending param
step_in after_esc c pending param =
    if c == b']'
    then to [] osc_num (pending ++ c ∷ []) []
    else if c == esc
    then to (esc ∷ []) after_esc pending param
    else to (esc ∷ c ∷ []) normal pending param
step_in osc_num c pending param =
    if leb b'0' c && (leb c b'9' && ltb (length param) 8)
    then to [] osc_num (pending ++ c ∷ []) (param ++ c ∷ [])
    else if c == b';'
    then if is_title_param param
      then to [] drop_title [] param
      else to (pending ++ c ∷ []) pass_osc pending param
    else if c == bel
    then if is_title_param param
      then to [] normal [] param
      else to (pending ++ c ∷ []) normal pending param
    else if c == esc
    then to [] osc_num_esc pending param
    else to (pending ++ c ∷ []) pass_osc pending param
step_in osc_num_esc c pending param =
    if c == 0x5c
    then if is_title_param param
      then to [] normal [] param
      else to (pending ++ esc ∷ c ∷ []) normal pending param
    else to (pending ++ esc ∷ c ∷ []) normal pending param
step_in drop_title c pending param =
    if c == bel
    then to [] normal pending param
    else if c == esc
    then to [] drop_esc pending param
    else to [] drop_title pending param
step_in drop_esc c pending param =
    if c == 0x5c then to [] normal pending param else to [] drop_title pending param
step_in pass_osc c pending param =
    if c == bel
    then to (c ∷ []) normal pending param
    else if c == esc
    then to (c ∷ []) pass_osc_esc pending param
    else to (c ∷ []) pass_osc pending param
step_in pass_osc_esc c pending param =
    if c == 0x5c
    then to (c ∷ []) normal pending param
    else if c == esc
    then to (c ∷ []) pass_osc_esc pending param
    else to (c ∷ []) pass_osc pending param

unfoldable pub run : List ℕ → Sanitizer → List ℕ × Sanitizer
run [] s = ([], s)
run (c ∷ b) s =
    let (out, s') = step_in s.state c s.pending s.param in
    let (rest, s'') = run b s' in (out ++ rest, s'')

abbrev pub is_normal : SanState → Bool
is_normal normal = true
is_normal _ = false

-- `if s.state == stNormal { s.pending = s.pending[:0] }`
abbrev pub settle : Sanitizer → Sanitizer
settle s = if is_normal s.state then record s { pending = [] } else s

unfoldable pub sanitize : List ℕ → Sanitizer → List ℕ × Sanitizer
sanitize b s =
    let (out, s') = run b s in
    if is_normal s.state && not (contains_esc b) then (b, s) else (out, settle s')
