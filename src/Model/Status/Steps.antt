-- ===== src/Model/Status/Steps.antt =====
-- The wire names of the supervision steps.
use agenttender.Common.{◌≡◌, ◌↔◌, refl, arith, List, [], ◌∷◌, some, Bytes, bytes_eq_iff}
use agenttender.Model.Status.{SidecarStep, breadcrumb, as_str, from_wire, find_step, wire_order}

pub from_wire-as_str : (s : SidecarStep) → from_wire (as_str s) ≡ some s
unfolding from_wire
from_wire-as_str breadcrumb = refl
from_wire-as_str _ = refl

find_step_sound :
    (n : Bytes) (l : List SidecarStep) (s : SidecarStep) → find_step n l ≡ some s → as_str s ≡ n
unfolding find_step
find_step_sound n [] s h = cc
find_step_sound n (x ∷ l) s h = ground (arith, bytes_eq_iff (as_str x) n, find_step_sound n l s)

from_wire_sound : (n : Bytes) (s : SidecarStep) → from_wire n ≡ some s → as_str s ≡ n
unfolding from_wire
from_wire_sound n s h = find_step_sound n wire_order s h

-- A wire name parses as a step exactly when it is that step's name, for every name and step.
pub from_wire_iff : (n : Bytes) (s : SidecarStep) → (from_wire n ≡ some s) ↔ (as_str s ≡ n)
from_wire_iff n s = (from_wire_sound n s, λ e. rw (← e) (from_wire-as_str s))
