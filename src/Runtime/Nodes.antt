-- ===== src/Runtime/Nodes.antt =====
-- The nodes, as the runtime meets them. What a node answers may depend on all that happened before,
-- so the runtime keeps the history of its questions and their answers, and a node is a function
-- of that history. The container service behind an address is outside the model.
use Prim.Native.String.{◌++◌ as text_append}
use text.Mathlib.Text.{starts_with}
use spark_pulse.Prelude.{ℕ, zero, suc, String, Bool, true, false, Option, List, ◌∷◌, if◌then◌else◌}

-- What a call gives: a value, or the text of the exception that it raises.
pub data Answer {ℓ} (A : Type ℓ) : Type ℓ where
  got : A → Answer A
  raised : String → Answer A

-- `get_container_status(name)["status"]`. `missing` is a daemon's answer that there is no such
-- container; `unknown` is no answer.
pub data Container : Type 0 where
  missing unknown running created : Container
  other : String → Container

-- One question to a node, with its answer. The newest stands first in a history.
pub data Event : Type 0 where
  resolved : (node : String) → Answer (Unit {0}) → Event
  stopped : (node name : String) → Answer (Unit {0}) → Event
  looked : (node name : String) → Answer Container → Event
  read_logs : (node name : String) → Answer String → Event
  -- what the start of a deployment asks for
  listed : (node : String) → Event
  ran : (rank : ℕ) → (node name : String) → Answer (Unit {0}) → Event
  modded : (node name : String) → Event
  launched : (node name : String) → Event
  asked_image : (node ref : String) → Event
  pulled : (node ref : String) → Event
  -- `serve_process_alive`: whether the engine's process is there, where the node said
  probed : (node name : String) → Option Bool → Event

abbrev pub History : Type 0
History = List Event

pub record Nodes : Type 0 where
  -- `services(address)`, which raises for a node that is not registered or not connected
  pub resolve : History → String → Answer (Unit {0})
  pub stop : History → String → String → Answer (Unit {0})
  pub status : History → String → String → Answer Container
  pub logs : History → String → String → Answer String
  -- how many more looks `_confirm_gone` has before its deadline
  pub looks : History → String → String → ℕ
  -- `_now()`
  pub now : History → String

-- Only `missing` is evidence that a container is not there.
unfoldable pub is_confirmed_gone : Container → Bool
is_confirmed_gone missing = true
is_confirmed_gone _ = false

-- What `_confirm_gone` makes of one look; `later` is the rest of the loop.
abbrev pub judge : Answer Container → History → Answer Bool × History → Answer Bool × History
judge (raised e) seen later = (raised e, seen)
judge (got c) seen later = if is_confirmed_gone c then (got true, seen) else later

-- The loop of `_confirm_gone`: it looks, and after each look that is no evidence it checks the
-- deadline. `n` is the number of looks that are left after this one.
unfoldable pub confirm_loop : Nodes → String → String → ℕ → History → Answer Bool × History
confirm_loop N node name zero h =
    let seen = looked node name (N.status h node name) ∷ h in
    judge (N.status h node name) seen (got false, seen)
confirm_loop N node name (suc n) h =
    let seen = looked node name (N.status h node name) ∷ h in
    let later = confirm_loop N node name n seen in judge (N.status h node name) seen later

unfoldable pub confirm_gone : Nodes → String → String → History → Answer Bool × History
confirm_gone N node name h = confirm_loop N node name (N.looks h node name) h

abbrev pub not_found : String → String
not_found name = text_append (text_append "Container '" name) "' not found"

abbrev usable_log : String → Answer String → String
usable_log name (raised e) = ""
usable_log name (got text) = if starts_with (not_found name) text then "" else text

-- `_final_logs`: the output of a container, read while there is still a container.
unfoldable pub final_logs : Nodes → String → String → History → String × History
final_logs N node name h =
    (usable_log name (N.logs h node name), read_logs node name (N.logs h node name) ∷ h)
