-- ===== src/Scheduler/Internal.antt =====
-- Checks that the scheduler answers itself: `manage_internal_check` of
-- shinken/objects/schedulingitem.py and `manage_internal_checks` of shinken/scheduler.py. The rule and
-- the output, which macros are resolved in, are given by the caller. `none` is an UnboundLocalError.
pub mod Managed
use Prim.Native.String.{String}
use shinken_gpt.Prelude.{
  ℕ, Bool, true, false, not, ◌&&◌, ◌||◌, ◌==◌, Option, none, some, List, [], ◌∷◌, if◌then◌else◌,
  ltb, ◌>>=◌, map_some,
}
use shinken_gpt.BusinessRule.{Node, Percent, get_state}
use shinken_gpt.SchedulingItem.Types.{Item, waitconsume}
use shinken_gpt.SchedulingItem.World.{World, Check, update, on}
use shinken_gpt.SchedulingItem.Consume.{set_check}
use shinken_gpt.Scheduler.{Scheduler, is_scheduled}

-- what the command of an internal check starts with, or is
pub data InternalCommand : Type 0 where
  bp_command internal_host_up echo unknown_internal : InternalCommand

-- What is given from outside. A text of a rule is a number: texts are only compared, and read. A
-- `none` is an exception, whose text is `error_output`.
pub record Internals : Type 0 where
  pub command_of : ℕ → InternalCommand
  -- the text of the rule in the check_command of an item, if that is a bp_rule
  pub rule_text : ℕ → Option ℕ
  -- re.match(r"\$[\w\d_-]+\$", rule)
  pub is_macro : ℕ → Bool
  -- of an item, in a world
  pub resolve_simple_macros_in_string : ℕ → World → ℕ → Option ℕ
  pub eval_cor_pattern : ℕ → Option Node
  -- get_business_rule_output, of an item with a rule
  pub output_of : ℕ → World → Node → Option String
  pub error_output : String

-- the business rule of an item; `processed_business_rule` is the empty text at first
pub record BusinessRule : Type 0 where
  pub processed_business_rule : ℕ
  pub business_rule : Option Node

abbrev pub Rules : Type 0
Rules = ℕ → BusinessRule

abbrev pub set_got_business_rule : Item → Item
set_got_business_rule x = record x { conf = record x.conf { got_business_rule = true } }

abbrev is_unset : Option Node → Bool
is_unset none = true
is_unset (some _) = false

-- self.got_business_rule = True, for a bp_rule
unfoldable pub mark_business_rule : Internals → ℕ → World → World
mark_business_rule i self w = elim (i.rule_text self) [
  | none ↦ w
  | some _ ↦ on self set_got_business_rule w
]

-- create_business_rules after that mark
unfoldable pub create_business_rules : Internals → ℕ → World → BusinessRule → Option BusinessRule
create_business_rules i self w r = elim (i.rule_text self) [
  | none ↦ some r
  | some text ↦
      if i.is_macro text || is_unset r.business_rule
      then (do
        rule ← i.resolve_simple_macros_in_string self w text
        if rule == r.processed_business_rule then some r else (do
          node ← i.eval_cor_pattern rule
          some (record { processed_business_rule = rule; business_rule = some node })))
      else some r
]

-- `_echo` puts the text of a state in the place of the exit status; a text equals none of the
-- numbers that an exit status is compared with, as this number
abbrev pub a_text : ℕ
a_text = 256

unfoldable pub rule_result : Percent → Internals → ℕ → World → BusinessRule → Option (ℕ × String)
unfolding get_state
rule_result float i self w r = do
  rule ← r.business_rule
  state ← get_state float (λ j. (w.items j).last_hard_state_id) rule
  output ← i.output_of self w rule
  some (state, output)

abbrev pub or_unknown : String → Option (ℕ × String) → ℕ × String
or_unknown error_output none = (3, error_output)
or_unknown error_output (some r) = r

-- The branch of the business rules. A rule that cannot be created leaves the one before.
unfoldable pub manage_rule : Percent → Internals → ℕ → World → Rules → (ℕ × String) × World × Rules
unfolding mark_business_rule create_business_rules rule_result
manage_rule float i self w rules =
    let w' = mark_business_rule i self w in
    elim (create_business_rules i self w' (rules self)) [
      | none ↦ (or_unknown i.error_output none, w', rules)
      | some r ↦
          (or_unknown i.error_output (rule_result float i self w' r), w', update rules self r)
    ]

-- the exit status and the output, and what the answer writes beside
unfoldable pub internal_result :
    Percent → Internals → World → Rules → ℕ → Option ((ℕ × String) × World × Rules)
unfolding manage_rule
internal_result float i w rules c =
    let self = (w.checks c).ref in
    elim (i.command_of c) [
      | bp_command ↦ some (manage_rule float i self w rules)
      | internal_host_up ↦ some ((0, "Host assumed to be UP"), w, rules)
      | echo ↦ some ((a_text, (w.items self).output), w, rules)
      | unknown_internal ↦ none
    ]

unfoldable pub answer : ℕ → ℕ × String → Check → Check
answer now (state, output) c = record c {
  output = output;
  long_output = output;
  check_time = now;
  exit_status = state;
  status = waitconsume;
}

unfoldable pub is_due_internal : World → Check → Bool
is_due_internal w c = c.internal && is_scheduled c.status && ltb c.t_to_go w.now

unfoldable pub manage_one : Percent → Internals → ℕ → World × Rules → Option (World × Rules)
unfolding internal_result answer is_due_internal
manage_one float i c (w, rules) =
    if is_due_internal w (w.checks c)
    then map_some (λ q. (set_check c (answer w.now q.0) q.1, q.2))
        (internal_result float i w rules c)
    else some (w, rules)

unfoldable pub manage_each : Percent → Internals → List ℕ → World × Rules → Option (World × Rules)
unfolding manage_one
manage_each float i [] v = some v
manage_each float i (c ∷ cs) v = do v' ← manage_one float i c v; manage_each float i cs v'

unfoldable pub manage_internal_checks :
    Percent → Internals → Scheduler → Rules → Option (Scheduler × Rules)
unfolding manage_each
manage_internal_checks float i s rules =
    map_some (λ v. (record s { world = v.0 }, v.1)) (manage_each float i s.checks (s.world, rules))
