-- ===== src/SchedulingItem/Attempts/Consumes.antt =====
-- The whole of `consume_state_result`: the attempts of the item, the status of the check, and the
-- last hard state.
use shinken_gpt.Prelude.{
  ℕ, ◌<◌, ◌≡◌, sym, ap, ◌∙◌, subst, false, refl, List, [], ◌∷◌, if◌then◌else◌, ◌⊎◌, arith,
}
use shinken_gpt.SchedulingItem.Types.{waitconsume, waitdep, zombie, havetoresolvedep}
use shinken_gpt.SchedulingItem.World.{World}
use shinken_gpt.SchedulingItem.Consume.{done_status, nobody, consume_state_result}
use shinken_gpt.SchedulingItem.Attempts.{step}
use shinken_gpt.SchedulingItem.Attempts.Parts.{conclude-own, conclude-tries, conclude-checks, Noted}
use shinken_gpt.SchedulingItem.Attempts.Stages.{
  outcome_of, reacted, settled-check, settled-item, react-settled, consume-chain,
}

by_waiting :
    (waiting : List ℕ)
    → (if nobody waiting then zombie else havetoresolvedep)
      ≡ (elim waiting [ [] ↦ zombie | _ ∷ _ ↦ havetoresolvedep ])
by_waiting [] = refl
by_waiting (_ ∷ _) = refl

module _ (fuel self c : ℕ) (w : World) where
  -- The result of a known check changes the attempts of the item as `step` says, by the real state
  -- before and the exit status after the modulations; the state type before is kept in
  -- `last_state_type`.
  pub consume-step :
      c < w.next_id
      → ((consume_state_result fuel self c w).items self).tries ≡ (
          let x = w.items self in
          step
            (outcome_of fuel self c w)
            x.max_check_attempts
            (record x.tries { last_state_type = x.state_type }))
  consume-step h =
      let p = conclude-tries self (reacted fuel self c w) self in
      let q = (react-settled fuel self c w).tries self in
      ap (λ (v : World). (v.items self).tries) (consume-chain fuel self c w)
      ∙ p
      ∙ ground (arith, q, settled-check fuel self c w h, settled-item fuel self c w)

  pub consume-done_status :
      c < w.next_id
      → (((w.checks c).status ≡ waitconsume) ⊎ ((w.checks c).status ≡ waitdep))
      → ((consume_state_result fuel self c w).checks c).status ≡ done_status (w.checks c)
  consume-done_status h k =
      ap (λ (v : World). (v.checks c).status) (consume-chain fuel self c w)
      ∙ ap (λ f. (f c).status) (conclude-checks self (reacted fuel self c w))
      ∙ ap (λ f. (f c).status) (react-settled fuel self c w).checks
      ∙ (settled-check fuel self c w h).2 k

  -- A known check that waits to be consumed, or for its dependencies, does not wait any more: it is
  -- a zombie if no check waits for it, and otherwise has to resolve the dependencies of those that do.
  pub consume-done :
      c < w.next_id
      → (((w.checks c).status ≡ waitconsume) ⊎ ((w.checks c).status ≡ waitdep))
      → ((consume_state_result fuel self c w).checks c).status
        ≡ (elim (w.checks c).depend_on_me [ [] ↦ zombie | _ ∷ _ ↦ havetoresolvedep ])
  unfolding done_status
  consume-done h k = consume-done_status h k ∙ by_waiting (w.checks c).depend_on_me

  -- After a result, `state_type_id` says whether the state is HARD, a HARD state is recorded as the
  -- last hard state with its id, and `in_scheduled_downtime_during_last_check` is False.
  pub consume-last_hard_state :
      let x = (consume_state_result fuel self c w).items self in
      (x.in_scheduled_downtime_during_last_check ≡ false) × Noted x x
  consume-last_hard_state =
      subst
        (λ (v : World).
          let x = v.items self in (x.in_scheduled_downtime_during_last_check ≡ false) × Noted x x)
        (sym (consume-chain fuel self c w)) (conclude-own self (reacted fuel self c w))
