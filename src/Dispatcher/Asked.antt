-- ===== src/Dispatcher/Asked.antt =====
-- What `check_alive` leaves: which schedulers need a configuration.
use shinken_gpt.Prelude.{
  ℕ, ◌≡◌, ◌⊎◌, refl, sym, ap, ◌∙◌, subst, Bool, true, false, not, ◌||◌, Option, none, some, List,
  [], ◌∷◌, ◌==◌, if◌then◌else◌, inl, inr, arith, ==_iff, All, contains, if_cases,
}
use shinken_gpt.SatelliteLink.{Network, Managed, update_infos}
use shinken_gpt.Dispatcher.{
  Dispatcher, SchedulerLink, News, has_none, check_alive_one, check_alive, ask,
}
use shinken_gpt.Dispatcher.Matching.{IsMatched, same_conf}
use shinken_gpt.Dispatcher.Placed.{IsCovered, IsDistinct}

-- A scheduler that needs a configuration has none or is dead.
abbrev pub Asks : SchedulerLink → Type 0
Asks l = l.need_conf ≡ true → (l.link.alive ≡ false) ⊎ (l.conf ≡ none)

pub record IsAsking (d : Dispatcher) : Type 0 where
  pub asking : (s : ℕ) → Asks (d.schedulers s)

-- The configurations and what the schedulers have of them are as before.
pub record IsSame (d d' : Dispatcher) : Type 0 where
  pub confs : (c : ℕ) → d'.confs c ≡ d.confs c
  pub held : (s : ℕ) → (d'.schedulers s).conf ≡ (d.schedulers s).conf

pub IsSame-IsMatched : (d d' : Dispatcher) → IsSame d d' → IsMatched d → IsMatched d'
IsSame-IsMatched d d' e m = record {
  held = λ c s h. e.held s ∙ m.held c s (sym (ap (λ f. f.assigned_to) (e.confs c)) ∙ h);
  given = λ s c h. ap (λ f. f.assigned_to) (e.confs c) ∙ m.given s c (sym (e.held s) ∙ h);
  flagged = λ c.
      ap (λ f. f.is_assigned) (e.confs c)
      ∙ m.flagged c
      ∙ ap (λ f. not (has_none f.assigned_to)) (sym (e.confs c));
}

pub IsSame-IsCovered :
    (all : List ℕ) (d d' : Dispatcher) → IsSame d d' → IsCovered all d → IsCovered all d'
IsSame-IsCovered all d d' e h = record {
  known = λ c s a. h.known c s (sym (ap (λ f. f.assigned_to) (e.confs c)) ∙ a);
}

pub IsSame-trans : (d d1 d2 : Dispatcher) → IsSame d d1 → IsSame d1 d2 → IsSame d d2
IsSame-trans d d1 d2 p q = record {
  confs = λ c. q.confs c ∙ p.confs c;
  held = λ s. q.held s ∙ p.held s;
}

same_scheduler : (d : Dispatcher) (s x : ℕ) → (x == s) ≡ true → d.schedulers x ≡ d.schedulers s
same_scheduler d s x h = ap (λ y. d.schedulers y) ((==_iff x s).0 h)

check_alive_one-IsSame :
    (now : ℕ) (news : News) (s : ℕ) (d : Dispatcher) → IsSame d (check_alive_one now news s d)
unfolding check_alive_one
check_alive_one-IsSame now news s d = record {
  confs = λ c. refl;
  held = λ x. ground (arith, same_conf d s x);
}

-- What a scheduler says after it was asked, when it needed no configuration while it had one.
news_asking :
    (alive need : Bool) (conf : Option ℕ)
    → (need ≡ true → conf ≡ none)
    → (not alive || has_none conf || need) ≡ true
    → (alive ≡ false) ⊎ (conf ≡ none)
news_asking false need conf ready h = inl refl
news_asking true need none ready h = inr refl
news_asking true need (some c) ready h = inr (ready h)

abbrev pub ReadyAt : Dispatcher → ℕ → Type 0
ReadyAt d s = (d.schedulers s).need_conf ≡ true → (d.schedulers s).conf ≡ none

module _ (now : ℕ) (news : News) where
  asked_others :
      (d : Dispatcher) (s x : ℕ)
      → (x == s) ≡ false
      → (check_alive_one now news s d).schedulers x ≡ d.schedulers x
  unfolding check_alive_one
  asked_others d s x h =
      ap
        (λ b.
          if b then ask now (news.network s) (news.managed s) (d.schedulers s) else d.schedulers x)
        h

  ask-Asks :
      (network : Network) (managed : Managed) (l : SchedulerLink)
      → (l.need_conf ≡ true → l.conf ≡ none)
      → Asks (ask now network managed l)
  unfolding ask
  ask-Asks network managed l ready h =
      news_asking (update_infos now network managed l.link).alive l.need_conf l.conf ready h

  asked_one :
      (d : Dispatcher) (s : ℕ) → ReadyAt d s → IsAsking d → IsAsking (check_alive_one now news s d)
  unfolding check_alive_one
  asked_one d s ready asking = record {
    asking = λ x.
        if_cases Asks (x == s)
          (λ t. ask-Asks (news.network s) (news.managed s) (d.schedulers s) ready)
          (λ f. asking.asking x);
  }

  rest_ready :
      (s : ℕ) (ss : List ℕ) (d : Dispatcher)
      → contains s ss ≡ false
      → All (ReadyAt d) ss
      → All (ReadyAt (check_alive_one now news s d)) ss
  rest_ready s [] d h r = tt
  rest_ready s (x ∷ ss) d h (q, r) = (
    subst (λ l. l.need_conf ≡ true → l.conf ≡ none) (sym (asked_others d s x (ground arith))) q,
    rest_ready s ss d (ground arith) r,
  )

  pub check_alive-IsAsking :
      (ss : List ℕ) (d : Dispatcher)
      → IsDistinct ss
      → All (ReadyAt d) ss
      → IsAsking d
      → IsSame d (check_alive now news ss d) × IsAsking (check_alive now news ss d)
  unfolding check_alive
  check_alive-IsAsking [] d h r a = (record { confs = λ c. refl; held = λ s. refl }, a)
  check_alive-IsAsking (s ∷ ss) d (fresh, h) (q, r) a =
      let d1 = check_alive_one now news s d in
      let (same, asking) =
        check_alive-IsAsking ss d1 h (rest_ready s ss d fresh r) (asked_one d s q a) in
      (
        IsSame-trans d d1 (check_alive now news ss d1) (check_alive_one-IsSame now news s d) same,
        asking,
      )
