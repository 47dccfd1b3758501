-- ===== src/Scheduler/Scatter/Children.antt =====
-- The notifications that a master is split into.
use shinken_gpt.Prelude.{
  ℕ, ◌+◌, ◌<◌, ◌≤◌, ◌≡◌, refl, sym, subst, ◌∙◌, inl, inr, Bool, true, false, not, some, List, [],
  ◌∷◌, ◌++◌, if◌then◌else◌, contains, All, Bool-cases, arith,
}
use shinken_gpt.SchedulingItem.Types.{Item, scheduled}
use shinken_gpt.SchedulingItem.World.{World, Notification, update, on, ◌▷◌}
use shinken_gpt.Contact.{get_notification_commands}
use shinken_gpt.Escalation.{is_escalable, get_escalable_contacts}
use shinken_gpt.Scheduler.{set_notification}
use shinken_gpt.Scheduler.Poll.{is_master}
use shinken_gpt.Contact.Wants.{wants}
use shinken_gpt.Scheduler.Scatter.{
  Book, child_of, keep_child, scatter_commands, is_skipped, scatter_contacts, told_of_problem,
  scatter_notification, is_recovery, clear_contacts,
}

-- New notifications are made, and the old ones stay, and so do the clock and the configuration.
pub record Scatters (w w' : World) : Type 0 where
  pub now : w'.now ≡ w.now
  pub next_id : w.next_id ≤ w'.next_id
  pub conf : (i : ℕ) → (w'.items i).conf ≡ (w.items i).conf
  pub notifications : (j : ℕ) → j < w.next_id → w'.notifications j ≡ w.notifications j

pub Scatters-refl : (w : World) → Scatters w w
Scatters-refl w = record {
  now = refl;
  next_id = ground arith;
  conf = λ i. refl;
  notifications = λ j h. refl;
}

pub Scatters-trans : {w w' w'' : World} → Scatters w w' → Scatters w' w'' → Scatters w w''
Scatters-trans p q = record {
  now = q.now ∙ p.now;
  next_id = ground (arith, p.next_id, q.next_id);
  conf = λ i. q.conf i ∙ p.conf i;
  notifications = λ j h. q.notifications j (ground (arith, h, p.next_id)) ∙ p.notifications j h;
}

-- A notification for a contact that is told, by a command by which that contact wants it.
pub record IsChild (book : Book) (x : Item) (n : Notification) (told : List ℕ) (k : Notification)
    : Type 0 where
  pub contact : ℕ
  pub command : ℕ
  pub to_contact : k.contact ≡ some contact
  pub by_command : k.command ≡ some command
  pub status : k.status ≡ scheduled
  pub type : k.type ≡ n.type
  pub ref : k.ref ≡ n.ref
  pub is_told : contains contact told ≡ true
  pub wanted :
      wants x.kind
        (book.contacts contact)
        x.last_chk
        x.state
        n.type
        x.business_impact
        (some command)
      ≡ true

-- the children that were made, up to the world
abbrev pub AreChildren :
    (book : Book) (x : Item) (n : Notification) (told : List ℕ) (w : World) → List ℕ → Type 0
AreChildren book x n told w =
    All (λ id. (id < w.next_id) × IsChild book x n told (w.notifications id))

module _ (book : Book) (x : Item) (n : Notification) (told : List ℕ) where
  AreChildren-later :
      {w w' : World}
      → Scatters w w'
      → (ids : List ℕ) → AreChildren book x n told w ids
      → AreChildren book x n told w' ids
  AreChildren-later p [] h = tt
  AreChildren-later p (id ∷ ids) ((h, k), hs) = (
    (ground (arith, h, p.next_id), subst (IsChild book x n told) (sym (p.notifications id h)) k),
    AreChildren-later p ids hs,
  )

  AreChildren-++ :
      (w : World) (ids more : List ℕ)
      → AreChildren book x n told w ids
      → AreChildren book x n told w more
      → AreChildren book x n told w (ids ++ more)
  AreChildren-++ w [] more h k = k
  AreChildren-++ w (id ∷ ids) more (h, hs) k = (h, AreChildren-++ w ids more hs k)

module _ (book : Book) (x : Item) (n : Notification) (escalated : Bool) where
  module _ (contact cmd : ℕ) (w : World) where
    abbrev is_wanted : Bool
    is_wanted =
        wants x.kind (book.contacts contact) x.last_chk x.state n.type x.business_impact (some cmd)

    abbrev made : World
    made = record w {
      next_id = w.next_id + 1;
      notifications =
          update w.notifications w.next_id (child_of book w.now n escalated contact cmd);
    }

    abbrev kept : World
    kept = if is_wanted then made ▷ on n.ref (keep_child n.type contact w.next_id) else made

    kept-Scatters : Scatters w kept
    unfolding keep_child
    kept-Scatters = record {
      now = ground arith;
      next_id = ground arith;
      conf = λ i. ground arith;
      notifications = λ j h. ground arith;
    }

    made-IsChild :
        (told : List ℕ)
        → contains contact told ≡ true
        → is_wanted ≡ true
        → (w.next_id < kept.next_id) × IsChild book x n told (kept.notifications w.next_id)
    unfolding child_of keep_child
    made-IsChild told h k = (
      ground arith,
      record {
        contact = contact;
        command = cmd;
        to_contact = ground arith;
        by_command = ground arith;
        status = ground arith;
        type = ground arith;
        ref = ground arith;
        is_told = h;
        wanted = k;
      },
    )

  commands-Scatters :
      (contact : ℕ) (cmds : List ℕ) (w : World)
      → Scatters w (scatter_commands book x n escalated contact cmds w).0
  unfolding scatter_commands
  commands-Scatters contact [] w = Scatters-refl w
  commands-Scatters contact (cmd ∷ cmds) w =
      Scatters-trans (kept-Scatters contact cmd w)
        (commands-Scatters contact cmds (kept contact cmd w))

  commands-children :
      (told : List ℕ) (contact : ℕ)
      → contains contact told ≡ true
      → (cmds : List ℕ) (w : World)
      → let (w', children) = scatter_commands book x n escalated contact cmds w in
        AreChildren book x n told w' children
  unfolding scatter_commands
  commands-children told contact h [] w = tt
  commands-children told contact h (cmd ∷ cmds) w =
      let w1 = kept contact cmd w in
      let (w', children) = scatter_commands book x n escalated contact cmds w1 in
      let rest = commands-children told contact h cmds w1 in
      let later = commands-Scatters contact cmds w1 in
      let P : Bool → Type 0 =
        λ b. AreChildren book x n told w' (if b then w.next_id ∷ children else children) in
      elim (Bool-cases (is_wanted contact cmd w)) [
        | inl e ↦
            (let first =
                AreChildren-later book x n told later (w.next_id ∷ [])
                  (made-IsChild contact cmd w told h e, tt) in
              subst P (sym e) (first.0, rest))
        | inr e ↦ subst P (sym e) rest
      ]

  pub contacts-Scatters :
      (cs : List ℕ) (w : World) → Scatters w (scatter_contacts book x n escalated cs w).0
  unfolding scatter_contacts
  contacts-Scatters [] w = Scatters-refl w
  contacts-Scatters (c ∷ cs) w =
      Scatters-trans
        (commands-Scatters c
          (if is_skipped x n c w then [] else get_notification_commands (book.contacts c) x.kind) w)
        (contacts-Scatters cs _)

  contacts-children :
      (told cs : List ℕ)
      → All (λ c. contains c told ≡ true) cs
      → (w : World)
      → let (w', children) = scatter_contacts book x n escalated cs w in
        AreChildren book x n told w' children
  unfolding scatter_contacts
  contacts-children told [] h w = tt
  contacts-children told (c ∷ cs) (h, hs) w =
      let cmds =
        if is_skipped x n c w then [] else get_notification_commands (book.contacts c) x.kind in
      let (w1, children) = scatter_commands book x n escalated c cmds w in
      let (w2, more) = scatter_contacts book x n escalated cs w1 in
      AreChildren-++ book x n told w2 children more
        (AreChildren-later book x n told (contacts-Scatters cs w1) children
          (commands-children told c h cmds w))
        (contacts-children told cs hs w1)

All-more :
    (d : ℕ) (ds cs : List ℕ)
    → All (λ c. contains c ds ≡ true) cs
    → All (λ c. contains c (d ∷ ds) ≡ true) cs
All-more d ds [] h = tt
All-more d ds (c ∷ cs) (h, hs) = (ground (arith, h), All-more d ds cs hs)

All-own : (cs : List ℕ) → All (λ c. contains c cs ≡ true) cs
All-own [] = tt
All-own (c ∷ cs) = (ground arith, All-more c cs cs (All-own cs))

pub if-one : {B : Type 0} (Q : B → Type 0) (b : Bool) {u v : B} → Q u → Q v → Q (if b then u else v)
if-one Q true p q = p
if-one Q false p q = q

if-both :
    {A B : Type 0} (P : A → B → Type 0) (b : Bool) {x y : A} {u v : B}
    → P x u
    → P y v
    → P (if b then x else y) (if b then u else v)
if-both P true p q = p
if-both P false p q = q

-- Whom a master notification is for: a recovery is for those that were told of the problem, the rest
-- for the contacts of the escalations that are eligible, or else for those of the item.
abbrev pub audience : Book → ℕ → Item → Notification → ℕ → List ℕ
audience book now x n t =
    if is_recovery n.type
    then told_of_problem x
    else if is_escalable book.escalations now x n t
    then (get_escalable_contacts book.escalations now x n t).1
    else x.contacts

cleared-conf :
    (i : ℕ) (w : World) (j : ℕ) → ((w ▷ on i clear_contacts).items j).conf ≡ (w.items j).conf
cleared-conf i w j = ground arith

module _ (book : Book) (a t : ℕ) (w : World) where
  -- A master is only split into notifications for its audience. Each is scheduled, of the type
  -- and the item of the master, and by a command by which its contact wants it.
  pub scatter_notification-children :
      let n = w.notifications a in
      let x = w.items n.ref in
      let (w', children) = scatter_notification book a t w in
      AreChildren book x n (audience book w.now x n t) w' children
  unfolding scatter_notification
  scatter_notification-children =
      let n = w.notifications a in
      let x = w.items n.ref in
      let (n', escalated) = get_escalable_contacts book.escalations w.now x n t in
      let P : List ℕ → World × List ℕ → Type 0 = λ told r. AreChildren book x n told r.0 r.1 in
      if-one (P (audience book w.now x n t)) (not (is_master n)) tt (
        if-both P (is_recovery n.type)
          (contacts-children book x n false (told_of_problem x) (told_of_problem x)
            (All-own (told_of_problem x)) (w ▷ on n.ref clear_contacts))
          (if-both P (is_escalable book.escalations w.now x n t)
            (contacts-children book x n true escalated escalated (All-own escalated)
              (w ▷ set_notification a (λ _. n')))
            (contacts-children book x n false x.contacts x.contacts (All-own x.contacts) w)))

  pub scatter_notification-keeps :
      let w' = (scatter_notification book a t w).0 in
      (w'.now ≡ w.now) × ((i : ℕ) → (w'.items i).conf ≡ (w.items i).conf)
  unfolding scatter_notification
  scatter_notification-keeps =
      let n = w.notifications a in
      let x = w.items n.ref in
      let (n', escalated) = get_escalable_contacts book.escalations w.now x n t in
      let Q : World × List ℕ → Type 0 =
        λ r. (r.0.now ≡ w.now) × ((i : ℕ) → (r.0.items i).conf ≡ (w.items i).conf) in
      let cleared = w ▷ on n.ref clear_contacts in
      let p = contacts-Scatters book x n false (told_of_problem x) cleared in
      let q = contacts-Scatters book x n true escalated (w ▷ set_notification a (λ _. n')) in
      let r = contacts-Scatters book x n false x.contacts w in
      if-one Q (not (is_master n)) (refl, λ i. refl)
        (if-one Q (is_recovery n.type) (p.now, λ i. p.conf i ∙ cleared-conf n.ref w i)
          (if-one Q (is_escalable book.escalations w.now x n t) (q.now, q.conf) (r.now, r.conf)))
