-- ===== src/SchedulingItem/Acks.antt =====
-- Acknowledgements and comments: `acknowledge_problem`, `unacknowledge_problem`,
-- `unacknowledge_problem_if_not_sticky`, `check_for_expire_acknowledge`, `add_comment` and
-- `del_comment` of shinken/objects/item.py.
-- A deleted comment is also marked in the scheduler's own table, which is not modelled.
use shinken_gpt.Prelude.{
  ℕ, suc, ◌≡◌, ◌≢◌, Bool, true, false, not, ◌&&◌, Option, none, some, List, [], ◌∷◌, ◌++◌, ◌==◌,
  if◌then◌else◌, ltb, any, length, zero, arith,
}
use shinken_gpt.SchedulingItem.Types.{
  Item, Acknowledge, Comment, acknowledgement, same_state, ok_up, update_status,
}
use shinken_gpt.SchedulingItem.World.{World, on, ◌▷◌, brok}
use shinken_gpt.SchedulingItem.Notify.{create_notifications}

-- the last comment with the id is removed, as `comments.remove(c_to_del)`
unfoldable pub has_comment : ℕ → List Comment → Bool
has_comment id = any (λ c. c.id == id)

unfoldable pub del_comment : ℕ → List Comment → List Comment
unfolding has_comment
del_comment id [] = []
del_comment id (c ∷ cs) =
    let rest = del_comment id cs in if c.id == id && not (has_comment id cs) then cs else c ∷ rest

abbrev goes : Comment → Bool
goes c = c.entry_type == 4 && not c.persistent

abbrev comment_at : ℕ → List Comment → Option Comment
comment_at i [] = none
comment_at zero (c ∷ cs) = some c
comment_at (suc i) (c ∷ cs) = comment_at i cs

abbrev deleted_if : Option Comment → List Comment → List Comment
deleted_if none cs = cs
deleted_if (some c) cs = if goes c then del_comment c.id cs else cs

-- The loop over the list that its body shortens: the iterator goes on at the next index. Beyond
-- the end nothing happens, so as many rounds as there are comments at the start are enough.
unfoldable pub walk : ℕ → ℕ → List Comment → List Comment
unfolding del_comment
walk zero i cs = cs
walk (suc rounds) i cs = walk rounds (suc i) (deleted_if (comment_at i cs) cs)

abbrev ack_of : Item → Bool → Option Acknowledge → List Comment → Item
ack_of x b a cs = record x {
  ack = record x.ack { problem_has_been_acknowledged = b; acknowledgement = a; comments = cs };
}

unfoldable pub unacknowledge_problem : Item → Item
unfolding walk
unacknowledge_problem x =
    if x.problem_has_been_acknowledged
    then brok update_status (ack_of x false none (walk (length x.comments) 0 x.comments))
    else x

abbrev unless_sticky : Option Acknowledge → Item → Item
unless_sticky none x = x
unless_sticky (some a) x = if a.sticky then x else unacknowledge_problem x

unfoldable pub unacknowledge_problem_if_not_sticky : Item → Item
unfolding unacknowledge_problem
unacknowledge_problem_if_not_sticky x = unless_sticky x.acknowledgement x

abbrev is_expired : ℕ → Option Acknowledge → Bool
is_expired now none = false
is_expired now (some a) = not (a.end_time == 0) && ltb a.end_time now

unfoldable pub check_for_expire_acknowledge : ℕ → Item → Item
unfolding unacknowledge_problem
check_for_expire_acknowledge now x =
    if is_expired now x.acknowledgement then unacknowledge_problem x else x

-- `sticky` is the number of the command; the id of the comment comes from the caller
unfoldable pub take_acknowledgement : ℕ → Bool → ℕ → ℕ → Item → Item
take_acknowledgement sticky persistent end_time comment_id x =
    let c : Comment = record {
      id = comment_id;
      entry_type = 4;
      persistent = persistent;
      can_be_deleted = false;
    } in
    brok update_status (
      ack_of x true (some (record { sticky = sticky == 2; end_time = end_time }))
        (x.comments ++ c ∷ []))

unfoldable pub acknowledge_problem : ℕ → ℕ → Bool → Bool → ℕ → ℕ → World → World
unfolding take_acknowledgement
acknowledge_problem self sticky notify persistent end_time comment_id w =
    let x = w.items self in
    if same_state x.state (ok_up x.kind)
    then w
    else (if notify then create_notifications self acknowledgement none w else w)
      ▷ on self (take_acknowledgement sticky persistent end_time comment_id)

-- Two comments of the same acknowledgement, neither of them persistent: removing the
-- acknowledgement deletes the first and leaves the second.
pub unacknowledge_problem-skips :
    (x : Item) (c d : Comment)
    → x.problem_has_been_acknowledged ≡ true
    → x.comments ≡ c ∷ d ∷ []
    → goes c ≡ true
    → goes d ≡ true
    → c.id ≢ d.id
    → (unacknowledge_problem x).comments ≡ d ∷ []
unfolding unacknowledge_problem
unacknowledge_problem-skips x c d on_ack both gc gd ne = rw (on_ack, both) (ground arith)

-- Acknowledging a problem and then taking the acknowledgement back clears the flag and the
-- acknowledgement; an item that is OK or UP is left alone by the first.
pub acknowledge-unacknowledge :
    (self sticky : ℕ) (notify persistent : Bool) (end_time id : ℕ) (w : World)
    → let x = w.items self in
      let w' = acknowledge_problem self sticky notify persistent end_time id w in
      let y = unacknowledge_problem (w'.items self) in
      if same_state x.state (ok_up x.kind)
      then w' ≡ w
      else ((w'.items self).problem_has_been_acknowledged ≡ true)
        × (y.problem_has_been_acknowledged ≡ false)
        × (y.acknowledgement ≡ none)
unfolding acknowledge_problem unacknowledge_problem
acknowledge-unacknowledge self sticky notify persistent end_time id w = ground arith

-- A sticky acknowledgement outlasts a change of the problem's state; any other is removed by it.
pub unacknowledge_if_not_sticky :
    (x : Item) (a : Acknowledge)
    → x.acknowledgement ≡ some a
    → x.problem_has_been_acknowledged ≡ true
    → (unacknowledge_problem_if_not_sticky x).problem_has_been_acknowledged ≡ a.sticky
unfolding unacknowledge_problem_if_not_sticky
unacknowledge_if_not_sticky x a e p = rw e (ground arith)
