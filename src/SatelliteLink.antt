-- ===== src/SatelliteLink.antt =====
-- shinken/objects/satellitelink.py: what the arbiter knows of a satellite from its pings. The
-- connection, an answer of a satellite, is given by the caller.
pub mod Failures
mod Examples
use shinken_gpt.Prelude.{
  ℕ, ◌+◌, ◌-◌, Bool, true, false, not, ◌&&◌, Option, none, some, List, [], ◌∷◌, if◌then◌else◌, ltb,
  ◌==◌, min,
}

pub record SatelliteLink : Type 0 where
  pub max_check_attempts : ℕ
  pub check_interval : ℕ
  pub alive : Bool
  pub reachable : Bool
  pub attempt : ℕ
  -- `con` is not None
  pub has_con : Bool
  pub last_check : ℕ
  -- the number of broks
  pub broks : ℕ
  -- the configurations and their push flavors
  pub managed_confs : List (ℕ × ℕ)

-- self.broks.append(self.get_update_status_brok())
abbrev add_brok : SatelliteLink → SatelliteLink
add_brok s = record s { broks = s.broks + 1 }

unfoldable pub set_alive : SatelliteLink → SatelliteLink
set_alive s =
    let s' = record s { alive = true; attempt = 0; reachable = true } in
    if s.alive then s' else add_brok s'

unfoldable pub set_dead : SatelliteLink → SatelliteLink
set_dead s =
    let s' = record s { alive = false; has_con = false } in if s.alive then add_brok s' else s'

unfoldable pub add_failed_check_attempt : SatelliteLink → SatelliteLink
unfolding set_dead
add_failed_check_attempt s =
    let s' = record s { reachable = false; attempt = min (s.attempt + 1) s.max_check_attempts } in
    if s'.attempt == s.max_check_attempts then set_dead s' else s'

-- What a ping meets: whether a connection can be created, where there is none, and whether the
-- satellite then answers 'pong', answers something else, or an HTTPException is raised.
pub data Answer : Type 0 where
  pong other_text http_exception : Answer

pub record Network : Type 0 where
  pub connects : Bool
  pub answer : Answer

unfoldable pub ping : Network → SatelliteLink → SatelliteLink
unfolding set_alive add_failed_check_attempt
ping net s =
    let s' = if s.has_con then s else record s { has_con = net.connects } in
    if not s'.has_con then add_failed_check_attempt s' else elim net.answer [
      | pong ↦ set_alive s'
      | other_text ↦ add_failed_check_attempt s'
      | http_exception ↦ add_failed_check_attempt s'
    ]

-- What the satellite says that it manages, its keys turned to numbers.
pub data Managed : Type 0 where
  dict : List (ℕ × ℕ) → Managed
  no_dict managed_exception : Managed

unfoldable pub update_managed_list : Bool → Managed → SatelliteLink → SatelliteLink
update_managed_list connects managed s =
    let s' = if s.has_con then s else record s { has_con = connects } in
    if not s'.has_con then record s' { managed_confs = [] } else elim managed [
      | dict tab ↦ record s' { managed_confs = tab }
      | no_dict ↦ record s' { has_con = false; managed_confs = [] }
      | managed_exception ↦ record s' { has_con = false; managed_confs = [] }
    ]

unfoldable pub update_infos : ℕ → Network → Managed → SatelliteLink → SatelliteLink
unfolding ping update_managed_list
update_infos now net managed s =
    if ltb now (s.last_check + s.check_interval)
    then s
    else add_brok
        (update_managed_list net.connects managed (ping net (record s { last_check = now })))

-- managed_confs[cfg_id], of a dictionary
unfoldable pub lookup : ℕ → List (ℕ × ℕ) → Option ℕ
lookup k [] = none
lookup k ((j, v) ∷ rest) = let found = lookup k rest in if j == k then some v else found

unfoldable pub insert : ℕ → ℕ → List (ℕ × ℕ) → List (ℕ × ℕ)
insert k v [] = (k, v) ∷ []
insert k v ((j, u) ∷ rest) =
    let rest' = insert k v rest in if j == k then (k, v) ∷ rest else (j, u) ∷ rest'

unfoldable pub known_conf_managed_push : ℕ → ℕ → SatelliteLink → SatelliteLink
unfolding insert
known_conf_managed_push cfg_id push_flavor s = record s {
  managed_confs = insert cfg_id push_flavor s.managed_confs;
}

-- the number is that of the configuration, and the flavor that of its last push
unfoldable pub do_i_manage : SatelliteLink → ℕ → ℕ → Bool
unfolding lookup
do_i_manage s cfg_id push_flavor = elim (lookup cfg_id s.managed_confs) [
  | none ↦ false
  | some v ↦ v == push_flavor
]
