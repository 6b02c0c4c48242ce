-- ===== src/Ruleset/Enums.antt =====
-- src/apexpulse/schemas/enums.py: the closed vocabularies. The string values are only needed where
-- an event is written as JSON.
use apex_pulse.Prelude.{Bool, true, false, ◌≡◌, arith}

pub data Team : Type 0 where
  ct t : Team

abbrev pub opponent : Team → Team
opponent Team.ct = Team.t
opponent Team.t = Team.ct

-- `a is b`
abbrev pub same_team : Team → Team → Bool
same_team Team.ct Team.ct = true
same_team Team.ct Team.t = false
same_team Team.t Team.ct = false
same_team Team.t Team.t = true

pub data RoundPhase : Type 0 where
  freezetime live bomb_planted over : RoundPhase

pub data RoundEndReason : Type 0 where
  ct_eliminated t_eliminated bomb_defused bomb_exploded time_expired : RoundEndReason

pub data EventType : Type 0 where
  match_start round_start tick kill bomb_planted bomb_defused round_end match_end : EventType

pub data MapName : Type 0 where
  dust2 mirage inferno nuke overpass ancient anubis : MapName

pub data Weapon : Type 0 where
  knife glock usp p250 deagle mac10 mp9 ump45 galil famas ak47 m4a4 m4a1s awp sg553 aug : Weapon

pub same_team_sound : (a b : Team) → same_team a b ≡ true → a ≡ b
same_team_sound a b h = ground arith
