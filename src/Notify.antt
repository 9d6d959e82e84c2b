-- ===== src/Notify.antt =====
-- notify/manager.py: which alerts are sent, and to which channels.
pub mod Fanout
pub mod Tests
use cs_backup_helper.Base.{Bool, true, false, List, [], ◌∷◌, is_empty, if◌then◌else◌}
use cs_backup_helper.Base.Text.{Text, codes, elem}
use cs_backup_helper.Base.Result.{Result}
use cs_backup_helper.Manifest.{Status, success, warning, error}
use cs_backup_helper.Runner.Engine.{AlertEvent}

-- `NotifyConfig.level`
pub data Level : Type 0 where
  errors warnings all_runs : Level

-- `CHANNELS`, by name.
abbrev pub channel_names : List Text
channel_names =
    codes "email"
    ∷ codes "webhook"
    ∷ codes "teams"
    ∷ codes "slack"
    ∷ codes "discord"
    ∷ codes "ntfy"
    ∷ codes "healthchecks"
    ∷ []

abbrev pub is_known : Text → Bool
is_known name = elem name channel_names

unfoldable pub passes_level : Level → Status → Bool
passes_level errors error = true
passes_level errors _ = false
passes_level warnings success = false
passes_level warnings _ = true
passes_level all_runs status = true

-- `send` builds the channel of a name and sends; both may raise.
module _ {W : Type 0} (send : Text → AlertEvent → W → Result (Unit {0}) × W) where
  -- An unknown channel is skipped; a failing one is logged.
  unfoldable pub deliver_to : Text → AlertEvent → W → W
  deliver_to name event w = if is_known name then (send name event w).1 else w

  unfoldable pub deliver_all : List Text → AlertEvent → W → W
  unfolding deliver_to
  deliver_all [] event w = w
  deliver_all (name ∷ names) event w = deliver_all names event (deliver_to name event w)

  unfoldable pub notify : List Text → Level → AlertEvent → W → W
  unfolding deliver_all passes_level
  notify channels level event w =
      if is_empty channels
      then w
      else if passes_level level event.status
      then deliver_all channels event w
      else w
