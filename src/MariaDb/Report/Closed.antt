-- ===== src/MariaDb/Report/Closed.antt =====
-- An unknown line in the report of the second pass.
use cs_backup_helper.Base.Text.{Text}
use cs_backup_helper.Tools.{Tools}
