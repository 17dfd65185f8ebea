-- ===== src/Controller/Create/Safety.antt =====
-- What CreateVolume asks for, and what it never does.
use csi_plugin.Driver.{Driver}
use csi_plugin.Driver.Since.{Since}
