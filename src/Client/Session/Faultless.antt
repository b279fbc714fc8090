-- ===== src/Client/Session/Faultless.antt =====
-- The calls of client/psd_ims_client.c that are safe to make, in every state that the client can come to.
use psd_ims.Prelude.{◌∷◌}
use psd_ims.Client.Session.{◌∷◌}
use psd_ims.Client.Session.Holds.{Holds}
use psd_ims.Client.Session.Acts
use psd_ims.Client.Session.Acts.{first, keeping}
