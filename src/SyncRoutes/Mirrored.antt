-- ===== src/SyncRoutes/Mirrored.antt =====
-- routing/SyncRoutes80211s.cpp: what a run leaves in the cache of unicast routes.
use fbmeshd.Prelude.{nat_eq}
use fbmeshd.Rnl.{prefix_eq}
use fbmeshd.Rnl.Socket.{Socket}
use fbmeshd.SyncRoutes.Run.{Sync}
use fbmeshd.SyncRoutes.Gated.{Gated}
use fbmeshd.SyncRoutes.Mirrors.{Mirrors}
