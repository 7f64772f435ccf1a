-- ===== src/Worker/Process/Cleanup.antt =====
-- The credentials that a build puts into the cluster: `process_message` takes them away again.
use ship_zen_gcp.Prelude.{◌≡◌, Bool, true, ◌||◌, List, any}
use ship_zen_gcp.Worker.World.{Secret, World, ◌>>◌}
use ship_zen_gcp.Worker.Process.{same_secret}

abbrev pub has : List Secret → Secret → Bool
has ss s = any (same_secret s) ss

module _ (before : List Secret) where
  -- Every Secret was there before, or is one that this run will delete.
  abbrev Tracked : World → Type 0
  Tracked w = (s : Secret) → has w.secrets s ≡ true → (has before s || has w.held s) ≡ true

  -- Every Secret was there before.
  abbrev pub Clean : World → Type 0
  Clean w = (s : Secret) → has w.secrets s ≡ true → has before s ≡ true
