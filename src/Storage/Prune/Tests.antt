-- ===== src/Storage/Prune/Tests.antt =====
-- A small capture root pruned (server/internal/app/storage_policy.go).
use gp_sdr.Prelude.{Bool, false, List, [], ◌∷◌}
use gp_sdr.Prelude.Text.{Text, codes}
use gp_sdr.Storage.Prune.{CaptureFile}

abbrev nowhere : Text → Bool
nowhere path = false

abbrev root : List CaptureFile
root =
    (record { path = codes "/c/Retained/a.cs8"; size = 40; modified = 100; priority = 0 })
    ∷ (record { path = codes "/c/Quarantine/b.cs8"; size = 50; modified = 200; priority = 0 })
    ∷ (record { path = codes "/c/c.cs8.part"; size = 60; modified = 300; priority = 0 })
    ∷ (record { path = codes "/c/d.cs8"; size = 70; modified = 9900; priority = 0 })
    ∷ []
