-- ===== src/Cdxa/Tests.antt =====
-- A stream of ten sectors whose data start at the byte 44.
use tcvp.Prelude.{◌≡◌, ◌≤◌, ◌<◌, ◌%◌, ◌-◌, refl, true, none}
use tcvp.Cdxa.Seek.{Cdxa, cdxa_seek, seek_to, target, cdxa_tell}
use tcvp.Cdxa.Places.{tell-seek}

abbrev start : Cdxa
start = record { data_start = 44; sector_pos = 0; raw = 44; size = 23240 }

abbrev later : Cdxa
later = record { data_start = 44; sector_pos = 676; raw = 3072; size = 23240 }

tell-seek_example :
    (cdxa_tell true later ≡ 3000) × (3000 ≤ 23240) × (676 < 2324) × ((3072 - 44) % 2352 ≡ 676)
unfolding cdxa_seek seek_to target
tell-seek_example = tell-seek (λ k. true) (λ k. none) 3000 start later refl

-- The stream's position was 3000.
abbrev astray : Cdxa
astray = record { data_start = 44; sector_pos = 748; raw = 3144; size = 23240 }
