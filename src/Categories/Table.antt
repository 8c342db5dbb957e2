-- ===== src/Categories/Table.antt =====
-- crates/oxidarr-cardigann/src/categories.rs, the constant `CATEGORIES`: the standard Newznab
-- categories, in the source's order.
use oxidarr.Common.{ℕ, String, Option, none, some, List, [], ◌∷◌}

pub record NewznabCategory : Type 0 where
  pub id : ℕ
  pub name : String
  pub parent : Option ℕ

-- One literal `NewznabCategory { id, name, parent }` of the table.
abbrev pub block : ℕ → String → NewznabCategory
block id name = record { id = id; name = name; parent = none }

abbrev pub sub : ℕ → String → ℕ → NewznabCategory
sub id name parent = record { id = id; name = name; parent = some parent }

abbrev pub categories : List NewznabCategory
categories =
    block 1000 "Console"
    ∷ sub 1010 "Console/NDS" 1000
    ∷ sub 1020 "Console/PSP" 1000
    ∷ sub 1030 "Console/Wii" 1000
    ∷ sub 1040 "Console/XBox" 1000
    ∷ sub 1050 "Console/XBox 360" 1000
    ∷ sub 1060 "Console/Wiiware" 1000
    ∷ sub 1070 "Console/XBox 360 DLC" 1000
    ∷ sub 1080 "Console/PS3" 1000
    ∷ sub 1090 "Console/Other" 1000
    ∷ sub 1110 "Console/3DS" 1000
    ∷ sub 1120 "Console/PS Vita" 1000
    ∷ sub 1130 "Console/WiiU" 1000
    ∷ sub 1140 "Console/XBox One" 1000
    ∷ sub 1180 "Console/PS4" 1000
    ∷ block 2000 "Movies"
    ∷ sub 2010 "Movies/Foreign" 2000
    ∷ sub 2020 "Movies/Other" 2000
    ∷ sub 2030 "Movies/SD" 2000
    ∷ sub 2040 "Movies/HD" 2000
    ∷ sub 2045 "Movies/UHD" 2000
    ∷ sub 2050 "Movies/BluRay" 2000
    ∷ sub 2060 "Movies/3D" 2000
    ∷ sub 2070 "Movies/DVD" 2000
    ∷ sub 2080 "Movies/WEB-DL" 2000
    ∷ block 3000 "Audio"
    ∷ sub 3010 "Audio/MP3" 3000
    ∷ sub 3020 "Audio/Video" 3000
    ∷ sub 3030 "Audio/Audiobook" 3000
    ∷ sub 3040 "Audio/Lossless" 3000
    ∷ sub 3050 "Audio/Other" 3000
    ∷ sub 3060 "Audio/Foreign" 3000
    ∷ block 4000 "PC"
    ∷ sub 4010 "PC/0day" 4000
    ∷ sub 4020 "PC/ISO" 4000
    ∷ sub 4030 "PC/Mac" 4000
    ∷ sub 4040 "PC/Mobile-Other" 4000
    ∷ sub 4050 "PC/Games" 4000
    ∷ sub 4060 "PC/Mobile-iOS" 4000
    ∷ sub 4070 "PC/Mobile-Android" 4000
    ∷ block 5000 "TV"
    ∷ sub 5010 "TV/WEB-DL" 5000
    ∷ sub 5020 "TV/Foreign" 5000
    ∷ sub 5030 "TV/SD" 5000
    ∷ sub 5040 "TV/HD" 5000
    ∷ sub 5045 "TV/UHD" 5000
    ∷ sub 5050 "TV/Other" 5000
    ∷ sub 5060 "TV/Sport" 5000
    ∷ sub 5070 "TV/Anime" 5000
    ∷ sub 5080 "TV/Documentary" 5000
    ∷ block 6000 "XXX"
    ∷ sub 6010 "XXX/DVD" 6000
    ∷ sub 6020 "XXX/WMV" 6000
    ∷ sub 6030 "XXX/XviD" 6000
    ∷ sub 6040 "XXX/x264" 6000
    ∷ sub 6045 "XXX/UHD" 6000
    ∷ sub 6050 "XXX/Pack" 6000
    ∷ sub 6060 "XXX/ImageSet" 6000
    ∷ sub 6070 "XXX/Other" 6000
    ∷ sub 6080 "XXX/SD" 6000
    ∷ sub 6090 "XXX/WEB-DL" 6000
    ∷ block 7000 "Books"
    ∷ sub 7010 "Books/Mags" 7000
    ∷ sub 7020 "Books/EBook" 7000
    ∷ sub 7030 "Books/Comics" 7000
    ∷ sub 7040 "Books/Technical" 7000
    ∷ sub 7050 "Books/Other" 7000
    ∷ sub 7060 "Books/Foreign" 7000
    ∷ block 8000 "Other"
    ∷ sub 8010 "Other/Misc" 8000
    ∷ sub 8020 "Other/Hashed" 8000
    ∷ []
