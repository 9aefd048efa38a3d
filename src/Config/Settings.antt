-- ===== src/Config/Settings.antt =====
-- kernel/config.c: `Files`, `FilesHigh`, `Fcbs`, `CfgLastdrive` and `CfgLastdriveHigh`.
use fdkernel.Common.{
  ℕ, ◌-◌, ◌%◌, ◌^◌, ◌||◌, List, [], ◌∷◌, ltb, leb, ◌==◌, if◌then◌else◌, Option, none, some,
}
use fdkernel.Config.Words.{toupper, skipwh}
use fdkernel.Config.Numbers.{get_num_arg}

-- Fields of a byte each.
pub record Config : Type 0 where
  pub cfg_files : ℕ
  pub cfg_files_high : ℕ
  pub cfg_fcbs : ℕ
  pub cfg_prot_fcbs : ℕ
  pub cfg_lastdrive : ℕ
  pub cfg_lastdrive_high : ℕ

-- The greater of a byte and an `int`.
abbrev pub greater : ℕ → ℕ → ℕ
greater byte n = if leb (2 ^ 15) n then byte else (if ltb byte n then n else byte)

abbrev pub set_files : Config → Option (ℕ × List ℕ) → Config
set_files c none = c
set_files c (some (n, rest)) = record c {
  cfg_files = greater c.cfg_files n % 2 ^ 8;
  cfg_files_high = 0;
}

unfoldable pub files : List ℕ → Config → Config
files line c = set_files c (get_num_arg line)

unfoldable pub files_high : List ℕ → Config → Config
files_high line c = record (files line c) { cfg_files_high = 1 }

-- The number behind the comma; a bad one leaves the number that was read before it.
abbrev pub second_number : ℕ → Option (ℕ × List ℕ) → ℕ
second_number n none = n
second_number n (some (m, rest)) = m

abbrev pub set_protected : ℕ → List ℕ → Config → Config
set_protected n [] c = c
set_protected n (x ∷ s) c =
    if x == b',' then record c { cfg_prot_fcbs = second_number n (get_num_arg s) % 2 ^ 8 } else c

abbrev pub limit_protected : Config → Config
limit_protected c =
    if ltb c.cfg_fcbs c.cfg_prot_fcbs then record c { cfg_prot_fcbs = c.cfg_fcbs } else c

abbrev pub set_fcbs : Config → Option (ℕ × List ℕ) → Config
set_fcbs c none = c
set_fcbs c (some (n, rest)) =
    limit_protected (set_protected n (skipwh rest) (record c { cfg_fcbs = n % 2 ^ 8 }))

unfoldable pub fcbs : List ℕ → Config → Config
fcbs line c = set_fcbs c (get_num_arg line)

-- The drive is that of a letter, and none is taken back.
abbrev pub set_lastdrive : List ℕ → Config → Config
set_lastdrive [] c = c
set_lastdrive (x ∷ s) c =
    let drv = toupper x in
    if ltb drv b'A' || ltb b'Z' drv then c else record c {
      cfg_lastdrive = if ltb c.cfg_lastdrive (drv - 64) then drv - 64 else c.cfg_lastdrive;
      cfg_lastdrive_high = 0;
    }

unfoldable pub cfg_lastdrive : List ℕ → Config → Config
cfg_lastdrive line c = set_lastdrive (skipwh line) c

unfoldable pub cfg_lastdrive_high : List ℕ → Config → Config
cfg_lastdrive_high line c = record (cfg_lastdrive line c) { cfg_lastdrive_high = 1 }
