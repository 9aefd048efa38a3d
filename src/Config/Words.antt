-- ===== src/Config/Words.antt =====
-- kernel/config.c: `skipwh`, `scan`, `toupper`, `strcaseequal` and `LookUp`.
use fdkernel.Common.{
  ℕ, suc, ◌-◌, Bool, true, false, ◌&&◌, ◌||◌, List, [], ◌∷◌, leb, ◌==◌, if◌then◌else◌,
}

abbrev pub iswh : ℕ → Bool
iswh c = c == 13 || c == 10 || c == 9 || c == 32

abbrev pub isnum : ℕ → Bool
isnum c = leb b'0' c && leb c b'9'

abbrev pub toupper : ℕ → ℕ
toupper c = if leb b'a' c && leb c b'z' then c - 32 else c

unfoldable pub skipwh : List ℕ → List ℕ
skipwh [] = []
skipwh (c ∷ s) = if iswh c then skipwh s else c ∷ s

-- Two strings that end at the same place and differ in nothing but case.
unfoldable pub strcaseequal : List ℕ → List ℕ → Bool
strcaseequal [] [] = true
strcaseequal [] (c ∷ s) = false
strcaseequal (c ∷ d) [] = false
strcaseequal (x ∷ d) (y ∷ s) = toupper x == toupper y && strcaseequal d s

-- The names of the table; the place behind the last one is the entry with no name.
unfoldable pub look_up : List (List ℕ) → List ℕ → ℕ
look_up [] token = 0
look_up (entry ∷ table) token =
    let rest = look_up table token in if strcaseequal entry token then 0 else suc rest

-- What `scan` leaves: the rest, the word, the menus that the line is for and the two flags.
pub record Scanned : Type 0 where
  pub rest : List ℕ
  pub word : List ℕ
  pub menu_line : List ℕ
  pub ask : Bool
  pub dont_ask : Bool

-- Digits, and what follows them.
unfoldable pub menu_digits : List ℕ → List ℕ × List ℕ
menu_digits [] = ([], [])
menu_digits (c ∷ s) =
    let (digits, rest) = menu_digits s in
    if isnum c then ((c - b'0') ∷ digits, rest) else ([], c ∷ s)

unfoldable pub scan_word : List ℕ → Scanned
scan_word [] = record { rest = []; word = []; menu_line = []; ask = false; dont_ask = false }
scan_word (c ∷ s) =
    let more = scan_word s in
    if iswh c || c == b'='
    then record { rest = c ∷ s; word = []; menu_line = []; ask = false; dont_ask = false }
    else (if c == b'?' then record more { ask = true } else record more { word = c ∷ more.word })

-- A semicolon is a word of its own.
unfoldable pub scan_semicolon : List ℕ → Scanned
scan_semicolon [] = scan_word []
scan_semicolon (c ∷ s) =
    if c == b';'
    then record { rest = s; word = c ∷ []; menu_line = []; ask = false; dont_ask = false }
    else scan_word (c ∷ s)

unfoldable pub scan_silent : List ℕ → Scanned
scan_silent [] = scan_word []
scan_silent (c ∷ s) =
    if c == b'!'
    then record (scan_semicolon (skipwh s)) { dont_ask = true }
    else scan_semicolon (c ∷ s)

-- The digits count only where a question mark follows them.
abbrev pub scan_menu : List ℕ × List ℕ → Scanned
scan_menu (digits, []) = scan_silent []
scan_menu (digits, c ∷ s) =
    if c == b'?'
    then record (scan_silent (skipwh s)) { menu_line = digits }
    else scan_silent (c ∷ s)

abbrev pub scan_line : List ℕ → Scanned
scan_line [] = scan_silent []
scan_line (c ∷ s) = if isnum c then scan_menu (menu_digits (c ∷ s)) else scan_silent (c ∷ s)

unfoldable pub scan : List ℕ → Scanned
scan s = scan_line (skipwh s)
