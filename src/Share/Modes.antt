-- ===== src/Share/Modes.antt =====
-- share/share.c: the tables `open_actions` and `open_exceptions`, and the choice between them in
-- `do_open_check`.
use fdkernel.Common.{
  ℕ, ◌≤◌, ◌<◌, ◌≡◌, refl, Bool, true, false, not, ◌&&◌, ◌||◌, List, [], ◌∷◌, arith, ◌==◌, leb,
  if◌then◌else◌, get_or, holds_below, holds_below_at, Option, some, none,
}

abbrev pub open_read_only : ℕ
open_read_only = 0

abbrev pub open_write_only : ℕ
open_write_only = 1

abbrev pub open_read_write : ℕ
open_read_write = 2

abbrev pub share_compat : ℕ
share_compat = 0

abbrev pub share_deny_all : ℕ
share_deny_all = 1

abbrev pub share_deny_write : ℕ
share_deny_write = 2

abbrev pub share_deny_read : ℕ
share_deny_read = 3

abbrev pub share_deny_none : ℕ
share_deny_none = 4

-- Rows by the share mode of the first open, columns by that of the current one.
unfoldable pub open_actions : List (List ℕ)
open_actions =
    (0 ∷ 1 ∷ 1 ∷ 1 ∷ 1 ∷ [])
    ∷ (2 ∷ 1 ∷ 1 ∷ 1 ∷ 1 ∷ [])
    ∷ (2 ∷ 1 ∷ 1 ∷ 1 ∷ 1 ∷ [])
    ∷ (2 ∷ 1 ∷ 1 ∷ 1 ∷ 1 ∷ [])
    ∷ (2 ∷ 1 ∷ 1 ∷ 1 ∷ 0 ∷ [])
    ∷ []

pub record OpenException : Type 0 where
  pub first_sharemode : ℕ
  pub first_openmode : ℕ
  pub current_sharemode : ℕ
  pub current_openmode : ℕ
  pub action : ℕ

abbrev exception : ℕ → ℕ → ℕ → ℕ → ℕ → OpenException
exception fs fo cs co a = record {
  first_sharemode = fs;
  first_openmode = fo;
  current_sharemode = cs;
  current_openmode = co;
  action = a;
}

unfoldable pub open_exceptions : List OpenException
open_exceptions =
    exception 0 0 2 0 3
    ∷ exception 0 0 4 0 3
    ∷ exception 2 0 0 0 4
    ∷ exception 2 0 2 0 0
    ∷ exception 2 0 4 0 0
    ∷ exception 3 0 2 1 0
    ∷ exception 3 0 4 1 0
    ∷ exception 3 1 4 1 0
    ∷ exception 3 2 4 1 0
    ∷ exception 4 0 0 0 4
    ∷ exception 4 0 0 1 0
    ∷ exception 4 0 0 2 0
    ∷ exception 4 0 2 0 0
    ∷ exception 4 0 2 1 0
    ∷ exception 4 0 2 2 0
    ∷ exception 4 1 3 0 0
    ∷ exception 4 1 3 1 0
    ∷ exception 4 1 3 2 0
    ∷ []

-- The loop over `open_exceptions`: the action of the first entry that fits.
unfoldable pub find_exception : List OpenException → ℕ → ℕ → ℕ → ℕ → Option ℕ
find_exception [] fs fo cs co = none
find_exception (e ∷ es) fs fo cs co =
    if (e.first_sharemode == fs)
      && (e.current_sharemode == cs)
      && (e.first_openmode == fo)
      && (e.current_openmode == co)
    then some e.action
    else find_exception es fs fo cs co

-- What the `switch` of `do_open_check` does with an action.
pub data Verdict : Type 0 where
  proceed denied violation : Verdict

unfoldable pub verdict : ℕ → Verdict
verdict action =
    if action == 1
    then Verdict.denied
    else if action == 2
    then Verdict.violation
    else Verdict.proceed

unfoldable pub open_action : ℕ → ℕ → ℕ → ℕ → ℕ
unfolding find_exception open_exceptions open_actions
open_action fs fo cs co = elim (find_exception open_exceptions fs fo cs co) [
  | some action ↦ action
  | none ↦ get_or (get_or open_actions fs []) cs 0
]

-- An independent description. A share mode denies an access by its name, and two opens are
-- compatible when neither asks for what the other denies.
abbrev pub reads : ℕ → Bool
reads openmode = (openmode == open_read_only) || (openmode == open_read_write)

abbrev pub writes : ℕ → Bool
writes openmode = (openmode == open_write_only) || (openmode == open_read_write)

abbrev pub denies : ℕ → ℕ → Bool
denies sharemode openmode =
    (sharemode == share_deny_all)
    || ((sharemode == share_deny_write) && writes openmode)
    || ((sharemode == share_deny_read) && reads openmode)

abbrev pub is_compatible : ℕ → ℕ → ℕ → ℕ → Bool
is_compatible fs fo cs co = not (denies fs co) && not (denies cs fo)

abbrev proceeds : Verdict → Bool
proceeds Verdict.proceed = true
proceeds Verdict.denied = false
proceeds Verdict.violation = false

abbrev implies : Bool → Bool → Bool
implies p q = not p || q

abbrev safe_code : ℕ → ℕ → ℕ → ℕ → Bool
safe_code fs fo cs co =
    implies (leb 1 fs && leb 1 cs && proceeds (verdict (open_action fs fo cs co)))
      (is_compatible fs fo cs co)

-- The check of all codes for the first open, and then for the current one.
abbrev safe_current : ℕ → ℕ → ℕ → Bool
safe_current fs fo cs = holds_below (safe_code fs fo cs) 3

abbrev safe_first : ℕ → ℕ → Bool
safe_first fs fo = holds_below (safe_current fs fo) 5

abbrev safe_share : ℕ → Bool
safe_share fs = holds_below (safe_first fs) 3

safe_table : holds_below safe_share 5 ≡ true
unfolding holds_below open_action verdict
safe_table = refl

safe_at : (fs fo cs co : ℕ) → fs < 5 → fo < 3 → cs < 5 → co < 3 → safe_code fs fo cs co ≡ true
safe_at fs fo cs co hfs hfo hcs hco =
    let share = holds_below_at safe_share 5 safe_table fs hfs in
    let first = holds_below_at (safe_first fs) 3 share fo hfo in
    let current = holds_below_at (safe_current fs fo) 5 first cs hcs in
    holds_below_at (safe_code fs fo cs) 3 current co hco

-- If the tables let a second open proceed and both opens name a share mode other than
-- compatibility mode, neither open asks for an access that the other one denies.
pub proceed-IsCompatible :
    (fs fo cs co : ℕ)
    → fs < 5
    → fo < 3
    → cs < 5
    → co < 3
    → 1 ≤ fs
    → 1 ≤ cs
    → verdict (open_action fs fo cs co) ≡ Verdict.proceed
    → is_compatible fs fo cs co ≡ true
proceed-IsCompatible fs fo cs co hfs hfo hcs hco f1 c1 h = ground (arith, safe_at fs fo cs co)
