-- ===== src/CrashDump.antt =====
-- Which crash dumps are uploaded: `triage` of client/sentinel-service/src/crashdump.rs.
-- A time is a number of nanoseconds; a path is a text. `scan` reads the directory and is left out.
pub mod Triage
use magick_sentinel.Prelude.{
  ℕ, zero, suc, ◌+◌, ◌*◌, ◌-◌, ◌≤◌, ◌<◌, ◌≡◌, refl, ◌∙◌, Bool, true, false, not, ◌||◌, List, [],
  ◌∷◌, if◌then◌else◌, ltb, leb, Text, All, length, arith, Bool-cases, inl, inr, ◌⊎◌,
}

abbrev pub max_dump_age : ℕ
max_dump_age = 2_592_000_000_000_000

abbrev pub max_dumps : ℕ
max_dumps = 20

pub record Dump : Type 0 where
  pub path : Text
  pub modified : ℕ
  pub bytes : ℕ

-- The stable sort by `Reverse(modified)`.
unfoldable pub insert_dump : Dump → List Dump → List Dump
insert_dump d [] = d ∷ []
insert_dump d (e ∷ es) =
    let later = insert_dump d es in if ltb d.modified e.modified then e ∷ later else d ∷ e ∷ es

unfoldable pub newest_first : List Dump → List Dump
unfolding insert_dump
newest_first [] = []
newest_first (d ∷ ds) = insert_dump d (newest_first ds)

-- A time that lies ahead gives no age.
abbrev pub is_too_old : ℕ → Dump → Bool
is_too_old now d = ltb max_dump_age (now - d.modified)

-- The loop, with the number of dumps to ship so far.
unfoldable pub pick : ℕ → ℕ → List Dump → List Dump × List Dump
pick now n [] = ([], [])
pick now n (d ∷ ds) =
    let passed = pick now n ds in
    let taken = pick now (n + 1) ds in
    if is_too_old now d || leb max_dumps n then (passed.0, d ∷ passed.1) else (d ∷ taken.0, taken.1)

unfoldable pub triage : List Dump → ℕ → List Dump × List Dump
unfolding newest_first pick
triage dumps now = pick now 0 (newest_first dumps)
