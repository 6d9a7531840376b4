-- ===== src/CrashDump/Triage.antt =====
-- What `triage` of client/sentinel-service/src/crashdump.rs ships and what it drops.
use magick_sentinel.Prelude.{
  ℕ, ◌+◌, ◌≤◌, ◌≡◌, refl, ◌∙◌, Bool, true, false, ◌||◌, List, [], ◌∷◌, if◌then◌else◌, ltb, leb, All,
  length, arith, Bool-cases, inl, inr, ◌⊎◌,
}
use magick_sentinel.CrashDump.{Dump, max_dumps, insert_dump, newest_first, is_too_old, pick, triage}

-- How many dumps pass a test.
abbrev pub number : (Dump → Bool) → List Dump → ℕ
number test [] = 0
number test (d ∷ ds) = let rest = number test ds in if test d then rest + 1 else rest

number-insert_dump :
    (test : Dump → Bool) (d : Dump) (ds : List Dump)
    → number test (insert_dump d ds) ≡ number test (d ∷ ds)
unfolding insert_dump
number-insert_dump test d [] = refl
number-insert_dump test d (e ∷ es) = ground (arith, number-insert_dump test d es)

number-newest_first :
    (test : Dump → Bool) (ds : List Dump) → number test (newest_first ds) ≡ number test ds
unfolding newest_first
number-newest_first test [] = refl
number-newest_first test (d ∷ ds) =
    let first = number-insert_dump test d (newest_first ds) in
    ground (arith, first, number-newest_first test ds)

number-pick :
    (test : Dump → Bool) (now n : ℕ) (ds : List Dump)
    → let (ship, drop) = pick now n ds in number test ship + number test drop ≡ number test ds
unfolding pick
number-pick test now n [] = omega arith
number-pick test now n (d ∷ ds) =
    ground (arith, number-pick test now n ds, number-pick test now (n + 1) ds)

-- Newest first.
abbrev pub IsFalling : List Dump → Type 0
IsFalling [] = Unit
IsFalling (d ∷ ds) = All (λ e. e.modified ≤ d.modified) ds × IsFalling ds

module _ (P : Dump → Type 0) where
  insert_dump-All : (d : Dump) (ds : List Dump) → P d → All P ds → All P (insert_dump d ds)
  unfolding insert_dump
  insert_dump-All d [] h k = (h, k)
  insert_dump-All d (e ∷ es) h (he, k) = elim (Bool-cases (ltb d.modified e.modified)) [
    | inl lt ↦ rw lt (he, insert_dump-All d es h k)
    | inr ge ↦ rw ge (h, (he, k))
  ]

  pick-All :
      (now n : ℕ) (ds : List Dump) → All P ds → All P (pick now n ds).0 × All P (pick now n ds).1
  unfolding pick
  pick-All now n [] h = (h, h)
  pick-All now n (d ∷ ds) (hd, h) = elim (Bool-cases (is_too_old now d || leb max_dumps n)) [
    | inl e ↦ let (ship, drop) = pick-All now n ds h in rw e (ship, (hd, drop))
    | inr e ↦ let (ship, drop) = pick-All now (n + 1) ds h in rw e ((hd, ship), drop)
  ]

All-weaken :
    (a b : ℕ) (ds : List Dump) → a ≤ b → All (λ e. e.modified ≤ a) ds → All (λ e. e.modified ≤ b) ds
All-weaken a b [] h k = k
All-weaken a b (d ∷ ds) h (kd, k) = (omega arith, All-weaken a b ds h k)

insert_dump-IsFalling : (d : Dump) (ds : List Dump) → IsFalling ds → IsFalling (insert_dump d ds)
unfolding insert_dump
insert_dump-IsFalling d [] h = (_, h)
insert_dump-IsFalling d (e ∷ es) (first, h) = elim (Bool-cases (ltb d.modified e.modified)) [
  | inl lt ↦ rw lt (
    insert_dump-All (λ x. x.modified ≤ e.modified) d es (ground (arith, lt)) first,
    insert_dump-IsFalling d es h,
  )
  | inr ge ↦
      let over : e.modified ≤ d.modified = ground (arith, ge) in
      rw ge ((over, All-weaken e.modified d.modified es over first), (first, h))
]

newest_first-IsFalling : (ds : List Dump) → IsFalling (newest_first ds)
unfolding newest_first
newest_first-IsFalling [] = _
newest_first-IsFalling (d ∷ ds) =
    insert_dump-IsFalling d (newest_first ds) (newest_first-IsFalling ds)

-- What is shipped in the loop is fresh and fits, in the order given.
length-pick :
    (now n : ℕ) (ds : List Dump) → n ≤ max_dumps → length (pick now n ds).0 + n ≤ max_dumps
unfolding pick
length-pick now n [] h = omega (arith, h)
length-pick now n (d ∷ ds) h = ground (arith, h, length-pick now n ds, length-pick now (n + 1) ds)

pick_fresh : (now n : ℕ) (ds : List Dump) → All (λ d. is_too_old now d ≡ false) (pick now n ds).0
unfolding pick
pick_fresh now n [] = _
pick_fresh now n (d ∷ ds) = elim (Bool-cases (is_too_old now d || leb max_dumps n)) [
  | inl e ↦ rw e (pick_fresh now n ds)
  | inr e ↦ rw e (ground (arith, e), pick_fresh now (n + 1) ds)
]

pick-IsFalling : (now n : ℕ) (ds : List Dump) → IsFalling ds → IsFalling (pick now n ds).0
unfolding pick
pick-IsFalling now n [] h = h
pick-IsFalling now n (d ∷ ds) (first, h) = elim (Bool-cases (is_too_old now d || leb max_dumps n)) [
  | inl e ↦ rw e (pick-IsFalling now n ds h)
  | inr e ↦ rw e (
    (pick-All (λ x. x.modified ≤ d.modified) now (n + 1) ds first).0,
    pick-IsFalling now (n + 1) ds h,
  )
]

full_none : (now n : ℕ) (ds : List Dump) → leb max_dumps n ≡ true → (pick now n ds).0 ≡ []
unfolding pick
full_none now n [] h = refl
full_none now n (d ∷ ds) h = ground (arith, h, full_none now n ds h)

-- Why a dump is passed over, with `n` shipped before these: it is too old, or as many are shipped
-- as may be and each of these is at least as new.
abbrev pub IsPassed : ℕ → ℕ → List Dump → Dump → Type 0
IsPassed now n ship d =
    (is_too_old now d ≡ true)
    ⊎ ((length ship + n ≡ max_dumps) × All (λ s. d.modified ≤ s.modified) ship)

longer-IsPassed :
    (now n : ℕ) (d : Dump) (ship drop : List Dump)
    → All (IsPassed now (n + 1) ship) drop
    → All (λ x. x.modified ≤ d.modified) drop
    → All (IsPassed now n (d ∷ ship)) drop
longer-IsPassed now n d ship [] h k = h
longer-IsPassed now n d ship (x ∷ xs) (inl old, h) (kx, k) =
    (inl old, longer-IsPassed now n d ship xs h k)
longer-IsPassed now n d ship (x ∷ xs) (inr (full, newer), h) (kx, k) =
    (inr (omega arith, (kx, newer)), longer-IsPassed now n d ship xs h k)

head-IsPassed :
    (now n : ℕ) (d : Dump) (ds : List Dump)
    → n ≤ max_dumps
    → (is_too_old now d || leb max_dumps n) ≡ true
    → IsPassed now n (pick now n ds).0 d
head-IsPassed now n d ds h e = elim (Bool-cases (is_too_old now d)) [
  | inl old ↦ inl old
  | inr fresh ↦
      let full : leb max_dumps n ≡ true = ground (arith, e, fresh) in
      inr (rw (full_none now n ds full) (ground (arith, h, full), _))
]

pick-IsPassed :
    (now n : ℕ) (ds : List Dump)
    → n ≤ max_dumps
    → IsFalling ds
    → All (IsPassed now n (pick now n ds).0) (pick now n ds).1
unfolding pick
pick-IsPassed now n [] h k = _
pick-IsPassed now n (d ∷ ds) h (first, k) =
    elim (Bool-cases (is_too_old now d || leb max_dumps n)) [
      | inl e ↦ rw e (head-IsPassed now n d ds h e, pick-IsPassed now n ds h k)
      | inr e ↦
          let taken = pick now (n + 1) ds in
          let older = (pick-All (λ x. x.modified ≤ d.modified) now (n + 1) ds first).1 in
          let room : n + 1 ≤ max_dumps = ground (arith, h, e) in
          rw e (longer-IsPassed now n d taken.0 taken.1 (pick-IsPassed now (n + 1) ds room k) older)
    ]

-- Every dump is either shipped or dropped, as often as it was found; at most 20 are shipped, none
-- of them too old, the newest first; and a dump is dropped only if it is too old or 20 that are at
-- least as new are shipped.
pub triage_lem :
    (dumps : List Dump) (now : ℕ) (test : Dump → Bool)
    → let (ship, drop) = triage dumps now in
      (number test ship + number test drop ≡ number test dumps)
      × (length ship ≤ max_dumps)
      × All (λ d. is_too_old now d ≡ false) ship
      × IsFalling ship
      × All (IsPassed now 0 ship) drop
unfolding triage
triage_lem dumps now test =
    let sorted = newest_first dumps in
    let falling = newest_first-IsFalling dumps in
    (
      number-pick test now 0 sorted ∙ number-newest_first test dumps,
      omega (arith, length-pick now 0 sorted (omega arith)),
      pick_fresh now 0 sorted,
      pick-IsFalling now 0 sorted falling,
      pick-IsPassed now 0 sorted (omega arith) falling,
    )
