-- ===== src/ConfigSync/Cache.antt =====
-- The cache over the life of a service: what it holds in memory and what it would read again.
use magick_sentinel.Prelude.{
  ◌≡◌, refl, sym, ◌∙◌, ap, Bool, true, false, Option, none, some, List, [], ◌∷◌, Bool-cases, inl,
  inr,
}
use magick_sentinel.ConfigSync.{
  Format, Files, ConfigStore, Outside, open_store, persist_local, persist_policy, refresh,
  is_policy, read_as,
}

-- What is written can be read.
abbrev pub IsReadable {ℓ} : {A : Type ℓ} → Format A → Type ℓ
IsReadable {A = A} format = (x : A) → format.parse (format.print x) ≡ some x

module _ {L P : Type 0} (o : Outside L P) where
  -- The refreshes of a service, each with whether writing succeeds and what the server answers.
  unfoldable pub refreshes :
      List (Bool × Option P) → ConfigStore L P × Files → ConfigStore L P × Files
  unfolding refresh
  refreshes [] s = s
  refreshes ((writes, answer) ∷ more) (c, files) =
      let (c', files', result) = refresh o writes answer c files in refreshes more (c', files')

  -- A service that starts: `ServiceState::new`, which goes on when the write fails.
  unfoldable pub start : Bool → Option L → Files → ConfigStore L P × Files
  unfolding open_store persist_local
  start writes installed files =
      let c = open_store o installed files in (c, (persist_local o writes c files).0)

  -- The last policy that was both fetched and written.
  abbrev pub last_kept : List (Bool × Option P) → Option P → Option P
  last_kept [] kept = kept
  last_kept ((true, some p) ∷ more) kept = last_kept more (some p)
  last_kept ((true, none) ∷ more) kept = last_kept more kept
  last_kept ((false, answer) ∷ more) kept = last_kept more kept

  IsReread : Option L → ConfigStore L P × Files → Type 0
  unfolding open_store
  IsReread installed (c, files) = open_store o installed files ≡ c

  start-IsReread :
      (writes : Bool) (installed : Option L) (files : Files)
      → IsReadable o.local_format
      → IsReread installed (start writes installed files)
  unfolding IsReread start open_store persist_local
  start-IsReread true installed files readable = rw readable refl
  start-IsReread false installed files readable = refl

  refresh-IsReread :
      (writes : Bool) (answer : Option P) (installed : Option L) (c : ConfigStore L P)
      (files : Files)
      → IsReadable o.policy_format
      → IsReread installed (c, files)
      → let (c', files', result) = refresh o writes answer c files in
        IsReread installed (c', files')
  unfolding IsReread refresh open_store persist_policy
  refresh-IsReread writes none installed c files readable h = h
  refresh-IsReread true (some p) installed c files readable h =
      let same : (open_store o installed files).local ≡ c.local = ap (λ x. x.local) h in
      elim (Bool-cases (is_policy o c.policy p)) [
        | inl e ↦ rw e h
        | inr e ↦ rw (e, readable p, same) refl
      ]
  refresh-IsReread false (some p) installed c files readable h =
      elim (Bool-cases (is_policy o c.policy p)) [ inl e ↦ rw e h | inr e ↦ rw e h ]

  is_policy_sound :
      (kept : Option P) (p : P)
      → ((p q : P) → o.eq p q ≡ true → p ≡ q)
      → is_policy o kept p ≡ true
      → kept ≡ some p
  is_policy_sound none p sound e = cc e
  is_policy_sound (some q) p sound e = ap some (sound q p e)

  refresh-last_kept :
      (writes : Bool) (answer : Option P) (c : ConfigStore L P) (files : Files)
      → ((p q : P) → o.eq p q ≡ true → p ≡ q)
      → let (c', files', result) = refresh o writes answer c files in
        (c'.policy ≡ last_kept ((writes, answer) ∷ []) c.policy) × (c'.local ≡ c.local)
  unfolding refresh persist_policy
  refresh-last_kept true none c files sound = (refl, refl)
  refresh-last_kept false none c files sound = (refl, refl)
  refresh-last_kept true (some p) c files sound = elim (Bool-cases (is_policy o c.policy p)) [
    | inl e ↦ rw e (is_policy_sound c.policy p sound e, refl)
    | inr e ↦ rw e (refl, refl)
  ]
  refresh-last_kept false (some p) c files sound = elim (Bool-cases (is_policy o c.policy p)) [
    | inl e ↦ rw e (refl, refl)
    | inr e ↦ rw e (refl, refl)
  ]

  last_kept_next :
      (op : Bool × Option P) (ops : List (Bool × Option P)) (kept : Option P)
      → last_kept (op ∷ ops) kept ≡ last_kept ops (last_kept (op ∷ []) kept)
  last_kept_next (true, some p) ops kept = refl
  last_kept_next (true, none) ops kept = refl
  last_kept_next (false, answer) ops kept = refl

  refreshes-IsReread :
      (ops : List (Bool × Option P)) (installed : Option L) (c : ConfigStore L P) (files : Files)
      → IsReadable o.policy_format
      → ((p q : P) → o.eq p q ≡ true → p ≡ q)
      → IsReread installed (c, files)
      → let s = refreshes ops (c, files) in
        IsReread installed s × (s.0.policy ≡ last_kept ops c.policy) × (s.0.local ≡ c.local)
  unfolding refreshes
  refreshes-IsReread [] installed c files readable sound h = (h, refl, refl)
  refreshes-IsReread ((writes, answer) ∷ ops) installed c files readable sound h =
      let (c', files', result) = refresh o writes answer c files in
      let (again, kept, same) =
        refreshes-IsReread ops installed c' files' readable sound
          (refresh-IsReread writes answer installed c files readable h) in
      let (k, l) = refresh-last_kept writes answer c files sound in
      (
        again,
        kept ∙ ap (last_kept ops) k ∙ sym (last_kept_next (writes, answer) ops c.policy),
        same ∙ l,
      )

  -- When what is written can be read and policies that are tested as equal are equal: after any
  -- refreshes of a started service, whatever the server answers and whichever writes fail, a restart
  -- reads the very store that the service holds, its policy is the last one that was both fetched
  -- and written, or else the one that was on disk, and its local configuration is that of the start.
  pub refreshes-start :
      (writes : Bool) (installed : Option L) (files : Files) (ops : List (Bool × Option P))
      → IsReadable o.local_format
      → IsReadable o.policy_format
      → ((p q : P) → o.eq p q ≡ true → p ≡ q)
      → let (c, files') = refreshes ops (start writes installed files) in
        (open_store o installed files' ≡ c)
        × (c.policy ≡ last_kept ops (read_as o.policy_format files.policy))
        × (c.local ≡ (open_store o installed files).local)
  unfolding IsReread start open_store
  refreshes-start writes installed files ops local_readable readable sound =
      let (c, files') = start writes installed files in
      refreshes-IsReread ops installed c files' readable sound
        (start-IsReread writes installed files local_readable)
