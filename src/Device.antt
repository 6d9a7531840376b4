-- ===== src/Device.antt =====
-- The pinned audio endpoint: client/sentinel-capture/src/device.rs, with `PinnedDevice` of
-- client/sentinel-core/src/config.rs.
use magick_sentinel.Prelude.{
  ◌≡◌, ◌⊎◌, inl, inr, refl, sym, ap, ◌∙◌, Bool, true, false, ◌&&◌, Option, none, some, List, [],
  ◌∷◌, find, Text, text_eq, arith, Bool-cases, Option-cases,
}
use mathlib.Core.List.{Memᴰ}

pub data Direction : Type 0 where
  capture render : Direction

abbrev pub same_direction : Direction → Direction → Bool
same_direction capture capture = true
same_direction render render = true
same_direction _ _ = false

pub record PinnedDevice : Type 0 where
  pub container_id : Text
  pub friendly_name : Option Text

pub record AudioDevice : Type 0 where
  pub id : Text
  pub container_id : Option Text
  pub friendly_name : Text
  pub direction : Direction
  pub is_default : Bool
  pub active : Bool

-- `o.as_deref() == Some(t)`.
abbrev pub is_some_text : Option Text → Text → Bool
is_some_text none t = false
is_some_text (some u) t = text_eq u t

unfoldable pub by_container : Direction → PinnedDevice → AudioDevice → Bool
by_container direction want d =
    same_direction d.direction direction
    && d.active
    && is_some_text d.container_id want.container_id

unfoldable pub by_name : Direction → Text → AudioDevice → Bool
by_name direction name d =
    same_direction d.direction direction && d.active && text_eq d.friendly_name name

-- The first loop of `resolve_pinned`.
unfoldable pub first_by_container :
    List PinnedDevice → List AudioDevice → Direction → Option AudioDevice
unfolding by_container
first_by_container [] available direction = none
first_by_container (want ∷ pinned) available direction =
    elim (find (by_container direction want) available) [
      | some dev ↦ some dev
      | none ↦ first_by_container pinned available direction
    ]

-- The second: a pin with no friendly name is skipped.
unfoldable pub first_by_name : List PinnedDevice → List AudioDevice → Direction → Option AudioDevice
unfolding by_name
first_by_name [] available direction = none
first_by_name (want ∷ pinned) available direction = elim want.friendly_name [
  | none ↦ first_by_name pinned available direction
  | some name ↦ elim (find (by_name direction name) available) [
    | some dev ↦ some dev
    | none ↦ first_by_name pinned available direction
  ]
]

unfoldable pub resolve_pinned :
    List PinnedDevice → List AudioDevice → Direction → Option AudioDevice
unfolding first_by_container first_by_name
resolve_pinned pinned available direction = elim (first_by_container pinned available direction) [
  | some dev ↦ some dev
  | none ↦ first_by_name pinned available direction
]

find_sound {ℓ} :
    {A : Type ℓ} (p : A → Bool) (xs : List A) (x : A)
    → find p xs ≡ some x
    → Memᴰ x xs × (p x ≡ true)
find_sound p [] x e = cc
find_sound p (y ∷ ys) x e = elim (Bool-cases (p y)) [
  | inl h ↦ let same : y ≡ x = ground arith in (Memᴰ.head (sym same), rw same at h)
  | inr h ↦ let (m, q) = find_sound p ys x (ground arith) in (Memᴰ.tail m, q)
]

find_complete {ℓ} :
    {A : Type ℓ} (p : A → Bool) (xs : List A) (x : A) → find p xs ≡ none → Memᴰ x xs → p x ≡ false
find_complete p [] x e m = elim m [ ]
find_complete p (y ∷ ys) x e (Memᴰ.head h) = rw h (ground arith)
find_complete p (y ∷ ys) x e (Memᴰ.tail m) = find_complete p ys x (ground arith) m

-- A pin that names the device by its container, and one that names it by its friendly name.
abbrev pub PinnedByContainer : List PinnedDevice → Direction → AudioDevice → Type 0
PinnedByContainer pinned direction d =
    (want : PinnedDevice) × Memᴰ want pinned × (by_container direction want d ≡ true)

abbrev pub PinnedByName : List PinnedDevice → Direction → AudioDevice → Type 0
PinnedByName pinned direction d =
    (want : PinnedDevice) × (name : Text) × Memᴰ want pinned
    × (want.friendly_name ≡ some name)
    × (by_name direction name d ≡ true)

container_sound :
    (pinned : List PinnedDevice) (available : List AudioDevice) (dir : Direction) (d : AudioDevice)
    → first_by_container pinned available dir ≡ some d
    → Memᴰ d available × PinnedByContainer pinned dir d
unfolding first_by_container
container_sound [] available dir d e = cc
container_sound (want ∷ pinned) available dir d e =
    elim (Option-cases (find (by_container dir want) available)) [
      | inl h ↦
          let (m, (w, n, p)) = container_sound pinned available dir d (ground arith) in
          (m, (w, Memᴰ.tail n, p))
      | inr (x, h) ↦
          let same : x ≡ d = ground arith in
          let (m, p) = find_sound (by_container dir want) available d (h ∙ ap some same) in
          (m, (want, Memᴰ.head refl, p))
    ]

container_complete :
    (pinned : List PinnedDevice) (available : List AudioDevice) (dir : Direction) (d : AudioDevice)
    → first_by_container pinned available dir ≡ none
    → Memᴰ d available
    → ¬ (PinnedByContainer pinned dir d)
unfolding first_by_container
container_complete [] available dir d e m (w, n, p) = elim n [ ]
container_complete (want ∷ pinned) available dir d e m (w, Memᴰ.head h, p) =
    elim (Option-cases (find (by_container dir want) available)) [
      | inl f ↦
          let q : by_container dir want d ≡ false =
            find_complete (by_container dir want) available d f m in
          let q' : by_container dir w d ≡ false = rw h q in cc
      | inr (x, f) ↦ cc
    ]
container_complete (want ∷ pinned) available dir d e m (w, Memᴰ.tail n, p) =
    elim (Option-cases (find (by_container dir want) available)) [
      | inl f ↦ container_complete pinned available dir d (ground arith) m (w, n, p)
      | inr (x, f) ↦ cc
    ]

name_sound :
    (pinned : List PinnedDevice) (available : List AudioDevice) (dir : Direction) (d : AudioDevice)
    → first_by_name pinned available dir ≡ some d
    → Memᴰ d available × PinnedByName pinned dir d
unfolding first_by_name
name_sound [] available dir d e = cc
name_sound (want ∷ pinned) available dir d e = elim (Option-cases want.friendly_name) [
  | inl skip ↦
      let (m, (w, name, n, q, p)) = name_sound pinned available dir d (ground arith) in
      (m, (w, name, Memᴰ.tail n, q, p))
  | inr (name, q) ↦ elim (Option-cases (find (by_name dir name) available)) [
    | inl h ↦
        let (m, (w, other, n, r, p)) = name_sound pinned available dir d (ground arith) in
        (m, (w, other, Memᴰ.tail n, r, p))
    | inr (x, h) ↦
        let same : x ≡ d = ground arith in
        let (m, p) = find_sound (by_name dir name) available d (h ∙ ap some same) in
        (m, (want, name, Memᴰ.head refl, q, p))
  ]
]

-- The endpoint that is resolved is present, and pinned: by its container, or by its friendly name
-- when no device present is pinned by its container. So an unpinned device, the system default
-- included, is never chosen.
pub resolve_pinned_sound :
    (pinned : List PinnedDevice) (available : List AudioDevice) (dir : Direction) (d : AudioDevice)
    → resolve_pinned pinned available dir ≡ some d
    → Memᴰ d available
      × (PinnedByContainer pinned dir d
          ⊎ (PinnedByName pinned dir d
              × ((x : AudioDevice) → Memᴰ x available → ¬ (PinnedByContainer pinned dir x))))
unfolding resolve_pinned
resolve_pinned_sound pinned available dir d e =
    elim (Option-cases (first_by_container pinned available dir)) [
      | inr (x, h) ↦
          let same : x ≡ d = ground arith in
          let (m, p) = container_sound pinned available dir d (h ∙ ap some same) in (m, inl p)
      | inl h ↦
          let (m, p) = name_sound pinned available dir d (ground arith) in
          (m, inr (p, λ x. container_complete pinned available dir x h))
    ]
