-- ===== src/ChannelOrder/Patches.antt =====
-- The patches and the local update agree.
use rivendell.Base.{
  ℕ, suc, ◌≡◌, refl, sym, ap, ap₂, ◌∙◌, inl, inr, Bool, true, false, ◌||◌, some, List, [], ◌∷◌, map,
  arith, ◌==◌, if◌then◌else◌, ==_refl, Bool-cases, Option-cases, All, contains, some_inj,
  true_ne_false, none_ne,
}
use rivendell.IdMap
use rivendell.IdMap.{IdMap}
use rivendell.Model.{Channel}
use rivendell.ChannelOrder.{
  patches_from, position_from, at_position, channel_reorder_patches, add_patch,
}

-- The channel after the server has set the positions, one after the other.
abbrev pub patch : ℕ × ℕ → Channel → Channel
patch p c = if p.0 == c.id then record c { position = p.1 } else c

unfoldable pub patched : List (ℕ × ℕ) → Channel → Channel
patched [] c = c
patched (p ∷ ps) c = patched ps (patch p c)

abbrev pub AreDistinct : List ℕ → Type 0
AreDistinct [] = Unit
AreDistinct (i ∷ is) = (contains is i ≡ false) × AreDistinct is

-- Where the patches of more channels come from.
patches_from_cases :
    (n i : ℕ) (is : List ℕ) (channels : IdMap Channel) (ps : List (ℕ × ℕ))
    → patches_from n (i ∷ is) channels ≡ some ps
    → (d : Channel) × (rest : List (ℕ × ℕ)) × (IdMap.get i channels ≡ some d)
      × (patches_from (suc n) is channels ≡ some rest)
      × (add_patch i n d rest ≡ ps)
unfolding patches_from
patches_from_cases n i is channels ps h = elim (Option-cases (IdMap.get i channels)) [
  | inl e ↦ absurd (none_ne ps (rw (patches_from, e) at h))
  | inr e ↦ elim (Option-cases (patches_from (suc n) is channels)) [
    | inl f ↦ absurd (none_ne ps (rw (patches_from, e.1, f) at h))
    | inr f ↦ (e.0, f.0, e.1, f.1, some_inj _ ps (rw (patches_from, e.1, f.1) at h))
  ]
]

either_false : (a b : Bool) → a || b ≡ false → (a ≡ false) × (b ≡ false)
either_false false false h = (refl, refl)
either_false false true h = absurd (true_ne_false h)
either_false true b h = absurd (true_ne_false h)

-- The patch of another channel.
patched-add_patch :
    (i n : ℕ) (d c : Channel) (ps : List (ℕ × ℕ))
    → i == c.id ≡ false
    → patched (add_patch i n d ps) c ≡ patched ps c
unfolding patched
patched-add_patch i n d c ps h = elim (Bool-cases (d.position == n)) [
  | inl e ↦ rw (e)
  | inr e ↦ let same : patch (i, n) c ≡ c = rw (h) in rw (e) (ap (patched ps) same)
]

-- The patch of the channel itself, if it needs one.
patched_own :
    (n : ℕ) (c : Channel) (ps : List (ℕ × ℕ))
    → patched (add_patch c.id n c ps) c ≡ patched ps (record c { position = n })
unfolding patched
patched_own n c ps = elim (Bool-cases (c.position == n)) [
  | inl e ↦
      let is : c.position ≡ n = ground (arith, e) in
      let kept : add_patch c.id n c ps ≡ ps = rw (e) in
      let same : Path Channel c (record c { position = n }) =
        ap (λ m. record c { position = m }) is in
      ap (λ ps. patched ps c) kept ∙ ap (patched ps) same
  | inr e ↦
      let made : add_patch c.id n c ps ≡ (c.id, n) ∷ ps = rw (e) in
      let same : patch (c.id, n) c ≡ record c { position = n } = rw (==_refl c.id) in
      ap (λ ps. patched ps c) made ∙ ap (patched ps) same
]

-- A channel whose id is not among them is patched by none.
patched_untouched :
    (is : List ℕ) (n : ℕ) (channels : IdMap Channel) (ps : List (ℕ × ℕ)) (c : Channel)
    → patches_from n is channels ≡ some ps
    → contains is c.id ≡ false
    → patched ps c ≡ c
unfolding patches_from patched
patched_untouched [] n channels ps c h k = ap (λ ps. patched ps c) (sym (some_inj [] ps h))
patched_untouched (i ∷ is) n channels ps c h k =
    let r = patches_from_cases n i is channels ps h in
    let f = either_false (i == c.id) (contains is c.id) k in
    ap (λ ps. patched ps c) (sym r.4)
    ∙ (patched-add_patch i n r.0 c r.1 f.0 ∙ patched_untouched is (suc n) channels r.1 c r.3 f.1)

-- What the patches make of a channel that stands under its id.
patched-patches_from :
    (is : List ℕ) (n : ℕ) (channels : IdMap Channel) (ps : List (ℕ × ℕ)) (c : Channel)
    → patches_from n is channels ≡ some ps
    → AreDistinct is
    → IdMap.get c.id channels ≡ some c
    → patched ps c ≡ at_position (position_from n is c.id) c
unfolding patches_from patched
patched-patches_from [] n channels ps c h d g = ap (λ ps. patched ps c) (sym (some_inj [] ps h))
patched-patches_from (i ∷ is) n channels ps c h d g =
    let r = patches_from_cases n i is channels ps h in
    elim (Bool-cases (i == c.id)) [
      | inr e ↦
          let on : position_from n (i ∷ is) c.id ≡ position_from (suc n) is c.id = rw (e) in
          ap (λ ps. patched ps c) (sym r.4)
          ∙ (patched-add_patch i n r.0 c r.1 e
              ∙ (patched-patches_from is (suc n) channels r.1 c r.3 d.1 g
                  ∙ ap (λ o. at_position o c) (sym on)))
      | inl e ↦
          let is_own : i ≡ c.id = ground (arith, e) in
          let here : position_from n (i ∷ is) c.id ≡ some n = rw (e) in
          let same : r.0 ≡ c =
            some_inj r.0 c (sym r.2 ∙ (ap (λ k. IdMap.get k channels) is_own ∙ g)) in
          let moved : Channel = record c { position = n } in
          ap (λ ps. patched ps c) (sym r.4 ∙ ap₂ (λ k d. add_patch k n d r.1) is_own same)
          ∙ (patched_own n c r.1
              ∙ (patched_untouched is (suc n) channels r.1 moved r.3
                    (ap (contains is) (sym is_own) ∙ d.0)
                  ∙ ap (λ o. at_position o c) (sym here)))
    ]

-- The channels of a map each stand under their own id.
abbrev pub AreKeyed : IdMap Channel → Type 0
AreKeyed channels = All (λ (c : Channel). IdMap.get c.id channels ≡ some c) (IdMap.values channels)

map_same :
    (f g : Channel → Channel) (P : Channel → Type 0) (cs : List Channel)
    → ((c : Channel) → P c → f c ≡ g c)
    → All P cs
    → map f cs ≡ map g cs
map_same f g P [] h a = refl
map_same f g P (c ∷ cs) h a = ap₂ (λ x y. x ∷ y) (h c a.0) (map_same f g P cs h a.1)

-- After a drop, with distinct ids, and channels that each stand under their own id. What the server makes of the channels by the patches, one after the other, is exactly the local update.
pub channel_reorder_patches_agree :
    (ids : List ℕ) (channels : IdMap Channel) (patches : List (ℕ × ℕ)) (updated : List Channel)
    → AreDistinct ids
    → AreKeyed channels
    → channel_reorder_patches ids channels ≡ some (patches, updated)
    → map (patched patches) (IdMap.values channels) ≡ updated
unfolding channel_reorder_patches
channel_reorder_patches_agree ids channels patches updated d k h =
    elim (Option-cases (patches_from 0 ids channels)) [
      | inl e ↦ absurd (none_ne (patches, updated) (rw (channel_reorder_patches, e) at h))
      | inr e ↦
          let f : Channel → Channel = λ c. at_position (position_from 0 ids c.id) c in
          let all = IdMap.values channels in
          let eq : (e.0, map f all) ≡ (patches, updated) =
            some_inj _ _ (rw (channel_reorder_patches, e.1) at h) in
          ap (λ p. map (patched p) all) (sym (ap (λ x. x.0) eq))
          ∙ (map_same (patched e.0) f (λ c. IdMap.get c.id channels ≡ some c) all
                (λ c g. patched-patches_from ids 0 channels e.0 c e.1 d g) k
              ∙ ap (λ x. x.1) eq)
    ]
