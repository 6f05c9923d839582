-- ===== src/Examples/Rows.antt =====
-- Grouping and the preview cache on small inputs.
use rivendell.IdMap
use rivendell.IdMap.{IdMap}
use rivendell.Model.{Channel}
use rivendell.Examples.Fixtures.{shire, dm}
use rivendell.ChannelOrder.{channel_reorder_patches}
use rivendell.ChannelOrder.Patches.{patched, channel_reorder_patches_agree}
use rivendell.Base.{◌≡◌, refl, ◌≢◌, false, [], ◌∷◌, map, arith}
use rivendell.Grouping.{
  grouping_anchor-after_rows, anchor_of, grouping_anchor, backwards, after_rows, no_anchor,
}
use rivendell.Previews.{
  begins_once, perform_all, perform, begin, resolve, forget, begin_fetch, preview_outcome, fetch,
}
use rivendell.Examples.Fixtures.{hello, late}
use rivendell.IdMap

grouping_anchor-after_rows_example :
    anchor_of (grouping_anchor (λ i. false) (backwards (hello ∷ late ∷ [])))
    ≡ after_rows (λ i. false) no_anchor (hello ∷ late ∷ [])
grouping_anchor-after_rows_example =
    grouping_anchor-after_rows (λ i. false) (hello ∷ late ∷ []) ((λ e. refl), ((λ e. refl), tt))

begins_once_example :
    let later = perform_all (perform [] (begin 4)) (resolve 4 9 ∷ forget 5 ∷ []) in
    ((begin_fetch 4 later).0 ≡ false) × (preview_outcome (IdMap.get 4 later) ≢ fetch)
begins_once_example =
    begins_once 4 [] (resolve 4 9 ∷ forget 5 ∷ []) (tt, ((λ e. absurd (omega (arith, e))), tt))

abbrev bree : Channel
bree = record shire { id = 8; name = "bree" }

abbrev three : IdMap Channel
three = (3, dm) ∷ (7, shire) ∷ (8, bree) ∷ []

-- Bree is dropped above the Shire, which moves down.
channel_reorder_patches_agree_example :
    map (patched ((7, 1) ∷ [])) (IdMap.values three)
    ≡ dm ∷ record shire { position = 1 } ∷ bree ∷ []
unfolding IdMap.get IdMap.values channel_reorder_patches
channel_reorder_patches_agree_example =
    channel_reorder_patches_agree (8 ∷ 7 ∷ []) three ((7, 1) ∷ [])
      (dm ∷ record shire { position = 1 } ∷ bree ∷ []) (refl, (refl, tt)) (refl, (refl, (refl, tt)))
      refl
