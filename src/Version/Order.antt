-- ===== src/Version/Order.antt =====
-- `compare` is a total order.
use docker_local.Common.{ℕ, ◌≡◌, refl, ◌↔◌, List, [], ◌∷◌, arith}
use docker_local.Version.Vrmf.{
  Vrmf, Comparison, less, same, greater, compare_parts, compare_vrmf, parts,
}

abbrev pub flip : Comparison → Comparison
flip less = greater
flip same = same
flip greater = less

compare_parts-flip : (vs ws : List ℕ) → compare_parts ws vs ≡ flip (compare_parts vs ws)
unfolding compare_parts
compare_parts-flip [] [] = refl
compare_parts-flip [] (w ∷ ws) = refl
compare_parts-flip (v ∷ vs) [] = refl
compare_parts-flip (v ∷ vs) (w ∷ ws) = ground (arith, compare_parts-flip vs ws)

compare_parts_trans :
    (vs ws us : List ℕ)
    → compare_parts vs ws ≡ less
    → compare_parts ws us ≡ less
    → compare_parts vs us ≡ less
unfolding compare_parts
compare_parts_trans [] ws us h k = cc
compare_parts_trans (v ∷ vs) [] us h k = cc
compare_parts_trans (v ∷ vs) (w ∷ ws) [] h k = cc
compare_parts_trans (v ∷ vs) (w ∷ ws) (u ∷ us) h k = ground (arith, compare_parts_trans vs ws us)

compare_parts_refl : (vs : List ℕ) → compare_parts vs vs ≡ same
unfolding compare_parts
compare_parts_refl [] = refl
compare_parts_refl (v ∷ vs) = ground (arith, compare_parts_refl vs)

compare_vrmf-same : (v w : Vrmf) → compare_vrmf v w ≡ same → v ≡ w
unfolding compare_vrmf
compare_vrmf-same v w h = ground arith

-- Two versions compare as the same exactly if they are equal, and exchanging the versions exchanges -1 and 1.
pub compare_vrmf_total :
    (v w : Vrmf)
    → ((compare_vrmf v w ≡ same) ↔ (v ≡ w)) × (compare_vrmf w v ≡ flip (compare_vrmf v w))
unfolding compare_vrmf
compare_vrmf_total v w = (
  (compare_vrmf-same v w, λ e. rw e (compare_parts_refl (parts w))),
  compare_parts-flip (parts v) (parts w),
)

-- A version that comes before one that comes before a third comes before the third.
pub compare_vrmf_trans :
    (v w u : Vrmf) → compare_vrmf v w ≡ less → compare_vrmf w u ≡ less → compare_vrmf v u ≡ less
unfolding compare_vrmf
compare_vrmf_trans v w u = compare_parts_trans (parts v) (parts w) (parts u)
