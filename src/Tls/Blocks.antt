-- ===== src/Tls/Blocks.antt =====
-- The loop over the PEM blocks of a file.
use docker_local.Common.{
  ℕ, zero, suc, ◌<◌, ◌≡◌, refl, Option, none, some, List, [], ◌∷◌, length, arith, inl, inr,
  Option-cases,
}
use docker_local.Common.Text.{Text}

module _ {Block : Type 0} where
  abbrev pub add_block : Block → Option (List Block) → Option (List Block)
  add_block b none = none
  add_block b (some bs) = some (b ∷ bs)

  -- `for string(file) != ""`: the blocks that `pem.Decode` finds one after the other, less what is done with them.
  unfoldable pub blocks : (Text → Option (Block × Text)) → ℕ → Text → Option (List Block)
  blocks decode zero file = none
  blocks decode (suc fuel) [] = some []
  blocks decode (suc fuel) (c ∷ file) = elim (decode (c ∷ file)) [
    | none ↦ some []
    | some (b, rest) ↦ add_block b (blocks decode fuel rest)
  ]

  unfoldable pub blocks_of : (Text → Option (Block × Text)) → Text → Option (List Block)
  unfolding blocks
  blocks_of decode file = blocks decode (suc (length file)) file

  -- The documented behaviour of `pem.Decode`: the text behind a block is shorter than the text with it.
  abbrev pub Shrinks : (Text → Option (Block × Text)) → Type 0
  Shrinks decode =
      (file : Text) (b : Block) (rest : Text)
      → decode file ≡ some (b, rest)
      → length rest < length file

  blocks-returns :
      (decode : Text → Option (Block × Text))
      → Shrinks decode
      → (fuel : ℕ) (file : Text) → length file < fuel
      → (bs : List Block) × (blocks decode fuel file ≡ some bs)
  unfolding blocks
  blocks-returns decode shrinks zero file h = absurd (omega arith)
  blocks-returns decode shrinks (suc fuel) [] h = ([], refl)
  blocks-returns decode shrinks (suc fuel) (c ∷ file) h = elim (Option-cases (decode (c ∷ file))) [
    | inl e ↦ ([], rw (e, blocks) refl)
    | inr ((b, rest), e) ↦
        let (bs, f) =
          blocks-returns decode shrinks fuel rest (omega (arith, shrinks (c ∷ file) b rest e)) in
        (b ∷ bs, rw (e, f, blocks) refl)
  ]

  pub blocks_of-returns :
      (decode : Text → Option (Block × Text))
      → Shrinks decode
      → (file : Text) → (bs : List Block) × (blocks_of decode file ≡ some bs)
  unfolding blocks_of
  blocks_of-returns decode shrinks file =
      blocks-returns decode shrinks (suc (length file)) file (omega arith)
