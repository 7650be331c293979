-- ===== src/Sensitive/Zeroed.antt =====
-- No secret stays in memory that an object has left.
use docker_local.Common.{
  ℕ, suc, ◌≡◌, ◌≢◌, refl, sym, ap, ◌∙◌, Bool, true, ◌&&◌, none, some, List, [], ◌∷◌, ◌++◌,
  append-nil, append_assoc, length, leb, ◌==◌, all, Bool-cases, inl, inr,
}
use docker_local.Sensitive.Buffer.{
  Block, Sensitive, zeros, zero_meta, append_bytes, adopt, write_to, write, then_writes, writes,
  clear_buffer, len_of,
}

abbrev pub is_zeroed : Block → Bool
is_zeroed m = all (λ b. b == 0) m.bytes

-- All the blocks that the object has left are zeroed.
abbrev pub is_tidy : Sensitive → Bool
is_tidy s = all is_zeroed s.left

abbrev pub concat : List (List ℕ) → List ℕ
concat [] = []
concat (b ∷ bs) = b ++ concat bs

zero_meta-is_zeroed : (bs : List ℕ) → all (λ b. b == 0) (zeros bs) ≡ true
zero_meta-is_zeroed [] = refl
zero_meta-is_zeroed (b ∷ bs) = zero_meta-is_zeroed bs

length-zeros : (bs : List ℕ) → length (zeros bs) ≡ length bs
length-zeros [] = refl
length-zeros (b ∷ bs) = ap suc (length-zeros bs)

-- A write on a buffer with a byte succeeds.
record Wrote (s : Sensitive) (b : List ℕ) (t : Sensitive) : Type 0 where
  bytes : t.buf.bytes ≡ s.buf.bytes ++ b
  tidy : is_tidy t ≡ is_tidy s

adopt-Wrote :
    (spare_of : ℕ → ℕ) (s : Sensitive) (b : List ℕ)
    → Wrote s b (adopt s (append_bytes spare_of s.buf b))
unfolding append_bytes zero_meta
adopt-Wrote spare_of s b = elim (Bool-cases (leb (length b) s.buf.spare)) [
  | inl e ↦ rw e (record { bytes = refl; tidy = refl })
  | inr e ↦ rw e (record { bytes = refl; tidy = rw (zero_meta-is_zeroed s.buf.bytes) refl })
]

write_to-some :
    (s : Sensitive) (bs : List ℕ) (grown : Bool × Block)
    → bs ≢ []
    → write_to s bs grown ≡ some (adopt s grown)
write_to-some s [] grown h = absurd (h refl)
write_to-some s (c ∷ cs) grown h = refl

nonempty : (bs cs : List ℕ) → bs ≢ [] → bs ++ cs ≢ []
nonempty [] cs h = absurd (h refl)
nonempty (b ∷ bs) cs h = λ e. cc

-- Calls of `Write` on a buffer that is not empty, with only zeroes in the blocks it left before, never panic, add their
-- bytes in order, and leave only zeroes in each block
-- that the buffer has moved from.
pub writes_lem :
    (spare_of : ℕ → ℕ) (bs : List (List ℕ)) (s : Sensitive)
    → s.buf.bytes ≢ []
    → is_tidy s ≡ true
    → (t : Sensitive) × (writes spare_of bs s ≡ some t)
      × (t.buf.bytes ≡ s.buf.bytes ++ concat bs)
      × (is_tidy t ≡ true)
unfolding writes write
writes_lem spare_of [] s h k = (s, refl, sym (append-nil s.buf.bytes), k)
writes_lem spare_of (b ∷ bs) s h k =
    let t = adopt s (append_bytes spare_of s.buf b) in
    let w = adopt-Wrote spare_of s b in
    let (u, e, c, z) =
      writes_lem spare_of bs t (λ e. nonempty s.buf.bytes b h (sym w.bytes ∙ e)) (w.tidy ∙ k) in
    (
      u,
      ap (then_writes (writes spare_of bs))
            (write_to-some s s.buf.bytes (append_bytes spare_of s.buf b) h)
          ∙ e,
      c ∙ ap (λ x. x ++ concat bs) w.bytes ∙ append_assoc s.buf.bytes b (concat bs),
      z,
    )

-- After calls of `Write` on a buffer that is not empty, with only zeroes in the blocks it left before, `Clear` leaves only
-- zeroes in every block that the object has or had, and the length as it was.
pub clear_writes :
    (spare_of : ℕ → ℕ) (bs : List (List ℕ)) (s : Sensitive)
    → s.buf.bytes ≢ []
    → is_tidy s ≡ true
    → (t : Sensitive) × (writes spare_of bs s ≡ some t)
      × ((is_zeroed (clear_buffer t).buf && is_tidy (clear_buffer t)) ≡ true)
      × (len_of (clear_buffer t) ≡ length (s.buf.bytes ++ concat bs))
unfolding clear_buffer zero_meta
clear_writes spare_of bs s h k =
    let (t, e, c, z) = writes_lem spare_of bs s h k in
    (t, e, rw (zero_meta-is_zeroed t.buf.bytes) z, length-zeros t.buf.bytes ∙ ap length c)

-- `Write` panics on a buffer with no byte, whatever is written.
pub write_empty :
    (spare_of : ℕ → ℕ) (s : Sensitive) (b : List ℕ) → s.buf.bytes ≡ [] → write spare_of s b ≡ none
unfolding write
write_empty spare_of s b e = ap (λ bs. write_to s bs (append_bytes spare_of s.buf b)) e
