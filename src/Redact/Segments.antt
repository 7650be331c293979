-- ===== src/Redact/Segments.antt =====
-- What `Redact` returns, against its input cut into segments.
use docker_local.Common.{
  ℕ, zero, suc, ◌<◌, ◌≡◌, refl, ap, sym, ◌∙◌, Bool, true, false, not, List, [], ◌∷◌, ◌++◌, Option,
  some, length, arith, append_assoc, append-nil, ◌==◌, ◌||◌, ◌&&◌, Bool-cases, if◌then◌else◌, inl,
  inr,
}
use docker_local.Common.Text.{Text, is_empty, trim_space}
use docker_local.Redact.Parameter.{starts_output, get_parameter_string}
use docker_local.Redact.Loop.{
  Redactor, initial, Turn, finished, again, finish, comment_loop, dispatch, take_rune, take_gap,
  read_rune, after_turn, emit_parameter, main_loop, redact, keep_rune, redaction_string,
}
use docker_local.Redact.Total.{
  length-of-split, main_loop-plain, main_loop-value, get_parameter_string-Reads,
}

-- The text that a turn has still to account for.
abbrev pub pending : Redactor → Text → Text
pending st s = st.original_string ++ s

abbrev pub AtParenthesis : Redactor → Type 0
AtParenthesis st = st.parameter_next ≡ true → st.original_string ≡ b'(' ∷ []

-- A turn moves a piece of the pending text to the result, and reads at least one rune of `s`.
abbrev pub Moves : Redactor → Text → ℕ → Turn → Type 0
Moves st s n (finished out) = out ≡ st.return_str ++ pending st s
Moves st s n (again st' s') =
    (piece : Text) × (st'.return_str ≡ st.return_str ++ piece)
    × (piece ++ pending st' s' ≡ pending st s)
    × (length s' < n)
    × AtParenthesis st'

finish_lem : (st : Redactor) → finish st ≡ st.return_str ++ st.original_string
unfolding finish
finish_lem st =
    elim st.original_string
      as (λ o.
        (if not (is_empty o) then st.return_str ++ o else st.return_str) ≡ st.return_str ++ o) [
          | [] ↦ sym (append-nil st.return_str)
          | c ∷ o ↦ refl
        ]

comment_loop-Moves :
    (st st' : Redactor) (s t : Text) (n : ℕ)
    → st.return_str ≡ st'.return_str
    → st'.parameter_next ≡ false
    → pending st' t ≡ pending st s
    → length t < n
    → Moves st s n (comment_loop st' t)
unfolding comment_loop
comment_loop-Moves st st' s [] n r p e h = rw (finish_lem st', ← r, ← e, append-nil)
comment_loop-Moves st st' s (c ∷ t) n r p e h = elim (Bool-cases (c == b'\n')) [
  | inl nl ↦ rw nl (
    [],
    rw append-nil (sym r),
    append_assoc st'.original_string (c ∷ []) t ∙ e,
    omega arith,
    λ q. cc,
  )
  | inr go ↦ rw go (
      comment_loop-Moves st (keep_rune c st') s t n r p
        (append_assoc st'.original_string (c ∷ []) t ∙ e) (omega arith))
]

kept-Moves :
    (st st' : Redactor) (c : ℕ) (s : Text)
    → st'.return_str ≡ st.return_str
    → st'.original_string ≡ st.original_string ++ (c ∷ [])
    → AtParenthesis st'
    → Moves st (c ∷ s) (suc (length s)) (again st' s)
kept-Moves st st' c s r o p =
    ([], rw append-nil r, rw o (append_assoc st.original_string (c ∷ []) s), omega arith, p)

take_rune-Moves :
    (c : ℕ) (st : Redactor) (s : Text)
    → (st.parameter_next ≡ true → c ≡ b'(')
    → Moves st (c ∷ s) (suc (length s)) (again (take_rune c st) s)
unfolding take_rune
take_rune-Moves c st s p = elim (Bool-cases (st.found_gap || st.parameter_next)) [
  | inl e ↦ rw e (st.original_string, refl, refl, omega arith, λ q. rw (p q))
  | inr n ↦ kept-Moves st (take_rune c st) c s (rw n) (rw n) (λ q. ground arith)
]

take_gap-Moves :
    (c : ℕ) (st st' : Redactor) (s : Text)
    → st'.return_str ≡ st.return_str
    → st'.original_string ≡ st.original_string
    → st'.parameter_next ≡ false
    → Moves st (c ∷ s) (suc (length s)) (again (take_gap c st') s)
unfolding take_gap
take_gap-Moves c st st' s r o p = elim (Bool-cases st'.line_continuation) [
  | inl e ↦ kept-Moves st (take_gap c st') c s (rw e r) (rw (e, o)) (λ q. ground arith)
  | inr n ↦ kept-Moves st (take_gap c st') c s (rw n r) (rw (n, o)) (λ q. ground arith)
]

dispatch-Moves :
    (c : ℕ) (st : Redactor) (s : Text)
    → st.parameter_next ≡ false
    → Moves st (c ∷ s) (suc (length s)) (dispatch c st s)
unfolding dispatch
dispatch-Moves c st s p = elim (Bool-cases ((c == b'+') || (c == b'-'))) [
  | inl e ↦ rw e (
      kept-Moves st (keep_rune c (record st { line_continuation = true; found_gap = false })) c s
        refl refl (λ q. cc))
  | inr n ↦ rw n (elim (Bool-cases (c == b'\n')) [
    | inl e ↦
        rw e
          (take_gap-Moves c st (record st { check_comment = true; newline = true }) s refl refl p)
    | inr n₁ ↦ rw n₁ (elim (Bool-cases ((c == b'\t') || (c == b'\r') || (c == b' '))) [
      | inl e ↦ rw e (take_gap-Moves c st st s refl refl p)
      | inr n₂ ↦ rw n₂ (elim (Bool-cases (c == b'(')) [
        | inl e ↦
            rw e (take_rune-Moves c (record st { parameter_next = true }) s (λ q. ground arith))
        | inr n₃ ↦ rw n₃ (elim (Bool-cases ((c == b'*') && st.check_comment)) [
          | inl e ↦ rw e (
              comment_loop-Moves st (keep_rune c st) (c ∷ s) s (suc (length s)) refl p
                (append_assoc st.original_string (c ∷ []) s) (omega arith))
          | inr n₄ ↦ rw n₄ (take_rune-Moves c st s (λ q. cc))
        ])
      ])
    ])
  ])
]

-- A turn that is not about to read a parameter value.
pub read_rune-Moves :
    (st : Redactor) (s : Text) → st.parameter_next ≡ false → Moves st s (length s) (read_rune st s)
unfolding read_rune
read_rune-Moves st [] p = rw (finish_lem st, append-nil)
read_rune-Moves st (c ∷ s) p = elim (Bool-cases (st.newline && not (starts_output c))) [
  | inl e ↦ rw e (kept-Moves st (keep_rune c st) c s refl refl (λ q. cc))
  | inr n ↦ rw n (dispatch-Moves c (record st { newline = false }) s p)
]

-- A piece of the input, that is kept or is replaced.
pub data Segment : Type 0 where
  shown hidden : Text → Segment

abbrev pub raw : List Segment → Text
raw [] = []
raw (shown t ∷ l) = t ++ raw l
raw (hidden t ∷ l) = t ++ raw l

abbrev pub rendered : List Segment → Text
rendered [] = []
rendered (shown t ∷ l) = t ++ rendered l
rendered (hidden t ∷ l) = redaction_string ++ rendered l

-- `t` is just what `getParameterString` reads in front of `after`.
abbrev pub IsValueBefore : Text → Text → Type 0
IsValueBefore after t =
    (inner : Text) × (t ≡ b'(' ∷ inner) × (get_parameter_string (inner ++ after) ≡ some (t, after))

abbrev pub AreValues : List Segment → Type 0
AreValues [] = Unit
AreValues (shown t ∷ l) = AreValues l
AreValues (hidden t ∷ l) = IsValueBefore (raw l) t × AreValues l

pub record Segmented (prefix source : Text) (result : Option Text) : Type 0 where
  pub segments : List Segment
  pub returns : result ≡ some (prefix ++ rendered segments)
  pub covers : raw segments ≡ source
  pub values : AreValues segments

abbrev Continues : ℕ → Type 0
Continues fuel =
    (st : Redactor) (s : Text)
    → length s < fuel
    → AtParenthesis st
    → Segmented st.return_str (pending st s) (main_loop fuel st s)

Segmented-turn :
    (fuel : ℕ) (st : Redactor) (s : Text)
    → Continues fuel
    → length s < suc fuel
    → (t : Turn) → Moves st s (length s) t
    → Segmented st.return_str (pending st s) (after_turn (main_loop fuel) t)
Segmented-turn fuel st s ih h (finished out) e = record {
  segments = shown (pending st s) ∷ [];
  returns = rw (e, append-nil);
  covers = append-nil (pending st s);
  values = tt;
}
Segmented-turn fuel st s ih h (again st' s') (piece, r, c, l, p) =
    let g = ih st' s' (omega arith) p in
    record {
      segments = shown piece ∷ g.segments;
      returns = g.returns ∙ ap some (rw (r, append_assoc));
      covers = ap (◌++◌ piece) g.covers ∙ c;
      values = g.values;
    }

Segmented-parameter :
    (fuel : ℕ) (st : Redactor) (s : Text)
    → Continues fuel
    → length s < suc fuel
    → st.parameter_next ≡ true
    → st.original_string ≡ b'(' ∷ []
    → Segmented st.return_str (pending st s) (main_loop (suc fuel) st s)
unfolding emit_parameter
Segmented-parameter fuel st s ih h next o =
    let (inner, rest, e, splits) = get_parameter_string-Reads s in
    let value = b'(' ∷ inner in
    let st' = emit_parameter st value in
    let g =
      Segmented-turn fuel st' rest ih
        (let shorter = length-of-split inner rest s splits in omega arith) (read_rune st' rest)
        (read_rune-Moves st' rest refl) in
    let read : main_loop (suc fuel) st s ≡ after_turn (main_loop fuel) (read_rune st' rest) =
      main_loop-value fuel st s value rest next e in
    let covers : value ++ raw g.segments ≡ pending st s = rw (o, g.covers) (ap (◌∷◌ b'(') splits) in
    elim (Bool-cases st.redacting) [
      | inl yes_ ↦ record {
        segments = hidden value ∷ g.segments;
        returns = read ∙ g.returns ∙ rw (yes_, append_assoc);
        covers = covers;
        values = ((inner, refl, rw g.covers (rw splits e)), g.values);
      }
      | inr no_ ↦ record {
        segments = shown value ∷ g.segments;
        returns = read ∙ g.returns ∙ rw (no_, append_assoc);
        covers = covers;
        values = g.values;
      }
    ]

main_loop-Segmented : (fuel : ℕ) → Continues fuel
main_loop-Segmented zero st s h p = elim h [ ]
main_loop-Segmented (suc fuel) st s h p = elim (Bool-cases st.parameter_next) [
  | inl next ↦ Segmented-parameter fuel st s (main_loop-Segmented fuel) h next (p next)
  | inr plain ↦ rw (main_loop-plain fuel st s plain) (
      Segmented-turn fuel st s (main_loop-Segmented fuel) h (read_rune st s)
        (read_rune-Moves st s plain))
]

-- `Redact` returns a text, for every input. The input less the white space at its ends is cut into
-- segments, and the result has them in order, some replaced by `(*********)`: each of those is a
-- whole parameter value, as `getParameterString` delimits it. All else is copied unchanged.
pub redact-Segmented : (out : Text) → Segmented [] (trim_space out) (redact out)
unfolding redact
redact-Segmented out =
    main_loop-Segmented (suc (length (trim_space out))) initial (trim_space out) (omega arith)
      (λ q. cc)

abbrev has_parenthesis : Text → Bool
has_parenthesis [] = false
has_parenthesis (c ∷ s) = (c == b'(') || has_parenthesis s

has_parenthesis-append :
    (s t : Text) → has_parenthesis (s ++ t) ≡ (has_parenthesis s || has_parenthesis t)
has_parenthesis-append [] t = refl
has_parenthesis-append (c ∷ s) t = ground (arith, has_parenthesis-append s t)

rendered-raw :
    (l : List Segment) → has_parenthesis (raw l) ≡ false → AreValues l → rendered l ≡ raw l
rendered-raw [] h v = refl
rendered-raw (shown t ∷ l) h v =
    ap (◌++◌ t) (rendered-raw l (ground (arith, has_parenthesis-append t (raw l))) v)
rendered-raw (hidden t ∷ l) h ((inner, e, _), v) = absurd (let h' = rw e at h in cc)

-- A text with no opening parenthesis is returned as it is, less the white space at its ends.
pub redact_plain :
    (out : Text) → has_parenthesis (trim_space out) ≡ false → redact out ≡ some (trim_space out)
redact_plain out h =
    let r = redact-Segmented out in
    r.returns ∙ ap some (rendered-raw r.segments (rw r.covers h) r.values ∙ r.covers)
