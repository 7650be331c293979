-- ===== src/Redact/Secrecy.antt =====
-- The value of a sensitive parameter has no influence on what `Redact` returns.
use mathlib.Core.List.{map-append}
use docker_local.Common.{
  ℕ, zero, suc, ◌+◌, ◌<◌, ◌≡◌, ◌≢◌, refl, ap, sym, ◌∙◌, Bool, true, false, not, List, [], ◌∷◌, ◌++◌,
  some, length, arith, length-append, append_assoc, append-nil, ◌==◌, leb, ◌||◌, ◌&&◌, Bool-cases,
  inl, inr, all, any,
}
use docker_local.Common.Text.{
  Text, contains, to_upper, to_upper_rune, trim_space, trim_space_lem, is_space,
}
use docker_local.Redact.Parameter.{starts_output, parameter_loop, get_parameter_string}
use docker_local.Redact.Loop.{
  Redactor, initial, take_rune, read_rune, after_turn, emit_parameter, again, main_loop, redact,
  redaction_string, is_sensitive_command, finish, sensitive_parameters,
}
use docker_local.Redact.Total.{main_loop-plain, main_loop-value}
use docker_local.Redact.Fuel.{main_loop-fuel}

abbrev pub is_letter : ℕ → Bool
is_letter c = (leb b'A' c && leb c b'Z') || (leb b'a' c && leb c b'z')

-- No rune that ends a value or begins a quoted string.
abbrev pub is_unquoted : ℕ → Bool
is_unquoted c = not ((c == b')') || (c == b'\'') || (c == b'"'))

-- A word, letter by letter.
read_word : Text → Redactor → Redactor
read_word [] st = st
read_word (c ∷ w) st = read_word w (take_rune c (record st { newline = false }))

letter-starts_output : (c : ℕ) → is_letter c ≡ true → starts_output c ≡ true
unfolding starts_output
letter-starts_output c h = ground arith

take_rune-parameter_next :
    (c : ℕ) (st : Redactor) → (take_rune c st).parameter_next ≡ st.parameter_next
unfolding take_rune
take_rune-parameter_next c st = ground arith

read_rune-letter :
    (c : ℕ) (st : Redactor) (t : Text)
    → is_letter c ≡ true
    → read_rune st (c ∷ t) ≡ again (take_rune c (record st { newline = false })) t
unfolding read_rune starts_output
read_rune-letter c st t h = ground arith

-- What is known after a word: no value is next, and the verb ends in the word.
record AfterWord (w : Text) (st st' : Redactor) : Type 0 where
  no_value : st'.parameter_next ≡ false
  before : Text
  verb : st'.current_verb ≡ before ++ w
  moved : st'.return_str ++ st'.original_string ≡ (st.return_str ++ st.original_string) ++ w

take_rune-moved :
    (c : ℕ) (st : Redactor)
    → (take_rune c st).return_str ++ (take_rune c st).original_string
      ≡ (st.return_str ++ st.original_string) ++ (c ∷ [])
unfolding take_rune
take_rune-moved c st = elim (Bool-cases (st.found_gap || st.parameter_next)) [
  | inl e ↦ rw e
  | inr n ↦ rw (n, append_assoc)
]

take_rune-verb :
    (c : ℕ) (st : Redactor) → (before : Text) × ((take_rune c st).current_verb ≡ before ++ (c ∷ []))
unfolding take_rune
take_rune-verb c st = elim (Bool-cases (st.found_gap || st.parameter_next)) [
  | inl e ↦ ([], rw e)
  | inr n ↦ (st.current_verb, rw n)
]

take_rune-no_gap : (c : ℕ) (st : Redactor) → (take_rune c st).found_gap ≡ false
unfolding take_rune
take_rune-no_gap c st = ground arith

-- With no gap before it, a word is added to the verb.
read_word-verb :
    (w : Text) (st : Redactor)
    → st.found_gap ≡ false
    → st.parameter_next ≡ false
    → (read_word w st).current_verb ≡ st.current_verb ++ w
unfolding read_word take_rune
read_word-verb [] st g p = rw append-nil
read_word-verb (c ∷ w) st g p =
    let st' = take_rune c (record st { newline = false }) in
    let e : st'.current_verb ≡ st.current_verb ++ (c ∷ []) = rw (g, p) in
    read_word-verb w st' (take_rune-no_gap c (record st { newline = false }))
      (take_rune-parameter_next c (record st { newline = false }) ∙ p)
    ∙ rw (e, append_assoc)

read_word-moved :
    (w : Text) (st : Redactor)
    → (read_word w st).return_str ++ (read_word w st).original_string
      ≡ (st.return_str ++ st.original_string) ++ w
unfolding read_word
read_word-moved [] st = rw append-nil
read_word-moved (c ∷ w) st =
    read_word-moved w (take_rune c (record st { newline = false }))
    ∙ rw (take_rune-moved c (record st { newline = false }), append_assoc)

read_word-no_value :
    (w : Text) (st : Redactor) → (read_word w st).parameter_next ≡ st.parameter_next
unfolding read_word
read_word-no_value [] st = refl
read_word-no_value (c ∷ w) st = read_word-no_value w _ ∙ take_rune-parameter_next c _

read_word-AfterWord :
    (w : Text) (st : Redactor)
    → w ≢ []
    → st.parameter_next ≡ false
    → AfterWord w st (read_word w st)
unfolding read_word
read_word-AfterWord [] st ne p = absurd (ne refl)
read_word-AfterWord (c ∷ w) st ne p =
    let st' = take_rune c (record st { newline = false }) in
    let (before, e) = take_rune-verb c (record st { newline = false }) in
    record {
      no_value = read_word-no_value (c ∷ w) st ∙ p;
      before = before;
      verb =
          read_word-verb w st' (take_rune-no_gap c (record st { newline = false }))
            (take_rune-parameter_next c (record st { newline = false }) ∙ p)
          ∙ rw (e, append_assoc);
      moved = read_word-moved (c ∷ w) st;
    }

main_loop-word :
    (w t : Text) (st : Redactor) (f : ℕ)
    → all is_letter w ≡ true
    → st.parameter_next ≡ false
    → length (w ++ t) < f
    → main_loop f st (w ++ t) ≡ main_loop f (read_word w st) t
unfolding read_word
main_loop-word [] t st f a p h = refl
main_loop-word (c ∷ w) t st zero a p h = elim h [ ]
main_loop-word (c ∷ w) t st (suc f) a p h =
    let st' = take_rune c (record st { newline = false }) in
    let letter : is_letter c ≡ true = ground arith in
    let letters : all is_letter w ≡ true = ground arith in
    let p' = take_rune-parameter_next c (record st { newline = false }) ∙ p in
    main_loop-plain f st (c ∷ (w ++ t)) p
    ∙ (rw (read_rune-letter c st (w ++ t) letter))
    ∙ main_loop-word w t st' f letters p' (omega arith)
    ∙ main_loop-fuel f (suc f) (read_word w st') t (omega (arith, length-append w t))
        (omega (arith, length-append w t))

-- A word that holds a sensitive name is sensitive behind any text.
contains-behind : (b x p : Text) → contains x p ≡ true → contains (b ++ x) p ≡ true
unfolding contains
contains-behind [] x p h = h
contains-behind (c ∷ b) x p h = ground (arith, contains-behind b x p)

any-contains-behind :
    (ps : List Text) (b x : Text) → any (contains x) ps ≡ true → any (contains (b ++ x)) ps ≡ true
any-contains-behind [] b x h = h
any-contains-behind (p ∷ ps) b x h =
    ground (arith, contains-behind b x p, any-contains-behind ps b x)

is_sensitive_command-behind :
    (b w : Text)
    → is_sensitive_command (to_upper w) ≡ true
    → is_sensitive_command (to_upper (b ++ w)) ≡ true
unfolding is_sensitive_command to_upper
is_sensitive_command-behind b w h =
    rw (map-append to_upper_rune b w)
      (any-contains-behind sensitive_parameters (to_upper b) (to_upper w) h)

-- A value with no quotes is read up to its parenthesis.
parameter_loop-unquoted :
    (f : ℕ) (v rest : Text)
    → all is_unquoted v ≡ true
    → length v < f
    → parameter_loop f (v ++ b')' ∷ rest) ≡ some (v ++ b')' ∷ [], rest)
unfolding parameter_loop
parameter_loop-unquoted zero v rest a h = elim h [ ]
parameter_loop-unquoted (suc f) [] rest a h = refl
parameter_loop-unquoted (suc f) (c ∷ v) rest a h = ground (arith, parameter_loop-unquoted f v rest)

get_parameter_string-unquoted :
    (v rest : Text)
    → all is_unquoted v ≡ true
    → get_parameter_string (v ++ b')' ∷ rest) ≡ some (b'(' ∷ (v ++ b')' ∷ []), rest)
unfolding get_parameter_string
get_parameter_string-unquoted v rest a = rw (
    parameter_loop-unquoted (suc (length (v ++ b')' ∷ rest))) v rest a
      (omega (arith, length-append v (b')' ∷ rest))))

-- At the parenthesis behind a sensitive verb.
record AtValue (st st' : Redactor) : Type 0 where
  next : st'.parameter_next ≡ true
  hides : st'.redacting ≡ true
  shown_before : st'.return_str ≡ st.return_str ++ st.original_string

read_rune-parenthesis :
    (st : Redactor) (t : Text)
    → read_rune st (b'(' ∷ t)
      ≡ again (take_rune b'(' (record st { newline = false; parameter_next = true })) t
unfolding read_rune starts_output
read_rune-parenthesis st t = ground arith

take_rune-AtValue :
    (st : Redactor)
    → is_sensitive_command (to_upper st.current_verb) ≡ true
    → AtValue st (take_rune b'(' (record st { newline = false; parameter_next = true }))
unfolding take_rune
take_rune-AtValue st h = elim (Bool-cases st.found_gap) [
  | inl e ↦ record { next = rw e; hides = rw (e, h); shown_before = rw e }
  | inr n ↦ record { next = rw n; hides = rw (n, h); shown_before = rw n }
]

-- A parameter that is written `w(v)`, and the text behind it.
abbrev pub parameter : Text → Text → Text → Text
parameter w v rest = w ++ b'(' ∷ (v ++ b')' ∷ rest)

-- The state behind a replaced value.
abbrev replaced : Text → Redactor → Redactor
replaced w st =
    emit_parameter
      (take_rune b'(' (record (read_word w st) { newline = false; parameter_next = true })) []

emit_parameter-hides :
    (st : Redactor) (value : Text)
    → st.redacting ≡ true
    → emit_parameter st value ≡ emit_parameter st []
unfolding emit_parameter
emit_parameter-hides st value h = ground arith

sensitive-ne-nil : (w : Text) → is_sensitive_command (to_upper w) ≡ true → w ≢ []
unfolding is_sensitive_command to_upper
sensitive-ne-nil [] h e = cc
sensitive-ne-nil (c ∷ w) h e = cc

length-parameter :
    (w v rest : Text) → length (parameter w v rest) ≡ length w + length v + length rest + 2
length-parameter w v rest =
    omega (arith, length-append w (b'(' ∷ (v ++ b')' ∷ rest)), length-append v (b')' ∷ rest))

main_loop-replaced :
    (f : ℕ) (st : Redactor) (w v rest : Text)
    → all is_letter w ≡ true
    → is_sensitive_command (to_upper w) ≡ true
    → all is_unquoted v ≡ true
    → st.parameter_next ≡ false
    → length (parameter w v rest) < suc (suc f)
    → main_loop (suc (suc f)) st (parameter w v rest)
      ≡ after_turn (main_loop f) (read_rune (replaced w st) rest)
main_loop-replaced f st w v rest letters sensitive unquoted p h =
    let word = read_word-AfterWord w st (sensitive-ne-nil w sensitive) p in
    let value =
      take_rune-AtValue (read_word w st)
        (rw word.verb (is_sensitive_command-behind word.before w sensitive)) in
    let st' = take_rune b'(' (record (read_word w st) { newline = false; parameter_next = true }) in
    main_loop-word w (b'(' ∷ (v ++ b')' ∷ rest)) st (suc (suc f)) letters p h
    ∙ main_loop-plain (suc f) (read_word w st) (b'(' ∷ (v ++ b')' ∷ rest)) word.no_value
    ∙ ap (after_turn (main_loop (suc f)))
        (read_rune-parenthesis (read_word w st) (v ++ b')' ∷ rest))
    ∙ main_loop-value f st' (v ++ b')' ∷ rest) (b'(' ∷ (v ++ b')' ∷ [])) rest value.next
        (get_parameter_string-unquoted v rest unquoted)
    ∙ ap (λ (u : Redactor). after_turn (main_loop f) (read_rune u rest))
        (emit_parameter-hides st' (b'(' ∷ (v ++ b')' ∷ [])) value.hides)

-- In any state of the main loop that is not about to read a value (`parameter_next` is false), let the text go on with a
-- word of letters that holds the name of a sensitive parameter in either case, and right behind it, with no space, a value in
-- parentheses with no quote and no parenthesis that closes it. With fuel for the text, the result is the same for any
-- other such value: it tells nothing of the value.
pub redact_hides_value :
    (f g : ℕ) (st : Redactor) (w v v' rest : Text)
    → all is_letter w ≡ true
    → is_sensitive_command (to_upper w) ≡ true
    → all is_unquoted v ≡ true
    → all is_unquoted v' ≡ true
    → st.parameter_next ≡ false
    → length (parameter w v rest) < f
    → length (parameter w v' rest) < g
    → main_loop f st (parameter w v rest) ≡ main_loop g st (parameter w v' rest)
redact_hides_value f g st w v v' rest letters sensitive u u' p h h' =
    let large = f + g in
    let n = length-parameter w v rest in
    let n' = length-parameter w v' rest in
    main_loop-fuel f (suc (suc large)) st (parameter w v rest) h (omega arith)
    ∙ main_loop-replaced large st w v rest letters sensitive u p (omega arith)
    ∙ sym (main_loop-replaced large st w v' rest letters sensitive u' p (omega arith))
    ∙ main_loop-fuel (suc (suc large)) g st (parameter w v' rest) (omega arith) h'

letter-is_space : (c : ℕ) → is_letter c ≡ true → is_space c ≡ false
unfolding is_space
letter-is_space c h = ground arith

parameter-trimmed :
    (w v : Text)
    → w ≢ []
    → all is_letter w ≡ true
    → trim_space (parameter w v []) ≡ parameter w v []
unfolding is_space
parameter-trimmed [] v ne h = absurd (ne refl)
parameter-trimmed (c ∷ w) v ne h =
    let e : parameter (c ∷ w) v [] ≡ c ∷ ((w ++ b'(' ∷ v) ++ b')' ∷ []) = rw append_assoc in
    rw e (trim_space_lem c b')' (w ++ b'(' ∷ v) (letter-is_space c (ground arith)) refl)

-- `Redact` of a single parameter `w(v)`, for a word `w` of letters that holds the name of a sensitive
-- parameter in either case and a value `v` with no quote and no closing parenthesis, is `w(*********)`.
pub redact_sensitive :
    (w v : Text)
    → all is_letter w ≡ true
    → is_sensitive_command (to_upper w) ≡ true
    → all is_unquoted v ≡ true
    → redact (parameter w v []) ≡ some (w ++ redaction_string)
unfolding redact emit_parameter finish
redact_sensitive w v letters sensitive u =
    let ne = sensitive-ne-nil w sensitive in
    let large = length (parameter w v []) in
    let word = read_word-AfterWord w initial ne refl in
    let value =
      take_rune-AtValue (read_word w initial)
        (rw word.verb (is_sensitive_command-behind word.before w sensitive)) in
    rw (parameter-trimmed w v ne letters) (
      main_loop-fuel (suc large) (suc (suc large)) initial (parameter w v []) (omega arith)
        (omega arith)
      ∙ main_loop-replaced large initial w v [] letters sensitive u refl (omega arith)
      ∙ rw (value.hides, value.shown_before, word.moved))
