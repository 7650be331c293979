-- ===== src/Tls/Safely.antt =====
-- Steps with a condition before them and one behind, where an error that is returned is told from a panic and from a loop that
-- does not end.
use docker_local.Common.{
  ◌≡◌, refl, Bool, true, false, Option, none, some, ◌++◌, Result, ok, err, if◌then◌else◌,
}
use docker_local.Keystore.Commands.{KeyWorld, Outcome}
use docker_local.Tls.Store.{
  TlsStore, TlsWorld, TlsError, nil_pointer, unhashable_key, unending, key_command, M, ◌>>=◌,
  then_with, guard, need, perform,
}

abbrev pub never_returns : TlsError → Bool
never_returns nil_pointer = true
never_returns unhashable_key = true
never_returns unending = true
never_returns _ = false

module _ {Block Key : Type 0} where
  abbrev pub Good :
      {A : Type 0}
      → (A → TlsStore Block Key → Type 0)
      → Result TlsError (A × TlsStore Block Key)
      → Type 0
  Good Q (ok (a, s)) = Q a s
  Good Q (err e) = never_returns e ≡ false

  -- From every state with the one, a result with the other.
  abbrev pub Safe :
      {A : Type 0}
      → (TlsStore Block Key → Type 0)
      → M Block Key A
      → (A → TlsStore Block Key → Type 0)
      → Type 0
  Safe P m Q = (s : TlsStore Block Key) → P s → Good Q (m s)

  then_with-Good :
      {A B : Type 0} (Q : A → TlsStore Block Key → Type 0) (R : B → TlsStore Block Key → Type 0)
      (r : Result TlsError (A × TlsStore Block Key)) (rest : A → M Block Key B)
      → Good Q r
      → ((a : A) → Safe (Q a) (rest a) R)
      → Good R (then_with r rest)
  then_with-Good Q R (ok (a, s)) rest h k = k a s h
  then_with-Good Q R (err e) rest h k = h

  pub >>=-Safe :
      {A B : Type 0} (P : TlsStore Block Key → Type 0) (Q : A → TlsStore Block Key → Type 0)
      (R : B → TlsStore Block Key → Type 0) (m : M Block Key A) (rest : A → M Block Key B)
      → Safe P m Q
      → ((a : A) → Safe (Q a) (rest a) R)
      → Safe P (m >>= rest) R
  >>=-Safe P Q R m rest h k s p = then_with-Good Q R (m s) rest (h s p) k

  pub need-Safe :
      {A : Type 0} (P : TlsStore Block Key → Type 0) (e : TlsError) (o : Option A)
      → never_returns e ≡ false
      → Safe P (need e o) (λ a. P)
  need-Safe P e none h s p = h
  need-Safe P e (some a) h s p = p

  pub guard-Safe :
      (P : TlsStore Block Key → Type 0) (b : Bool) (e : TlsError)
      → never_returns e ≡ false
      → Safe P (guard b e) (λ u. P)
  guard-Safe P true e h s p = p
  guard-Safe P false e h s p = h

  -- The outside may change.
  abbrev pub Ignores : (TlsStore Block Key → Type 0) → Type 0
  Ignores P =
      (s : TlsStore Block Key) (o : Outcome) → P s → P (record s { done = s.done ++ o.effects })

  pub perform-Safe :
      (P : TlsStore Block Key → Type 0) (w : TlsWorld) (operation : KeyWorld → Outcome)
      → Ignores P
      → Safe P (perform w operation) (λ u. P)
  perform-Safe P w operation ignores s p =
      let o = operation (w.keys s.done) in
      guard-Safe P o.succeeded key_command refl (record s { done = s.done ++ o.effects })
        (ignores s o p)

  pub if-Safe :
      {A : Type 0} (P : TlsStore Block Key → Type 0) (Q : A → TlsStore Block Key → Type 0)
      (b : Bool) (m n : M Block Key A)
      → Safe P m Q
      → Safe P n Q
      → Safe P (if b then m else n) Q
  if-Safe P Q true m n h k = h
  if-Safe P Q false m n h k = k
