-- ===== src/Playground/Writes.antt =====
-- contrib/playground/assert_that_fmt.c: writing into the text buffer.
use pcut.Common.{
  ◌+◌, ◌≡◌, refl, sym, ap, ◌∙◌, true, Option, none, some, [], ◌++◌, Bytes, ltb, length,
  length-append, append_assoc, append-nil, arith, Bool-cases, inl, inr,
}
use mathlib.Core.Option.{some-injective}
use pcut.Playground.Typed.{◌>>=◌, assertion_text_buffer_length, append, State}
use pcut.Playground.Meanings.{Meaning}

pub append-append : (a b buffer : Bytes) → (append a buffer >>= append b) ≡ append (a ++ b) buffer
unfolding append
append-append a b buffer =
    let n = length-append buffer a in
    let m = length-append a b in
    elim (Bool-cases (ltb (length buffer + length a) assertion_text_buffer_length)) [
      | inl e ↦ rw (e, n, m, append_assoc buffer a b) (ground arith)
      | inr e ↦ rw (e, m) (ground arith)
    ]

abbrev pub IsShort : Bytes → Type 0
IsShort t = ltb (length t) assertion_text_buffer_length ≡ true

append-IsShort : (a buffer t : Bytes) → append a buffer ≡ some t → IsShort t
unfolding append
append-IsShort a buffer t e =
    let n = length-append buffer a in
    elim (Bool-cases (ltb (length buffer + length a) assertion_text_buffer_length)) [
      | inl f ↦ let g : buffer ++ a ≡ t = some-injective _ _ (rw f at e) in rw (← g, n) f
      | inr f ↦ let g : none ≡ some t = rw f at e in cc
    ]

pub append_nil : (t : Bytes) → IsShort t → append [] t ≡ some t
unfolding append
append_nil t e = rw (append-nil t) (ground arith)

module _ {U : Type 0} where
  abbrev pub at : Meaning U → Bytes → State U
  at m text = record { result = m.holds; text = text; user = m.user }

  -- The meaning, written into the buffer.
  abbrev pub put : Meaning U → Bytes → Option (State U)
  put m text = append m.words text >>= λ t. some (at m t)

  abbrev pub join : Meaning U → Meaning U → Meaning U
  join m n = record { holds = n.holds; words = m.words ++ n.words; user = n.user }

  pub put-bind :
      (m n : Meaning U) (text : Bytes) (f : State U → Option (State U))
      → ((t : Bytes) → IsShort t → f (at m t) ≡ put n t)
      → (put m text >>= f) ≡ put (join m n) text
  put-bind m n text f e =
      by_append (append m.words text) refl
      ∙ ap (λ o. o >>= λ t. some (at n t)) (append-append m.words n.words text)
    where
      by_append :
          (o : Option Bytes)
          → append m.words text ≡ o
          → ((o >>= λ t. some (at m t)) >>= f) ≡ (o >>= append n.words >>= λ t. some (at n t))
      by_append none q = refl
      by_append (some t) q = e t (append-IsShort m.words text t q)

  -- A step that writes nothing.
  pub put-step :
      (m n : Meaning U) (text : Bytes) (f : State U → Option (State U))
      → n.words ≡ m.words
      → ((t : Bytes) → f (at m t) ≡ some (at n t))
      → (put m text >>= f) ≡ put n text
  put-step m n text f w e =
      by_append (append m.words text) ∙ ap (λ x. append x text >>= λ t. some (at n t)) (sym w)
    where
      by_append :
          (o : Option Bytes) → ((o >>= λ t. some (at m t)) >>= f) ≡ (o >>= λ t. some (at n t))
      by_append none = refl
      by_append (some t) = e t
