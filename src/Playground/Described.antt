-- ===== src/Playground/Described.antt =====
-- contrib/playground/assert_that_fmt.c: an assertion prints its meaning.
use pcut.Common.{
  ◌+◌, ◌<◌, ◌≡◌, refl, sym, ap, ◌∙◌, true, false, not, Option, none, some, List, [], ◌++◌, ℤ, Bytes,
  codes, ltb, if◌then◌else◌, length, append_assoc, arith, Bool-cases, inl, inr,
}
use pcut.Playground.Typed.{
  ◌>>=◌, assertion_text_buffer_length, append, var_arg_count, Matcher, is_equal, is_not, is_any_of,
  custom, State, append_description, append_value, any_of_counted, run, described, append_string,
  assert_that_typed,
}
use pcut.Playground.Meanings.{Meaning, same, meaning, sentence, line, AreCounted}
use pcut.Playground.Writes.{append-append, IsShort, put, join, put-bind}
use pcut.Playground.Listed.{value-put, listing, any_of_counted-put}

abbrev report_line : {U : Type 0} → State U → Option (Bytes × U)
report_line s = some (line s.result s.text, s.user)

module _ {U V : Type 0} (comparator : V → V → ℤ) (formatter : V → Bytes → Option Bytes)
    (show : V → Bytes) (shows : (v : V) (t : Bytes) → formatter v t ≡ append (show v) t)
    (actual : V) where
  -- A description behind what is in the buffer.
  then_description :
      (m : Meaning U) (str text : Bytes)
      → (put m text >>= append_description (λ a b. some (comparator a b)) formatter actual str)
        ≡ put (record m { words = m.words ++ str }) text
  then_description m str text =
      put-bind m (record m { words = str }) text
        (append_description (λ a b. some (comparator a b)) formatter actual str) (λ t l. refl)

  counted :
      (es : List (U → V × U))
      → 0 < length es
      → length es < 12
      → var_arg_count (length es) ≡ some (length es)
  unfolding var_arg_count
  counted es p q = ground arith

  run-put :
      (m : Matcher U V) (s : State U)
      → AreCounted m
      → IsShort s.text
      → run (λ a b. some (comparator a b)) formatter actual m s
        ≡ put (meaning comparator show actual m s.user) s.text
  unfolding run
  run-put (is_equal e) s c l =
      let v = (e s.user).0 in
      let b = same comparator actual v in
      put-bind (record { holds = b; words = codes "equal to "; user = (e s.user).1 })
        (record { holds = b; words = show v; user = (e s.user).1 }) s.text
        (append_value (λ a b. some (comparator a b)) formatter actual v)
        (λ t l'.
          value-put comparator formatter show shows actual v
            (record { result = b; text = t; user = (e s.user).1 }))
  run-put (is_not m) s c l =
      let inner = meaning comparator show actual m s.user in
      let f : State U → Option (State U) = λ s₁.
        append_description (λ a b. some (comparator a b)) formatter actual (codes ")")
          (record s₁ { result = not s₁.result }) in
      ap (λ o. o >>= f)
        (put-bind (record { holds = s.result; words = codes "not ("; user = s.user }) inner s.text
          (run (λ a b. some (comparator a b)) formatter actual m)
          (λ t l'. run-put m (record { result = s.result; text = t; user = s.user }) c l'))
      ∙ put-bind (record inner { words = codes "not (" ++ inner.words })
          (record { holds = not inner.holds; words = codes ")"; user = inner.user }) s.text f
          (λ t l'. refl)
  run-put (is_any_of es) s c l =
      let list = listing comparator formatter show shows actual 7 0 es false s.user in
      let f : State U → Option (State U) = λ s₁.
        any_of_counted (λ a b. some (comparator a b)) formatter actual 7 0 es s₁
        >>= append_description (λ a b. some (comparator a b)) formatter actual (codes " }") in
      rw (counted es c.0 c.1) (
        put-bind (record { holds = false; words = codes "any of { "; user = s.user })
          (record list { words = list.words ++ codes " }" }) s.text f
          (λ t l'.
            ap
              (λ o.
                o
                >>= append_description (λ a b. some (comparator a b)) formatter actual (codes " }"))
              (any_of_counted-put comparator formatter show shows actual 7 0 es
                (record { result = false; text = t; user = s.user }) l')
            ∙ then_description list (codes " }") t)
        ∙ ap (λ w. put (record list { words = w }) s.text)
            (sym (append_assoc (codes "any of { ") list.words (codes " }"))))
  run-put (custom test description) s c l = refl

  printed :
      (w : Meaning U)
      → (put w [] >>= report_line) ≡ (
          if ltb (length w.words) assertion_text_buffer_length
          then some (line w.holds w.words, w.user)
          else none)
  unfolding append
  printed w = elim (Bool-cases (ltb (length w.words) assertion_text_buffer_length)) [
    | inl e ↦
        let f : ltb (0 + length w.words) assertion_text_buffer_length ≡ true = ground arith in
        rw (e, f) refl
    | inr e ↦
        let f : ltb (0 + length w.words) assertion_text_buffer_length ≡ false = ground arith in
        rw (e, f) refl
  ]

  -- To be replaced.
  described-meaning :
      (actual_text matcher_name : Bytes) (m : Matcher U V) (u : U)
      → AreCounted m
      → described (λ a b. some (comparator a b)) formatter actual actual_text matcher_name m u ≡ (
          let told = meaning comparator show actual m u in
          let text = sentence actual_text (show actual) matcher_name told.words in
          if ltb (length text) assertion_text_buffer_length
          then some (line told.holds text, told.user)
          else none)
  unfolding described
  described-meaning actual_text matcher_name m u c =
      let told = meaning comparator show actual m u in
      let name : Bytes = codes " [" ++ (matcher_name ++ codes "].") in
      let begin : Meaning U = record {
        holds = true;
        words = codes "Expected " ++ (actual_text ++ codes " is ");
        user = u;
      } in
      let writes : Bytes → State U → Option (State U) =
        append_description (λ a b. some (comparator a b)) formatter actual in
      let shows_it : State U → Option (State U) =
        append_value (λ a b. some (comparator a b)) formatter actual actual in
      let m₁ = join begin told in
      let m₂ = record m₁ { words = m₁.words ++ codes " but got " } in
      let m₃ = record m₂ { words = m₂.words ++ show actual } in
      ap (λ o. o >>= writes (codes " but got ") >>= shows_it >>= writes name >>= report_line)
        (put-bind begin told [] (run (λ a b. some (comparator a b)) formatter actual m)
          (λ t l. run-put m (record { result = true; text = t; user = u }) c l))
      ∙ ap (λ o. o >>= shows_it >>= writes name >>= report_line)
          (then_description m₁ (codes " but got ") [])
      ∙ ap (λ o. o >>= writes name >>= report_line)
          (put-bind m₂ (record told { words = show actual }) [] shows_it
            (λ t l.
              value-put comparator formatter show shows actual actual
                (record { result = told.holds; text = t; user = told.user })))
      ∙ ap (λ o. o >>= report_line) (then_description m₃ name [])
      ∙ printed (record m₃ { words = m₃.words ++ name })

-- The formatters of the file write the text of the value.
abbrev pub quoted : Bytes → Bytes
quoted v = codes "\"" ++ (v ++ codes "\"")

pub append_string-append : (v t : Bytes) → append_string v t ≡ append (quoted v) t
unfolding append_string
append_string-append v t =
    ap (λ o. o >>= append (codes "\"")) (append-append (codes "\"") v t)
    ∙ append-append (codes "\"" ++ v) (codes "\"") t
    ∙ ap (λ x. append x t) (append_assoc (codes "\"") v (codes "\""))

-- An assertion of assert_that_fmt.c computes its value once and then each expression of its
-- matcher once, from left to right and up to seven in a list, and prints one line: whether the
-- matcher holds, the text of the value, the description of the matcher and the value that it got.
-- A list of seven values or more is described as too small. When the whole text has 1024 bytes or
-- more, it is written behind the buffer. The conditions are that the formatter writes a text of
-- the value and that each list has between one and eleven values.
pub assert_that_typed-meaning :
    {U V : Type 0} (comparator : V → V → ℤ) (formatter : V → Bytes → Option Bytes)
    (show : V → Bytes) (actual_text : Bytes) (actual : U → V × U) (matcher_name : Bytes)
    (m : Matcher U V) (u : U)
    → ((v : V) (t : Bytes) → formatter v t ≡ append (show v) t)
    → AreCounted m
    → assert_that_typed comparator formatter actual_text actual matcher_name m u ≡ (
        let value = actual u in
        let told = meaning comparator show value.0 m value.1 in
        let text = sentence actual_text (show value.0) matcher_name told.words in
        if ltb (length text) assertion_text_buffer_length
        then some (line told.holds text, told.user)
        else none)
unfolding assert_that_typed
assert_that_typed-meaning comparator formatter show actual_text actual matcher_name m u shows c =
    described-meaning comparator formatter show shows (actual u).0 actual_text matcher_name m
      (actual u).1 c
