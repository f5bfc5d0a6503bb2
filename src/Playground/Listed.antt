-- ===== src/Playground/Listed.antt =====
-- contrib/playground/assert_that_fmt.c: the list of PCUT_IS_ANY_OF.
use pcut.Common.{
  ℕ, zero, suc, ◌+◌, ◌≡◌, refl, ap, ◌∙◌, Bool, true, false, ◌||◌, Option, some, List, [], ◌∷◌, ◌++◌,
  ℤ, Bytes, codes, ltb, leb, ◌==◌, if◌then◌else◌, length, append_assoc, arith, Bool-cases, inl, inr,
}
use pcut.Playground.Typed.{
  ◌>>=◌, append, State, append_value, compare_with, next_value, any_of_counted,
}
use pcut.Playground.Meanings.{Meaning, values, enumerated, too_small, same, any_same}
use pcut.Playground.Writes.{IsShort, append_nil, put, put-bind, put-step}

or_false : (b : Bool) → b ≡ (b || false)
or_false true = refl
or_false false = refl

regroup : (a b c d : Bytes) → (a ++ b) ++ (c ++ d) ≡ (a ++ (b ++ c)) ++ d
regroup a b c d = rw (append_assoc a (b ++ c) d, append_assoc a b (c ++ d), append_assoc b c d) refl

or_assoc : (a b c : Bool) → ((a || b) || c) ≡ (a || (b || c))
or_assoc true b c = refl
or_assoc false b c = refl

enough_room :
    {A : Type 0} (n : ℕ) (e : A) (es : List A) → too_small n es ≡ too_small (suc n) (e ∷ es)
enough_room n e es =
    let same_size : leb n (length es) ≡ leb (suc n) (suc (length es)) = ground arith in
    rw same_size refl

module _ {U V : Type 0} (comparator : V → V → ℤ) (formatter : V → Bytes → Option Bytes)
    (show : V → Bytes) (shows : (v : V) (t : Bytes) → formatter v t ≡ append (show v) t)
    (actual : V) where
  pub value-put :
      (v : V) (s : State U)
      → append_value (λ a b. some (comparator a b)) formatter actual v s
        ≡ put (record { holds = s.result; words = show v; user = s.user }) s.text
  value-put v s = rw (shows v s.text) refl

  -- A value of the list: its text, and the comparison unless one before it was equal.
  tested-put :
      (v : V) (s : State U)
      → (append_value (λ a b. some (comparator a b)) formatter actual v s >>= λ s₂.
          if s₂.result
          then some s₂
          else compare_with (λ a b. some (comparator a b)) formatter actual v s₂)
        ≡ put
            (record { holds = s.result || same comparator actual v; words = show v; user = s.user })
            s.text
  tested-put v s =
      let m : Meaning U = record { holds = s.result; words = show v; user = s.user } in
      let n : Meaning U = record m { holds = s.result || same comparator actual v } in
      let f : State U → Option (State U) = λ s₂.
        if s₂.result
        then some s₂
        else compare_with (λ a b. some (comparator a b)) formatter actual v s₂ in
      ap (λ o. o >>= f) (value-put v s)
      ∙ put-step m n s.text f refl
          (λ t. elim (Bool-cases s.result) [ inl b ↦ rw b refl | inr b ↦ rw b refl ])

  next_value-put :
      (i : ℕ) (e : U → V × U) (s : State U)
      → next_value (λ a b. some (comparator a b)) formatter actual i e s
        ≡ put
            (record {
              holds = s.result || same comparator actual (e s.user).0;
              words = (if i == 0 then [] else codes ", ") ++ show (e s.user).0;
              user = (e s.user).1;
            })
            s.text
  unfolding next_value
  next_value-put zero e s = tested-put (e s.user).0 (record s { user = (e s.user).1 })
  next_value-put (suc i) e s =
      let v = (e s.user).0 in
      let later : ltb 0 (suc i) ≡ true = ground arith in
      let not_first : (suc i == 0) ≡ false = ground arith in
      rw (later, not_first)
        (put-bind (record { holds = s.result; words = codes ", "; user = s.user })
          (record {
            holds = s.result || same comparator actual v;
            words = show v;
            user = (e s.user).1;
          })
          s.text
          (λ s₁.
            append_value (λ a b. some (comparator a b)) formatter actual (e s₁.user).0
              (record s₁ { user = (e s₁.user).1 })
            >>= λ s₂.
                if s₂.result
                then some s₂
                else compare_with (λ a b. some (comparator a b)) formatter actual (e s₁.user).0 s₂)
          (λ t l. tested-put v (record { result = s.result; text = t; user = (e s.user).1 })))

  -- The values from an index on.
  abbrev pub listing : ℕ → ℕ → List (U → V × U) → Bool → U → Meaning U
  listing n i es b u =
      let vs = values n es u in
      record {
        holds = b || any_same comparator actual vs.0;
        words = enumerated show (i == 0) vs.0 ++ too_small n es;
        user = vs.1;
      }

  pub any_of_counted-put :
      (n i : ℕ) (es : List (U → V × U)) (s : State U)
      → IsShort s.text
      → any_of_counted (λ a b. some (comparator a b)) formatter actual n i es s
        ≡ put (listing n i es s.result s.user) s.text
  unfolding any_of_counted
  any_of_counted-put zero i es s l =
      let full : leb 0 (length es) ≡ true = ground arith in rw (full, ← or_false s.result) refl
  any_of_counted-put (suc n) i [] s l =
      let room : leb (suc n) 0 ≡ false = ground arith in
      rw (room, ← or_false s.result, append_nil s.text l) refl
  any_of_counted-put (suc n) i (e ∷ es) s l =
      let v = (e s.user).0 in
      let b = s.result || same comparator actual v in
      let first : Bytes = if i == 0 then [] else codes ", " in
      let vs = values n es (e s.user).1 in
      let rest = any_same comparator actual vs.0 in
      let meant : Bool → Bytes → Meaning U = λ h t. record { holds = h; words = t; user = vs.1 } in
      let not_first : (i + 1 == 0) ≡ false = ground arith in
      let more = enumerated show false vs.0 in
      ap (λ o. o >>= any_of_counted (λ a b. some (comparator a b)) formatter actual n (i + 1) es)
        (next_value-put i e s)
      ∙ put-bind (record { holds = b; words = first ++ show v; user = (e s.user).1 })
          (listing n (i + 1) es b (e s.user).1) s.text
          (any_of_counted (λ a b. some (comparator a b)) formatter actual n (i + 1) es)
          (λ t l'.
            any_of_counted-put n (i + 1) es (record { result = b; text = t; user = (e s.user).1 })
              l')
      ∙ ap
          (λ z.
            put
              (meant (b || rest) ((first ++ show v) ++ (enumerated show z vs.0 ++ too_small n es)))
              s.text)
          not_first
      ∙ ap (λ z. put (meant (b || rest) ((first ++ show v) ++ (more ++ z))) s.text)
          (enough_room n e es)
      ∙ ap (λ z. put (meant (b || rest) z) s.text)
          (regroup first (show v) more (too_small (suc n) (e ∷ es)))
      ∙ ap (λ z. put (meant z ((first ++ (show v ++ more)) ++ too_small (suc n) (e ∷ es))) s.text)
          (or_assoc s.result (same comparator actual v) rest)
