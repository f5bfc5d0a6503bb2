-- ===== src/Playground/Meanings.antt =====
-- contrib/playground/assert_that_fmt.c: what the matchers mean, apart from the buffer.
use pcut.Common.{
  ℕ, zero, suc, ◌<◌, Bool, true, false, not, ◌||◌, List, [], ◌∷◌, ◌++◌, ℤ, pos, int_eq, Bytes,
  codes, leb, if◌then◌else◌, length,
}
use pcut.Playground.Typed.{Matcher, is_equal, is_not, is_any_of, custom}

-- What a matcher tests, how it describes itself, and the state behind its expressions.
pub record Meaning (U : Type 0) : Type 0 where
  pub holds : Bool
  pub words : Bytes
  pub user : U

-- The values of expressions from left to right, at most `n`, and the state behind them.
abbrev pub values : {U V : Type 0} → ℕ → List (U → V × U) → U → List V × U
values zero es u = ([], u)
values (suc n) [] u = ([], u)
values (suc n) (e ∷ es) u = let rest = values n es (e u).1 in ((e u).0 ∷ rest.0, rest.1)

-- Their texts, with commas between.
abbrev pub enumerated : {V : Type 0} → (V → Bytes) → Bool → List V → Bytes
enumerated show first [] = []
enumerated show first (v ∷ vs) =
    (if first then [] else codes ", ") ++ (show v ++ enumerated show false vs)

-- The complaint on as many values as there is room for, or more.
abbrev pub too_small : {A : Type 0} → ℕ → List A → Bytes
too_small n es =
    if leb n (length es) then codes " !!! INTERNAL ERROR (PCUT_IS_ANY_OF too small) !!! " else []

module _ {V : Type 0} (comparator : V → V → ℤ) (actual : V) where
  abbrev pub same : V → Bool
  same v = int_eq (comparator actual v) (pos 0)

  abbrev pub any_same : List V → Bool
  any_same [] = false
  any_same (v ∷ vs) = same v || any_same vs

module _ {U V : Type 0} (comparator : V → V → ℤ) (show : V → Bytes) (actual : V) where
  abbrev pub meaning : Matcher U V → U → Meaning U
  meaning (is_equal e) u = record {
    holds = same comparator actual (e u).0;
    words = codes "equal to " ++ show (e u).0;
    user = (e u).1;
  }
  meaning (is_not m) u =
      let inner = meaning m u in
      record {
        holds = not inner.holds;
        words = (codes "not (" ++ inner.words) ++ codes ")";
        user = inner.user;
      }
  meaning (is_any_of es) u =
      let vs = values 7 es u in
      record {
        holds = any_same comparator actual vs.0;
        words = (codes "any of { " ++ (enumerated show true vs.0 ++ too_small 7 es)) ++ codes " }";
        user = vs.1;
      }
  meaning (custom test description) u = record {
    holds = test actual;
    words = description;
    user = u;
  }

-- The text of an assertion, and the line that is printed.
abbrev pub sentence : Bytes → Bytes → Bytes → Bytes → Bytes
sentence actual_text shown_value matcher_name words =
    ((((codes "Expected " ++ (actual_text ++ codes " is ")) ++ words) ++ codes " but got ")
      ++ shown_value)
    ++ (codes " [" ++ (matcher_name ++ codes "]."))

abbrev pub line : Bool → Bytes → Bytes
line holds text = (if not holds then codes "ERROR: " else codes " OKAY: ") ++ (text ++ codes "\n")

-- PCUT_IS_ANY_OF can count its arguments.
abbrev pub AreCounted : {U V : Type 0} → Matcher U V → Type 0
AreCounted (is_equal e) = Unit {0}
AreCounted (is_not m) = AreCounted m
AreCounted (is_any_of es) = (0 < length es) × (length es < 12)
AreCounted (custom test description) = Unit {0}
