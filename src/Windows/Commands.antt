-- ===== src/Windows/Commands.antt =====
-- The command line of src/os/windows.c is cut off behind 254 bytes.
use pcut.Common.{
  ℕ, ◌-◌, ◌≡◌, refl, ap, ◌∙◌, sym, [], ◌∷◌, ◌++◌, Bytes, codes, arith, length, take, pos, decimal,
}
use pcut.Item.{Item}
use pcut.Windows.{format_command}
use pcut.Forking.Reading.{take-append, take-all}

-- With a path of 248 bytes the command line has room for one digit of the number only: tests whose
-- numbers begin with the same digit get the same command line.
pub format_command-first_digit :
    (self_path : Bytes) (s t : Item) (m n d : ℕ) (x y : Bytes)
    → length self_path ≡ 248
    → s.id ≡ pos m
    → t.id ≡ pos n
    → decimal m ≡ d ∷ x
    → decimal n ≡ d ∷ y
    → format_command self_path s ≡ format_command self_path t
unfolding format_command
format_command-first_digit self_path s t m n d x y l e f p q = rw (e, f, p, q) (cut x ∙ sym (cut y))
  where
    tail : (z : Bytes) → take 5 (codes "\" -t" ++ d ∷ z) ≡ codes "\" -t" ++ d ∷ []
    tail z = refl

    cut :
        (z : Bytes)
        → take 254 (codes "\"" ++ (self_path ++ (codes "\" -t" ++ d ∷ z)))
          ≡ codes "\"" ++ (self_path ++ (codes "\" -t" ++ d ∷ []))
    cut z =
        let all : take 253 self_path ≡ self_path = take-all 253 self_path (omega (arith, l)) in
        let left : 253 - length self_path ≡ 5 = omega (arith, l) in
        ap (λ u. codes "\"" ++ u)
          (take-append 253 self_path (codes "\" -t" ++ d ∷ z)
            ∙ rw (all, left) (ap (λ u. self_path ++ u) (tail z)))
