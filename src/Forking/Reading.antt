-- ===== src/Forking/Reading.antt =====
-- `read_all` of src/os/unix.c.
use pcut.Common.{
  ℕ, zero, suc, ◌-◌, ◌≤◌, ◌<◌, ◌≡◌, refl, sym, ap, ◌∙◌, Bool, false, List, [], ◌∷◌, ◌++◌, Bytes,
  arith, append-nil, length, take, drop, replicate, length-take, ◌==◌, Bool-cases, inl, inr,
}
use pcut.Forking.{read_loop, strip_newline, read_all}

-- Everything that arrives.
abbrev pub joined : List Bytes → Bytes
joined [] = []
joined (o ∷ os) = o ++ joined os

-- No `read` comes back empty before the end.
abbrev pub AllArrive : List Bytes → Type 0
AllArrive [] = Unit {0}
AllArrive (o ∷ os) = (0 < length o) × AllArrive os

abbrev pub ends_line : Bytes → Bool
ends_line [] = false
ends_line (b ∷ []) = b == 10
ends_line (b ∷ c ∷ bs) = ends_line (c ∷ bs)

pub take-append : (n : ℕ) (xs ys : Bytes) → take n (xs ++ ys) ≡ take n xs ++ take (n - length xs) ys
take-append zero xs ys = let e : 0 - length xs ≡ 0 = omega arith in rw e refl
take-append (suc n) [] ys = let e : suc n - 0 ≡ suc n = omega arith in rw e refl
take-append (suc n) (x ∷ xs) ys =
    let e : suc n - suc (length xs) ≡ n - length xs = omega arith in
    rw e (ap (λ t. x ∷ t) (take-append n xs ys))

pub take-all : (n : ℕ) (xs : Bytes) → length xs ≤ n → take n xs ≡ xs
take-all zero [] l = refl
take-all (suc n) [] l = refl
take-all zero (x ∷ xs) l = absurd (omega arith)
take-all (suc n) (x ∷ xs) l = ap (λ t. x ∷ t) (take-all n xs (omega arith))

pub drop-replicate : (k n : ℕ) (a : ℕ) → drop k (replicate n a) ≡ replicate (n - k) a
drop-replicate zero n a = let e : n - 0 ≡ n = omega arith in rw e refl
drop-replicate (suc k) zero a = let e : 0 - suc k ≡ 0 = omega arith in rw e refl
drop-replicate (suc k) (suc n) a =
    let e : suc n - suc k ≡ n - k = omega arith in rw e (drop-replicate k n a)

read_offer :
    (o : Bytes) (os : List Bytes) (size : ℕ)
    → 0 < length o
    → read_loop os (size - length o) ≡ take (size - length o) (joined os)
    → read_loop (o ∷ os) size ≡ take size (o ++ joined os)
unfolding read_loop
read_offer o os zero l ih = refl
read_offer o os (suc n) l ih =
    let size = suc n in
    let got = length-take size o in
    let some_bytes : (length (take size o) == 0) ≡ false = ground (arith, got) in
    let left : size - length (take size o) ≡ size - length o = omega (arith, got) in
    elim (Bool-cases ((size - length o) == 0)) [
      | inl full ↦
          let none_left : size - length o ≡ 0 = ground arith in
          rw (some_bytes, left, full)
            (sym (take-append size o (joined os) ∙ rw none_left (append-nil (take size o))))
      | inr room ↦ rw (some_bytes, left, room, ih) (sym (take-append size o (joined os)))
    ]

-- The loop reads what arrives up to the size of the buffer.
pub read_loop-take :
    (offers : List Bytes) (size : ℕ)
    → AllArrive offers
    → read_loop offers size ≡ take size (joined offers)
unfolding read_loop
read_loop-take [] zero a = refl
read_loop-take [] (suc n) a = refl
read_loop-take (o ∷ os) size a = read_offer o os size a.0 (read_loop-take os (size - length o) a.1)

pub strip_newline-kept : (xs : Bytes) → ends_line xs ≡ false → strip_newline xs ≡ (xs, length xs)
unfolding strip_newline
strip_newline-kept [] e = refl
strip_newline-kept (b ∷ []) e = rw e refl
strip_newline-kept (b ∷ c ∷ bs) e = rw (strip_newline-kept (c ∷ bs) e) refl

-- With nothing on the pipe the buffer stays as it is.
pub read_all-nothing : (buffer : Bytes) (size : ℕ) → read_all [] buffer size ≡ (buffer, 0)
unfolding read_all read_loop strip_newline
read_all-nothing buffer size = refl

-- `read_all` puts what arrives at the start of the buffer, unless it does not fit or ends in a newline.
pub read_all-joined :
    (offers : List Bytes) (buffer : Bytes) (size : ℕ)
    → AllArrive offers
    → length (joined offers) ≤ size
    → ends_line (joined offers) ≡ false
    → read_all offers buffer size
      ≡ (joined offers ++ drop (length (joined offers)) buffer, length (joined offers))
unfolding read_all
read_all-joined offers buffer size a l e =
    rw
      (
        read_loop-take offers size a,
        take-all size (joined offers) l,
        strip_newline-kept (joined offers) e,
      )
      refl
