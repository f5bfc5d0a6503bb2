-- ===== src/Main/Numbered.antt =====
-- src/list.c with src/main.c: the numbers of the items, and the search for one behind
-- `set_setup_teardown_callbacks`, which hides items that have numbers.
use pcut.Common.{
  ℕ, zero, suc, ◌+◌, ◌≤◌, ◌≡◌, refl, sym, ap, ◌∙◌, subst, true, false, some, List, [], ◌∷◌, arith,
  pos, done, length, has, if◌then◌else◌, Bool-cases, inl, inr, ◌==◌,
}
use pcut.Item.{Addr, Ptr, Store, is_skip}
use pcut.Items.Walk.{Chain, first_real, reals, get_real_next-first_real}
use pcut.Items.Number.{CountsFrom}
use pcut.Items.{get_real}
use pcut.Main.Find.{find_loop, find_by_id}

-- The number of an item, when those that are not hidden are counted from `k` on.
abbrev pub number_of : Store → ℕ → List Addr → Addr → ℕ
number_of m k [] t = k
number_of m k (a ∷ xs) t =
    if t == a then k else number_of m (if is_skip (m a).kind then k else k + 1) xs t

same_addr : (t a : Addr) → t == a ≡ true → a ≡ t
same_addr t a e = ground arith

pub k-number_of : (m : Store) (k : ℕ) (xs : List Addr) (t : Addr) → k ≤ number_of m k xs t
k-number_of m k [] t = omega arith
k-number_of m k (a ∷ xs) t = elim (Bool-cases (t == a)) [
  | inl e ↦ rw e (omega arith)
  | inr e ↦ elim (Bool-cases (is_skip (m a).kind)) [
    | inl s ↦ rw (e, s) (k-number_of m k xs t)
    | inr s ↦ rw (e, s) (omega (arith, k-number_of m (k + 1) xs t))
  ]
]

pub number_of-same :
    (g m : Store) (k : ℕ) (xs : List Addr) (t : Addr)
    → ((x : Addr) → has x xs ≡ true → (g x).kind ≡ (m x).kind)
    → number_of g k xs t ≡ number_of m k xs t
number_of-same g m k [] t e = refl
number_of-same g m k (a ∷ xs) t e =
    ap (λ q. if t == a then k else number_of g (if is_skip q then k else k + 1) xs t)
      (e a (ground arith))
    ∙ ap (λ n. if t == a then k else n)
        (number_of-same g m (if is_skip (m a).kind then k else k + 1) xs t
          (λ x i. e x (ground arith)))

pub number_of-id :
    (g : Store) (k : ℕ) (xs : List Addr) (t : Addr)
    → CountsFrom g k (reals g xs)
    → has t xs ≡ true
    → is_skip (g t).kind ≡ false
    → (g t).id ≡ pos (number_of g k xs t)
number_of-id g k [] t c i r = cc
number_of-id g k (a ∷ xs) t c i r = elim (Bool-cases (t == a)) [
  | inl e ↦
      let real : is_skip (g a).kind ≡ false =
        subst (λ x. is_skip (g x).kind ≡ false) (sym (same_addr t a e)) r in
      let c' : ((g a).id ≡ pos k) × CountsFrom g (k + 1) (reals g xs) = rw real at c in
      rw e (ap (λ x. (g x).id) (sym (same_addr t a e)) ∙ c'.0)
  | inr e ↦
      let later : has t xs ≡ true = ground arith in
      elim (Bool-cases (is_skip (g a).kind)) [
        | inl s ↦ rw (e, s) (number_of-id g k xs t (rw s at c) later r)
        | inr s ↦
            let c' : ((g a).id ≡ pos k) × CountsFrom g (k + 1) (reals g xs) = rw s at c in
            rw (e, s) (number_of-id g (k + 1) xs t c'.1 later r)
      ]
]

get_real-first_real :
    (w : ℕ) (h : Store) (first : Addr) (xs : List Addr)
    → Chain h (some first) xs
    → length xs ≤ w
    → get_real w h (some first) ≡ done (first_real h xs)
unfolding get_real
get_real-first_real w h first [] ch l = cc
get_real-first_real w h first (a ∷ xs) ch l =
    ap (λ p. get_real w h p) (ch.0) ∙ elim (Bool-cases (is_skip (h a).kind)) [
      | inl s ↦ rw s (get_real_next-first_real w h a xs ch.1 (omega arith))
      | inr s ↦ rw s refl
    ]

-- `h` has the numbers of `g` and may hide more.
pub record Hides (g h : Store) (xs : List Addr) : Type 0 where
  pub ids : (x : Addr) → has x xs ≡ true → (h x).id ≡ (g x).id
  pub hidden : (x : Addr) → has x xs ≡ true → is_skip (g x).kind ≡ true → is_skip (h x).kind ≡ true

Hides-behind : (g h : Store) (a : Addr) (xs : List Addr) → Hides g h (a ∷ xs) → Hides g h xs
Hides-behind g h a xs s = record {
  ids = λ x i. s.ids x (ground arith);
  hidden = λ x i. s.hidden x (ground arith);
}

apart : (k n : ℕ) → k + 1 ≤ n → k == n ≡ false
apart k n l = ground arith

find_loop-number_of :
    (w n : ℕ) (g h : Store) (p : Ptr) (xs : List Addr) (k : ℕ) (t : Addr)
    → Chain h p xs
    → Hides g h xs
    → CountsFrom g k (reals g xs)
    → has t xs ≡ true
    → is_skip (h t).kind ≡ false
    → length xs ≤ n
    → length xs ≤ w
    → find_loop w n h (first_real h xs) (pos (number_of g k xs t)) ≡ done (some t)
unfolding find_loop
find_loop-number_of w n g h p [] k t ch s c i r l m = cc
find_loop-number_of w zero g h p (a ∷ xs) k t ch s c i r l m = absurd (omega arith)
find_loop-number_of w (suc n) g h p (a ∷ xs) k t ch s c i r l m =
    let a_in : has a (a ∷ xs) ≡ true = ground arith in
    elim (Bool-cases (t == a)) [
      | inl e ↦
          let real : is_skip (h a).kind ≡ false =
            subst (λ x. is_skip (h x).kind ≡ false) (sym (same_addr t a e)) r in
          let self : k == k ≡ true = ground arith in
          elim (Bool-cases (is_skip (g a).kind)) [
            | inl u ↦ let v = s.hidden a a_in u in cc
            | inr u ↦
                let c' : ((g a).id ≡ pos k) × CountsFrom g (k + 1) (reals g xs) = rw u at c in
                let number : (h a).id ≡ pos k = s.ids a a_in ∙ c'.0 in
                rw (e, real, number, self) (ap (λ x. done (some x)) (same_addr t a e))
          ]
      | inr e ↦
          let later : has t xs ≡ true = ground arith in
          elim (Bool-cases (is_skip (h a).kind)) [
            | inl q ↦ elim (Bool-cases (is_skip (g a).kind)) [
              | inl u ↦
                  rw (e, q, u)
                    (find_loop-number_of w (suc n) g h (h a).next xs k t ch.1
                      (Hides-behind g h a xs s) (rw u at c) later r (omega arith) (omega arith))
              | inr u ↦
                  let c' : ((g a).id ≡ pos k) × CountsFrom g (k + 1) (reals g xs) = rw u at c in
                  rw (e, q, u)
                    (find_loop-number_of w (suc n) g h (h a).next xs (k + 1) t ch.1
                      (Hides-behind g h a xs s) c'.1 later r (omega arith) (omega arith))
            ]
            | inr q ↦ elim (Bool-cases (is_skip (g a).kind)) [
              | inl u ↦ let v = s.hidden a a_in u in cc
              | inr u ↦
                  let c' : ((g a).id ≡ pos k) × CountsFrom g (k + 1) (reals g xs) = rw u at c in
                  let number : (h a).id ≡ pos k = s.ids a a_in ∙ c'.0 in
                  let differs : k == number_of g (k + 1) xs t ≡ false =
                    apart k (number_of g (k + 1) xs t) (k-number_of g (k + 1) xs t) in
                  rw
                    (e, q, u, number, differs, get_real_next-first_real w h a xs ch.1 (omega arith))
                    (find_loop-number_of w n g h (h a).next xs (k + 1) t ch.1
                      (Hides-behind g h a xs s) c'.1 later r (omega arith) (omega arith))
            ]
          ]
    ]

-- `pcut_find_by_id` finds an item that is not hidden by its number, with fuel for the length of the list.
pub find_by_id-number_of :
    (w : ℕ) (g h : Store) (first : Addr) (xs : List Addr) (t : Addr)
    → Chain h (some first) xs
    → Hides g h xs
    → CountsFrom g 1 (reals g xs)
    → has t xs ≡ true
    → is_skip (h t).kind ≡ false
    → length xs ≤ w
    → find_by_id w h (some first) (pos (number_of g 1 xs t)) ≡ done (some t)
unfolding find_by_id
find_by_id-number_of w g h first xs t ch s c i r l =
    rw (get_real-first_real w h first xs ch l)
      (find_loop-number_of w w g h (some first) xs 1 t ch s c i r l l)
