-- ===== src/Items/Tree.antt =====
-- Static item lists as the macros of include/pcut/tests.h lay them out: each source file is a
-- list of items chained by `previous`, closed by an item of PCUT_EXPORT or PCUT_MAIN, and an item of
-- PCUT_IMPORT points to the closing item of another file.
use pcut.Common.{
  ℕ, suc, ◌<◌, ◌≡◌, refl, ap, ◌∙◌, true, false, none, some, List, [], ◌∷◌, ◌++◌, arith, has,
  has-append, length, append_assoc,
}
use Prim.Native.Nat.{max}
use pcut.Item.{Addr, Ptr, Item, Store, is_nested}

mutual
  pub data Entries : Type 0 where
    nil : Entries
    behind : Entries → Entry → Entries

  pub data Entry : Type 0 where
    plain : Addr → Entry
    empty_import : Addr → Entry
    imports : Addr → Entries → Addr → Entry

abbrev pub addr : Entry → Addr
addr (plain a) = a
addr (empty_import a) = a
addr (imports a es z) = a

abbrev pub last_ptr : Entries → Ptr
last_ptr nil = none
last_ptr (behind es e) = some (addr e)

-- The address at the front of the entries, or that of what follows them.
abbrev pub first_addr : Entries → Addr → Addr
first_addr nil n = n
first_addr (behind es e) n = first_addr es (addr e)

-- All addresses in the order of the source text, those of an imported file behind its import.
unfoldable mutual
  pub flats : Entries → List Addr
  flats nil = []
  flats (behind es e) = flats es ++ flat e

  pub flat : Entry → List Addr
  flat (plain a) = a ∷ []
  flat (empty_import a) = a ∷ []
  flat (imports a es z) = a ∷ (flats es ++ z ∷ [])

abbrev pub file : Entries → Addr → List Addr
file es z = flats es ++ z ∷ []

-- How deep the imports nest.
unfoldable mutual
  pub depths : Entries → ℕ
  depths nil = 0
  depths (behind es e) = max (depths es) (depth e)

  pub depth : Entry → ℕ
  depth (plain a) = 0
  depth (empty_import a) = 0
  depth (imports a es z) = suc (depths es)

-- The store holds these entries.
unfoldable mutual
  pub IsStatic : Store → Entries → Type 0
  IsStatic h nil = Unit {0}
  IsStatic h (behind es e) = ((h (addr e)).previous ≡ last_ptr es) × IsStatic h es × IsEntry h e

  pub IsEntry : Store → Entry → Type 0
  IsEntry h (plain a) = is_nested (h a).kind ≡ false
  IsEntry h (empty_import a) = (is_nested (h a).kind ≡ true) × ((h a).nested ≡ none)
  IsEntry h (imports a es z) =
      (is_nested (h a).kind ≡ true)
      × ((h a).nested ≡ some z)
      × (is_nested (h z).kind ≡ false)
      × ((h z).previous ≡ last_ptr es)
      × IsStatic h es

-- A file whose closing item is `z`.
pub record IsFile (h : Store) (es : Entries) (z : Addr) : Type 0 where
  pub closes : is_nested (h z).kind ≡ false
  pub previous : (h z).previous ≡ last_ptr es
  pub entries : IsStatic h es

has-flat : (e : Entry) → has (addr e) (flat e) ≡ true
unfolding flat
has-flat (plain a) = ground arith
has-flat (empty_import a) = ground arith
has-flat (imports a es z) = ground arith

has-addr : (es : Entries) (e : Entry) → has (addr e) (flats es ++ flat e) ≡ true
has-addr es e = ground (arith, has-append (addr e) (flats es) (flat e), has-flat e)

mutual
  unfolding IsStatic IsEntry flats flat

  pub static_cong :
      (g h : Store) (es : Entries)
      → ((x : Addr) → has x (flats es) ≡ true → g x ≡ h x)
      → IsStatic h es
      → IsStatic g es
  static_cong g h nil e s = tt
  static_cong g h (behind es f) e s = (
    ap (λ (i : Item). i.previous) (e (addr f) (has-addr es f)) ∙ s.0,
    static_cong g h es (λ x m. e x (ground (arith, has-append x (flats es) (flat f)))) s.1,
    entry_cong g h f (λ x m. e x (ground (arith, has-append x (flats es) (flat f)))) s.2,
  )

  pub entry_cong :
      (g h : Store) (f : Entry)
      → ((x : Addr) → has x (flat f) ≡ true → g x ≡ h x)
      → IsEntry h f
      → IsEntry g f
  entry_cong g h (plain a) e s = rw (e a (ground arith)) s
  entry_cong g h (empty_import a) e s = rw (e a (ground arith)) s
  entry_cong g h (imports a es z) e s =
      let at_a : g a ≡ h a = e a (ground arith) in
      let at_z : g z ≡ h z = e z (ground (arith, has-append z (flats es) (z ∷ []))) in
      (
        ap (λ (i : Item). is_nested i.kind) at_a ∙ s.0,
        ap (λ (i : Item). i.nested) at_a ∙ s.1,
        ap (λ (i : Item). is_nested i.kind) at_z ∙ s.2,
        ap (λ (i : Item). i.previous) at_z ∙ s.3,
        static_cong g h es (λ x m. e x (ground (arith, has-append x (flats es) (z ∷ [])))) s.4,
      )

pub flat-head : (e : Entry) (ys : List Addr) → (t : List Addr) × (flat e ++ ys ≡ addr e ∷ t)
unfolding flat
flat-head (plain a) ys = (ys, refl)
flat-head (empty_import a) ys = (ys, refl)
flat-head (imports a es z) ys = ((flats es ++ z ∷ []) ++ ys, refl)

pub flats-head :
    (es : Entries) (n : Addr) (ys : List Addr)
    → (t : List Addr) × (flats es ++ n ∷ ys ≡ first_addr es n ∷ t)
unfolding flats
flats-head nil n ys = (ys, refl)
flats-head (behind es e) n ys =
    let (u, p) = flat-head e (n ∷ ys) in
    let (t, q) = flats-head es (addr e) u in
    (t, append_assoc (flats es) (flat e) (n ∷ ys) ∙ ap (λ zs. flats es ++ zs) p ∙ q)

pub length-flat : (e : Entry) → 0 < length (flat e)
unfolding flat
length-flat (plain a) = omega arith
length-flat (empty_import a) = omega arith
length-flat (imports a es z) = omega arith
