-- ===== src/Main/Prepared.antt =====
-- src/list.c with src/main.c: a program from the items that its macros define to the list that
-- `pcut_main` goes through.
use pcut.Common.{
  ℕ, subst, ◌≤◌, ◌<◌, ◌≡◌, refl, sym, ap, ◌∙◌, true, some, none, List, [], ◌∷◌, arith, length, done,
  has, has-append, AllDistinct,
}
use pcut.Item.{Addr, Store, Kind, skip, is_skip}
use pcut.Items.Number.{CountsFrom}
use pcut.Main.Numbered.{Hides}
use pcut.Items.Walk.{Chain, reals}
use pcut.Items.Links.{Back, Chain-cong, Back-cong}
use pcut.Items.Tree.{Entries, IsFile, file, flats, first_addr, depths}
use pcut.Items.Flatten.{Flattened, fix_list-Flattened}
use pcut.Items.{fix_list}
use pcut.Main.Callbacks.{set_setup_teardown_callbacks}
use pcut.Main.Collected.Final.{set_setup_teardown_callbacks-final}
use pcut.Main.Program.{shown_items}
use pcut.Main.Declared.{
  declared, Alike, AllAlike, declared-Alike, declared-next, declared-previous, declared-id,
  declared-kind_skip,
}

-- The items behind `set_setup_teardown_callbacks`, for a list that may be empty.
collected :
    (w : ℕ) (g : Store) (first : Addr) (xs : List Addr)
    → Chain g (some first) xs
    → AllDistinct xs
    → length xs ≤ w
    → (h : Store) × (set_setup_teardown_callbacks w g (some first) ≡ done h)
      × ((x : Addr) → has x xs ≡ true → h x ≡ declared g xs x)
collected w g first [] c d l = cc
collected w g first (a ∷ xs) c d l =
    let (h, runs, inside, outside) = set_setup_teardown_callbacks-final w g a xs c.1 d l in
    (h, ap (λ p. set_setup_teardown_callbacks w g p) c.0 ∙ runs, inside)

Flattened-AllAlike :
    (before g : Store) (xs : List Addr) (first : Addr)
    → Flattened before g xs first
    → AllAlike g (shown_items before) xs
Flattened-AllAlike before g xs first fl x i = record {
  kind = fl.kinds x i;
  name = (fl.settled x i).name;
  test_func = (fl.settled x i).test_func;
  setup_func = (fl.settled x i).setup_func;
  teardown_func = (fl.settled x i).teardown_func;
}

is_skip-skip : (k : Kind) → is_skip k ≡ true → k ≡ skip
is_skip-skip skip e = refl
is_skip-skip _ e = cc

-- The list of the items of a file, when the set-up and tear-down functions are in their suites.
pub record Prepared (n d : ℕ) (before : Store) (es : Entries) (z : Addr) (h : Store) : Type 0 where
  pub list : Store
  pub flattens : fix_list n d before z ≡ done (first_addr es z, list)
  pub main_extras : (list z).main_extras ≡ (before z).main_extras
  pub collects : set_setup_teardown_callbacks n list (some (first_addr es z)) ≡ done h
  pub same : AllAlike h (declared (shown_items before) (file es z)) (file es z)
  pub chain : Chain h (some (first_addr es z)) (file es z)
  pub back : Back h none (file es z)
  pub ids : CountsFrom list 1 (reals list (file es z))
  pub kinds : (x : Addr) → has x (file es z) ≡ true → (list x).kind ≡ (shown_items before x).kind
  pub hides : Hides list h (file es z)

pub file-Prepared :
    (n d : ℕ) (before : Store) (es : Entries) (z : Addr)
    → IsFile before es z
    → AllDistinct (file es z)
    → depths es < d
    → length (file es z) ≤ n
    → (h : Store) × Prepared n d before es z h
file-Prepared n d before es z f ds dp l =
    let items = file es z in
    let first = first_addr es z in
    let (g, flattens, fl) = fix_list-Flattened n d before es z f ds dp l in
    let (h, collects, ready) = collected n g first items fl.chain ds l in
    let z_in : has z items ≡ true = ground (arith, has-append z (flats es) (z ∷ [])) in
    (
      h,
      record {
        list = g;
        flattens = flattens;
        main_extras = (fl.settled z z_in).main_extras;
        collects = collects;
        same = λ x i.
            subst (λ it. Alike it (declared (shown_items before) items x)) (sym (ready x i))
              (declared-Alike g (shown_items before) items
                (Flattened-AllAlike before g items first fl) x i);
        chain =
            Chain-cong h g (some first) items
              (λ x i. ap (λ it. it.next) (ready x i) ∙ declared-next g items x) fl.chain;
        back =
            Back-cong h g none items
              (λ x i. ap (λ it. it.previous) (ready x i) ∙ declared-previous g items x) fl.back;
        ids = fl.ids;
        kinds = fl.kinds;
        hides = record {
          ids = λ x i. ap (λ it. it.id) (ready x i) ∙ declared-id g items x;
          hidden = λ x i s.
              ap (λ it. is_skip it.kind) (ready x i)
              ∙ ap is_skip (declared-kind_skip g items x (is_skip-skip (g x).kind s));
        };
      },
    )
