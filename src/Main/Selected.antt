-- ===== src/Main/Selected.antt =====
-- src/main.c with src/os: a program that is started to run one test, by the argument that src/os/windows.c,
-- src/os/generic.c and src/os/helenos.c give it.
use pcut.Common.{
  ℕ, ◌≤◌, ◌<◌, ◌≡◌, refl, sym, ap, ◌∙◌, true, false, some, List, [], ◌∷◌, ◌++◌, Bytes, codes, arith,
  pos, length, decimal, done, ltb, has, AllDistinct, Bool-cases, inl, inr,
}
use pcut.Item.{Addr, Func, Store, Kind, test, testsuite, is_skip, is_test, is_testsuite}
use pcut.Items.{fix_list}
use pcut.Items.Tree.{Entries, IsFile, file, first_addr, depths}
use pcut.Macros.{main_extra_set_last}
use pcut.Report.{report_register_handler}
use pcut.Report.State.{tap_handler}
use pcut.TestRun.{World}
use pcut.Args.{str_equals}
use pcut.Args.Numbers.{is_arg_with_number-decimal}
use pcut.Main.{
  Options, default_options, pcut_main, preinit_extras, read_args, init_extras, run_chosen,
  run_one_test,
}
use pcut.Main.Callbacks.{set_setup_teardown_callbacks}
use pcut.Main.Declared.{declared, AllAlike}
use pcut.Main.Ends.{Runner, forking, from_result}
use pcut.Main.Find.{find_by_id}
use pcut.Main.Numbered.{number_of, number_of-id, number_of-same, k-number_of, find_by_id-number_of}
use pcut.Main.Plain.{started}
use pcut.Main.Prepared.{Prepared, file-Prepared}
use pcut.Main.Program.{shown_items}

-- The items of a program and their numbers, behind all that changes the list.
module _ {U : Type 0} (d n : ℕ) (es : Entries) (z : Addr) (w : World U) (h : Store)
    (p : Prepared n d w.store es z h) (t : Addr) (i : has t (file es z) ≡ true)
    (real : is_skip (h t).kind ≡ false) where
  abbrev pub number : ℕ
  number = number_of (shown_items w.store) 1 (file es z) t

  same_number : number_of p.list 1 (file es z) t ≡ number
  same_number = number_of-same p.list (shown_items w.store) 1 (file es z) t p.kinds

  listed : is_skip (p.list t).kind ≡ false
  listed = elim (Bool-cases (is_skip (p.list t).kind)) [
    | inl s ↦ let v = p.hides.hidden t i s in cc
    | inr s ↦ s
  ]

  pub item-number : (h t).id ≡ pos number
  item-number =
      p.hides.ids t i ∙ number_of-id p.list 1 (file es z) t p.ids i listed ∙ ap pos same_number

  pub found :
      length (file es z) ≤ n → find_by_id n h (some (first_addr es z)) (pos number) ≡ done (some t)
  found l =
      ap (λ m. find_by_id n h (some (first_addr es z)) (pos m)) (sym same_number)
      ∙ find_by_id-number_of n p.list h (first_addr es z) (file es z) t p.chain p.hides p.ids i real
          l

  pub positive : ltb 0 number ≡ true
  positive = let l = k-number_of (shown_items w.store) 1 (file es z) t in ground arith

pub is_test-real : (k : Kind) → is_test k ≡ true → is_skip k ≡ false
is_test-real test e = refl
is_test-real _ e = cc

pub is_testsuite-real : (k : Kind) → is_testsuite k ≡ true → is_skip k ≡ false
is_testsuite-real testsuite e = refl
is_testsuite-real _ e = cc

module _ {U : Type 0} (runner : Runner U) (preinit_hook : Func → List Bytes → U → List Bytes × U)
    (init_hook : Func → U → U) (run_here : Runner U) where
  abbrev selected : ℕ → Options
  selected i = record (default_options runner preinit_hook init_hook) { run_only_test = pos i }

  -- The way of `pcut_main` with the argument for one test.
  pcut_main-run_one_test :
      (d n : ℕ) (last first : Addr) (name : Bytes) (g h : Store) (w : World U) (i : ℕ)
      → fix_list n d w.store last ≡ done (first, g)
      → (g last).main_extras ≡ some (main_extra_set_last ∷ [])
      → set_setup_teardown_callbacks n g (some first) ≡ done h
      → ltb 0 i ≡ true
      → pcut_main runner preinit_hook init_hook run_here d n last
          (name ∷ (codes "-t" ++ decimal i) ∷ [])
          w
        ≡ run_one_test runner preinit_hook init_hook run_here n
            (some first)
            (selected i)
            (started tap_handler h w)
  unfolding pcut_main preinit_extras read_args init_extras run_chosen report_register_handler
      str_equals
  pcut_main-run_one_test d n last first name g h w i flattens extras collects positive =
      let read = is_arg_with_number-decimal i in
      rw (flattens, extras, read.0, read.1, collects, positive) refl

  -- A program that is started with the argument `-t` and the number of a test, as src/os gives it
  -- and the listing prints it, prepares its items, which are then those that the source declares,
  -- as far as a run tells items apart, finds that test, though set-up and tear-down items with
  -- numbers are hidden by then, and runs it and no other by the way to run a test in its own
  -- process. The conditions are that the items are laid out as the macros do it at different
  -- addresses, without hooks or a choice of the report, that the fuel covers the nesting of the
  -- imports and the number of the items, and that the test is one of the items and not marked to
  -- be skipped.
  pub pcut_main-one_test :
      (d n : ℕ) (es : Entries) (z t : Addr) (name : Bytes) (w : World U)
      → IsFile w.store es z
      → AllDistinct (file es z)
      → depths es < d
      → length (file es z) ≤ n
      → (w.store z).main_extras ≡ some (main_extra_set_last ∷ [])
      → has t (file es z) ≡ true
      → is_test (declared (shown_items w.store) (file es z) t).kind ≡ true
      → (let i = number_of (shown_items w.store) 1 (file es z) t in
          (h : Store) × AllAlike h (declared (shown_items w.store) (file es z)) (file es z)
          × ((h t).id ≡ pos i)
          × (pcut_main runner preinit_hook init_hook run_here d n z
                (name ∷ (codes "-t" ++ decimal i) ∷ [])
                w
              ≡ from_result (run_here forking t (started tap_handler h w))))
  unfolding run_one_test
  pcut_main-one_test d n es z t name w f ds dp l extras i one =
      let (h, p) = file-Prepared n d w.store es z f ds dp l in
      let is_one : is_test (h t).kind ≡ true = ap (λ k. is_test k) (p.same t i).kind ∙ one in
      let real = is_test-real (h t).kind is_one in
      (
        h,
        p.same,
        item-number d n es z w h p t i real,
        pcut_main-run_one_test d n z (first_addr es z) name p.list h w
              (number d n es z w h p t i real) p.flattens (p.main_extras ∙ extras) p.collects
              (positive d n es z w h p t i real)
            ∙ rw (found d n es z w h p t i real l, is_one) refl,
      )
