-- ===== src/Main/Plain.antt =====
-- `pcut_main` of src/main.c without options: from the start to the return code.
use pcut.Common.{ℕ, ◌≡◌, refl, some, List, [], ◌∷◌, Bytes, codes, done}
use pcut.Item.{Addr, Func, Store}
use pcut.Items.{fix_list}
use pcut.Macros.{main_extra_set_last}
use pcut.Report.{report_register_handler}
use pcut.Report.State.{Handler, tap_handler, xml_handler}
use pcut.TestRun.{World}
use pcut.Main.{pcut_main, preinit_extras, read_args, init_extras, run_chosen, register}
use pcut.Args.{str_equals, is_arg_with_number}
use pcut.Main.Ends.{Runner, forking, single}
use pcut.Main.Loop.{run_all}
use pcut.Main.Callbacks.{set_setup_teardown_callbacks}

-- The world in which the tests are run.
abbrev pub started : {U : Type 0} → Handler → Store → World U → World U
started handler h w = record w {
  store = h;
  report = record (w.report) { report_ops = some handler };
}

module _ {U : Type 0} (runner : Runner U) (preinit_hook : Func → List Bytes → U → List Bytes × U)
    (init_hook : Func → U → U) (run_here : Runner U) (d n : ℕ) (last first : Addr) (name : Bytes)
    (g h : Store) (w : World U) (flattens : fix_list n d w.store last ≡ done (first, g))
    (extras : (g last).main_extras ≡ some (main_extra_set_last ∷ []))
    (collects : set_setup_teardown_callbacks n g (some first) ≡ done h) where
  -- Without options the tests are all run, in processes of their own.
  pub pcut_main-run_all :
      pcut_main runner preinit_hook init_hook run_here d n last (name ∷ []) w
      ≡ run_all runner forking n (some first) (started tap_handler h w)
  unfolding pcut_main preinit_extras read_args init_extras run_chosen report_register_handler
  pcut_main-run_all = rw (flattens, extras, collects) refl

  -- So they are with `-x`, with the XML report.
  pub pcut_main-run_all_xml :
      pcut_main runner preinit_hook init_hook run_here d n last (name ∷ codes "-x" ∷ []) w
      ≡ run_all runner forking n (some first) (started xml_handler h w)
  unfolding pcut_main preinit_extras read_args init_extras run_chosen report_register_handler
      str_equals is_arg_with_number register
  pcut_main-run_all_xml = rw (flattens, extras, collects) refl

  -- With `-u` they are run in the process of the program.
  pub pcut_main-run_all_single :
      pcut_main runner preinit_hook init_hook run_here d n last (name ∷ codes "-u" ∷ []) w
      ≡ run_all runner single n (some first) (started tap_handler h w)
  unfolding pcut_main preinit_extras read_args init_extras run_chosen report_register_handler
      str_equals is_arg_with_number register
  pcut_main-run_all_single = rw (flattens, extras, collects) refl
