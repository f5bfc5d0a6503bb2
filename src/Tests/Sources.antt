-- ===== src/Tests/Sources.antt =====
-- Source files, before and behind the macros.
use pcut.Common.{decimal, leb, ◌&&◌, Bool, ℕ, ◌≡◌, refl, some, List, [], ◌∷◌, codes, arith}
use pcut.Macros.{Source, declares, pcut_init, pcut_test}
use pcut.Args.{str_equals}
use pcut.Preproc.{preprocess}
use pcut.Preproc.Pieces.{Piece, ArePieces, preprocess-expanded}

-- Letters and digits in the C locale, as far as the input below has them.
abbrev is_upper : ℕ → Bool
is_upper c = leb b'A' c && leb c b'Z'

abbrev is_decimal : ℕ → Bool
is_decimal c = leb b'0' c && leb c b'9'

abbrev numbered : List Piece
numbered =
    (codes "A1", b' ')
    ∷ (codes "PCUT_ITEM_NAME_PREV", b' ')
    ∷ (codes "PCUT_ITEM_COUNTER_INCREMENT", b';')
    ∷ (codes "PCUT_ITEM_NAME_PREV", b';')
    ∷ ([], b'1')
    ∷ []

numbered-ArePieces : ArePieces is_upper is_decimal numbered
numbered-ArePieces = (
  (refl, (refl, tt), omega arith),
  refl,
  (
    (
      refl,
      (
        refl,
        (
          refl,
          (
            refl,
            (
              refl,
              (
                refl,
                (
                  refl,
                  (
                    refl,
                    (
                      refl,
                      (
                        refl,
                        (refl, (refl, (refl, (refl, (refl, (refl, (refl, (refl, (refl, tt))))))))),
                      ),
                    ),
                  ),
                ),
              ),
            ),
          ),
        ),
      ),
      omega arith,
    ),
    refl,
    (
      (
        refl,
        (
          refl,
          (
            refl,
            (
              refl,
              (
                refl,
                (
                  refl,
                  (
                    refl,
                    (
                      refl,
                      (
                        refl,
                        (
                          refl,
                          (
                            refl,
                            (
                              refl,
                              (
                                refl,
                                (
                                  refl,
                                  (
                                    refl,
                                    (
                                      refl,
                                      (
                                        refl,
                                        (
                                          refl,
                                          (
                                            refl,
                                            (
                                              refl,
                                              (
                                                refl,
                                                (refl, (refl, (refl, (refl, (refl, (refl, tt)))))),
                                              ),
                                            ),
                                          ),
                                        ),
                                      ),
                                    ),
                                  ),
                                ),
                              ),
                            ),
                          ),
                        ),
                      ),
                    ),
                  ),
                ),
              ),
            ),
          ),
        ),
        omega arith,
      ),
      refl,
      (
        (
          refl,
          (
            refl,
            (
              refl,
              (
                refl,
                (
                  refl,
                  (
                    refl,
                    (
                      refl,
                      (
                        refl,
                        (
                          refl,
                          (
                            refl,
                            (
                              refl,
                              (refl, (refl, (refl, (refl, (refl, (refl, (refl, (refl, tt)))))))),
                            ),
                          ),
                        ),
                      ),
                    ),
                  ),
                ),
              ),
            ),
          ),
          omega arith,
        ),
        refl,
        (tt, refl, tt),
      ),
    ),
  ),
)

preprocess-expanded_example :
    preprocess is_upper is_decimal
      (codes "A1 PCUT_ITEM_NAME_PREV PCUT_ITEM_COUNTER_INCREMENT;PCUT_ITEM_NAME_PREV;1B")
    ≡ some (codes "A1 pcut_item_-1 ;pcut_item_0;1B\n")
unfolding str_equals decimal
preprocess-expanded_example =
    preprocess-expanded is_upper is_decimal numbered (codes "B") numbered-ArePieces
      (refl, tt, omega arith)

abbrev pub main_file : Source
main_file = declares (pcut_init 1 2) 3 (pcut_test (codes "a") 7 [])
