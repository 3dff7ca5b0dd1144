-- ===== src/Tests/Keyed.antt =====
-- Witnesses and runs for the bytes of keys.
use tree.Prelude.{◌≡◌, [], ◌∷◌, arith, refl, compare, Ordering}
use tree.Node.Bytes.{lex}
use tree.Node.Update.{word_of}
use tree.Keys.Fold.{byte_swap, fold_u64, fold_u32, fold_s64, unfold_u64, unfold_u32}
use tree.Keys.Order.{fold-lex}
use tree.Keys.Signed.{signed_compare, fold_s64-lex}

fold-lex_example :
    (lex (fold_u64 256) (fold_u64 255) ≡ compare 256 255)
    × (unfold_u64 (word_of (fold_u64 256)) ≡ 256)
    × (lex (fold_u32 7) (fold_u32 70000) ≡ compare 7 70000)
    × (unfold_u32 (word_of (fold_u32 7)) ≡ 7)
fold-lex_example = fold-lex 256 255 7 70000 (omega arith) (omega arith) (omega arith) (omega arith)

fold_u32_run : fold_u32 70000 ≡ 0 ∷ 1 ∷ 17 ∷ 112 ∷ []
unfolding fold_u32 byte_swap word_of
fold_u32_run = refl

-- -1 and 5.
fold_s64-lex_example :
    lex (fold_s64 18446744073709551615) (fold_s64 5) ≡ signed_compare 18446744073709551615 5
fold_s64-lex_example = fold_s64-lex 18446744073709551615 5 (omega arith) (omega arith)

signed_compare_run : signed_compare 18446744073709551615 5 ≡ Ordering.lt
unfolding signed_compare
signed_compare_run = refl
