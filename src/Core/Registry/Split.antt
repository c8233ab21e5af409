-- ===== src/Core/Registry/Split.antt =====
-- `split_string` on the texts that its comment shows.
use unicens2_driver.Common.{◌≡◌, none, some, [], ◌∷◌, ◌++◌, refl}
use unicens2_driver.Core.Text.{Text, colon, newline, Lacks, cut-end, cut-append}
use unicens2_driver.Core.Registry.{split_string, is_colon, is_end}

-- For an interface without a colon, and a channel and a name without colon and newline: the three
-- parts are found with and without the newline behind them; without a name the third part is empty
-- before a newline, and missing at the end of the text; and a text without a colon is refused.
pub split-parts :
    (a b c : Text)
    → Lacks is_colon a
    → Lacks is_end b
    → Lacks is_end c
    → (split_string (a ++ colon ∷ (b ++ colon ∷ (c ++ newline ∷ []))) ≡ some (a, b, some c))
      × (split_string (a ++ colon ∷ (b ++ colon ∷ c)) ≡ some (a, b, some c))
      × (split_string (a ++ colon ∷ (b ++ newline ∷ [])) ≡ some (a, b, some []))
      × (split_string (a ++ colon ∷ b) ≡ some (a, b, none))
      × (split_string a ≡ none)
unfolding split_string
split-parts a b c ha hb hc = (
  rw
      (
        cut-append is_colon a (b ++ colon ∷ (c ++ newline ∷ [])) colon ha refl,
        cut-append is_end b (c ++ newline ∷ []) colon hb refl,
        cut-append is_end c [] newline hc refl,
        split_string,
      )
      refl,
  rw
      (
        cut-append is_colon a (b ++ colon ∷ c) colon ha refl,
        cut-append is_end b c colon hb refl,
        cut-end is_end c hc,
        split_string,
      )
      refl,
  rw
      (
        cut-append is_colon a (b ++ newline ∷ []) colon ha refl,
        cut-append is_end b [] newline hb refl,
        split_string,
      )
      refl,
  rw (cut-append is_colon a b colon ha refl, cut-end is_end b hb, split_string) refl,
  rw (cut-end is_colon a ha, split_string) refl,
)
