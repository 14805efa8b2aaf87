-- ===== src/Proxies/Filter.antt =====
-- The text filter of the lists, src-tui/src/app/filter.rs. `str::to_lowercase` is an argument.
use clash_verge_cli.Prelude.{
  Bool, true, false, not, ◌&&◌, ◌||◌, Option, none, some, List, [], ◌∷◌, map, eqb, if◌then◌else◌,
  all, any, is_empty, keep, Text, push_front, is_whitespace, trim, ◌>>=◌,
}

unfoldable pub split_blanks : Text → List Text
split_blanks [] = [] ∷ []
split_blanks (c ∷ s) =
    if is_whitespace c then [] ∷ split_blanks s else push_front c (split_blanks s)

-- `split_whitespace`
unfoldable pub words : Text → List Text
words s = keep (λ word. not (is_empty word)) (split_blanks s)

abbrev is_prefix : Text → Text → Bool
is_prefix [] s = true
is_prefix (c ∷ w) [] = false
is_prefix (c ∷ w) (d ∷ s) = eqb c d && is_prefix w s

-- `contains` on texts
abbrev pub occurs : Text → Text → Bool
occurs w [] = is_empty w
occurs w (c ∷ s) = is_prefix w (c ∷ s) || occurs w s

unfoldable pub matches : (Text → Text) → Text → List Text → Bool
matches to_lowercase query fields =
    all (λ word. any (occurs word) (map to_lowercase fields)) (map to_lowercase (words query))

unfoldable pub active : Option Text → Option Text
active query = do query ← query; if is_empty (trim query) then none else some query
