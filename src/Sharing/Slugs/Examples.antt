-- ===== src/Sharing/Slugs/Examples.antt =====
-- Drawing a slug from concrete bytes.
use sintade.Prelude.{ℕ, ◌≡◌, refl, List, [], ◌∷◌, some, none, ok, arith}
use sintade.Prelude.Text.{Text, codes}
use sintade.Sharing.Slugs.{generate, parse_slug}
use sintade.Sharing.Slugs.Draws.{generate-parse_slug}

-- A round of seven bytes, of which one is not used.
abbrev random : ℕ → List ℕ
random round = round ∷ 10 ∷ 248 ∷ 61 ∷ 62 ∷ 247 ∷ 100 ∷ []

generate_two : generate random 2 ≡ ok (codes "0Az0zc1Az0zc")
unfolding generate
generate_two = refl

no_slug : parse_slug (codes "0Az0zc1Az0z-") ≡ none
unfolding parse_slug
no_slug = refl

generate-parse_slug_example :
    (slug : Text) × (generate random 2 ≡ ok slug) × (parse_slug slug ≡ some slug)
generate-parse_slug_example = generate-parse_slug random 2 (omega arith)
