-- ===== src/Platform/Limits/Examples.antt =====
-- Three logins a minute, with a call of another key in between.
use sintade.Prelude.{ℕ, ◌≡◌, refl, List, [], ◌∷◌, min, All}
use sintade.Prelude.Text.{Text, codes}
use sintade.Platform.Limits.{Check, window_start_of}
use sintade.Platform.Limits.Windows.{attempts, allowed, FitsWindow, allowed-attempts}

abbrev login_of : Text → ℕ → Check
login_of key now = record { key = key; window_s = 60; limit = 3; now = now }

abbrev ada : Text
ada = codes "ada"

abbrev one_minute : List Check
one_minute =
    login_of ada 120
    ∷ login_of ada 130
    ∷ login_of (codes "bob") 135
    ∷ login_of ada 140
    ∷ login_of ada 179
    ∷ []

three_of_four : allowed ada one_minute [] ≡ 3
unfolding allowed
three_of_four = refl

next_minute : allowed ada (login_of ada 119 ∷ login_of ada 120 ∷ []) [] ≡ 2
unfolding allowed
next_minute = refl

in_window : All (FitsWindow ada 3 120) one_minute
unfolding window_start_of
in_window = (
  (λ _. (refl, refl)),
  ((λ _. (refl, refl)), ((λ h. cc), ((λ _. (refl, refl)), ((λ _. (refl, refl)), tt)))),
)

allowed-attempts_example :
    allowed ada one_minute [] ≡ min (min 2147483647 3) (attempts ada one_minute)
allowed-attempts_example = allowed-attempts ada 3 120 one_minute [] in_window refl
