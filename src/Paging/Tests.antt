-- ===== src/Paging/Tests.antt =====
-- Ten numbers in pages of up to four, and in pages that the caller chose.
use pcodec.Common.{ℕ, ◌^◌, ◌≤◌, ◌<◌, ◌≡◌, refl, arith, List, [], ◌∷◌, length, All, ◌⊎◌}
use pcodec.Errors.{ok, err, panic, invalid_argument}
use pcodec.Ans.Spec.{sum}
use pcodec.Paging.{equal_pages_up_to, exact, n_per_page}
use pcodec.Paging.Pages.{IsPage, n_per_page-IsPage, n_per_page-exact}

n_per_page-IsPage_example :
    (pages : List ℕ) × (n_per_page (equal_pages_up_to 4) 10 ≡ ok pages)
    × (sum pages ≡ 10)
    × (length pages ≡ 3)
    × All (IsPage 3 4) pages
n_per_page-IsPage_example = n_per_page-IsPage 4 10 (omega arith) (omega arith) (omega arith)

abbrev too_large : List ℕ
too_large = 2 ^ 63 ∷ 2 ^ 63 ∷ 5 ∷ []

n_per_page-exact_example :
    ((n_per_page (exact too_large) 5 ≡ ok too_large)
      × (sum too_large < 2 ^ 64)
      × (sum too_large ≡ 5)
      × All (λ p. 0 < p) too_large)
    ⊎ (((n_per_page (exact too_large) 5 ≡ err invalid_argument)
          × (sum too_large < 2 ^ 64)
          × ¬ ((sum too_large ≡ 5) × All (λ p. 0 < p) too_large))
        ⊎ ((n_per_page (exact too_large) 5 ≡ panic) × (2 ^ 64 ≤ sum too_large)))
n_per_page-exact_example = n_per_page-exact too_large 5

equal_pages_of_ten : n_per_page (equal_pages_up_to 4) 10 ≡ ok (4 ∷ 3 ∷ 3 ∷ [])
unfolding n_per_page
equal_pages_of_ten = refl
