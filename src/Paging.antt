-- ===== src/Paging.antt =====
-- PagingSpec of pco/src/chunk_config.rs: how the numbers of a chunk are divided into pages.
pub mod Pages
mod Tests
use pcodec.Common.{
  ℕ, suc, zero, ◌+◌, ◌-◌, ◌*◌, ◌/◌, ◌%◌, if◌then◌else◌, leb, ◌==◌, ◌||◌, Bool, true, false, List,
  [], ◌∷◌, ◌++◌, length, drop, replicate, not,
}
use pcodec.Errors.{Result, ok, err, panic, ◌>>=◌, ◌>>◌, invalid_argument}
use pcodec.Traps.{add_to}

pub data PagingSpec : Type 0 where
  equal_pages_up_to : ℕ → PagingSpec
  exact : List ℕ → PagingSpec

abbrev pub div_ceil : ℕ → ℕ → ℕ
div_ceil n d = (n + d - 1) / d

-- `res[..r].fill(v)`.
unfoldable pub fill_prefix : ℕ → ℕ → List ℕ → Result (List ℕ)
fill_prefix r v res = if leb r (length res) then ok (replicate r v ++ drop r res) else panic

-- The assertion, of a debug build, is a panic where it fails; so is the division by zero.
unfoldable pub equal_pages : ℕ → ℕ → Result (List ℕ)
unfolding fill_prefix add_to
equal_pages max_page_n n =
    if max_page_n == 0
    then panic
    else (let n_pages = div_ceil n max_page_n in
        let page_n_low = n / n_pages in
        let r = n % n_pages in
        add_to 64 page_n_low 1 >>= λ page_n_high.
        if r == 0 || leb page_n_high max_page_n
        then fill_prefix r page_n_high (replicate n_pages page_n_low)
        else panic)

-- The loop over the pages, none of which may be empty.
unfoldable pub check_pages : List ℕ → Result (Unit {0})
check_pages [] = ok tt
check_pages (page_n ∷ pages) = if page_n == 0 then err invalid_argument else check_pages pages

-- The sum of the pages, as the source's `sum` on usize takes it.
unfoldable pub sum_from : ℕ → List ℕ → Result ℕ
unfolding add_to
sum_from acc [] = ok acc
sum_from acc (page_n ∷ pages) = do acc' ← add_to 64 acc page_n; sum_from acc' pages

unfoldable pub check_paging : List ℕ → ℕ → Result (List ℕ)
unfolding check_pages sum_from
check_paging pages n = do
  summed_n ← sum_from 0 pages
  (if not (summed_n == n) then err invalid_argument else (check_pages pages >> ok pages))

unfoldable pub n_per_page : PagingSpec → ℕ → Result (List ℕ)
unfolding equal_pages check_paging
n_per_page (equal_pages_up_to max_page_n) n =
    if n == 0 then ok [] else (do pages ← equal_pages max_page_n n; check_paging pages n)
n_per_page (exact pages) n = check_paging pages n
