-- ===== src/Loaders/Pages.antt =====
-- EcommerceApiDataLoader._pagerange (course_discovery/apps/course_metadata/data_loaders/api.py): the
-- pages to request after the first. `count / PAGE_SIZE` is exact below 2 ^ 53, and the page size is
-- positive.
pub mod Cover
use course_discovery_ed_uhk.Base.{ℕ, zero, suc, ◌+◌, ◌-◌, ◌/◌, List, [], ◌∷◌}

-- `int(math.ceil(count / self.PAGE_SIZE))`
unfoldable pub pages : ℕ → ℕ → ℕ
pages page_size count = (count + page_size - 1) / page_size

-- `n` numbers from `start` on
unfoldable pub count_up : ℕ → ℕ → List ℕ
count_up start zero = []
count_up start (suc n) = start ∷ count_up (start + 1) n

-- `range(self.initial_page + 1, pages + 1)`, where `initial_page` is 1
unfoldable pub pagerange : ℕ → ℕ → List ℕ
unfolding pages count_up
pagerange page_size count = count_up 2 (pages page_size count - 1)
