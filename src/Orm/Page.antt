-- ===== src/Orm/Page.antt =====
-- crates/kernway-orm-core/src/page.rs: a page of results and the counts beside it.
use kernway.Prelude.{ℕ, ◌+◌, ◌/◌, ◌%◌, ◌^◌, Bool, not, List, [], leb, ltb, ◌==◌, if◌then◌else◌}

pub record Page {ℓ} (A : Type ℓ) : Type ℓ where
  pub items : List A
  pub total : ℕ
  pub page : ℕ
  pub size : ℕ
  pub total_pages : ℕ

-- `u64::div_ceil`
unfoldable pub div_ceil : ℕ → ℕ → ℕ
div_ceil a b = if ltb 0 (a % b) then a / b + 1 else a / b

module _ {ℓ} {A : Type ℓ} where
  abbrev pub new_page : List A → ℕ → ℕ → ℕ → Page A
  new_page items total page size = record {
    items = items;
    total = total;
    page = page;
    size = size;
    total_pages = if size == 0 then 0 else div_ceil total size;
  }

  abbrev pub empty_page : Page A
  empty_page = new_page [] 0 0 20

  -- The sum wraps, where a build with overflow checks would panic.
  unfoldable pub is_last : Page A → Bool
  is_last p = leb p.total_pages ((p.page + 1) % 2 ^ 64)

  unfoldable pub has_next : Page A → Bool
  unfolding is_last
  has_next p = not (is_last p)
