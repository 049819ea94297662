-- ===== src/Pages.antt =====
-- The pages of src/order/queries/handlers/order.handlers.ts, src/saga/saga-manager.service.ts and
-- their controllers: `.skip((page - 1) * limit).take(limit).getManyAndCount()`, `findAndCount` and
-- `Math.ceil(total / limit)`. `page` and `limit` are not negative.
pub mod Cover
pub mod Rows
use nestjs_cqrs_saga.Prelude.{
  ℕ, zero, suc, ◌+◌, ◌-◌, ◌*◌, ◌/◌, String, Bool, Option, none, some, List,
}
use nestjs_cqrs_saga.Outcome.{Outcome, ok, err, Error}
use nestjs_cqrs_saga.Table.{Repository}

-- `(page - 1) * limit`, or nothing where that is negative.
abbrev pub skip_of : (page limit : ℕ) → Option ℕ
skip_of zero zero = some 0
skip_of zero (suc limit) = none
skip_of (suc page) limit = some (page * limit)

-- `Math.ceil(total / limit)`, or nothing for `Infinity` and `NaN`, which JSON writes as `null`.
abbrev pub total_pages : (total limit : ℕ) → Option ℕ
total_pages total zero = none
total_pages total (suc n) = some ((total + n) / suc n)

-- A page of the rows that match, the newest first, and how many match.
abbrev pub find_and_count :
    {Row : Type 0} {key : Row → String}
    → Repository key
    → Error
    → (Row → Bool)
    → (page limit : ℕ) → List Row
    → Outcome (List Row × ℕ)
find_and_count repository negative_offset test page limit t = elim (skip_of page limit) [
  | none ↦ err negative_offset
  | some skip ↦ ok (repository.find_page test skip limit t, repository.count_rows test t)
]
