-- ===== src/Admin/Seeding.antt =====
-- The INSERT of migrations/001_initial.sql on a catalog whose SKUs are distinct: what it adds and what it keeps.
use order_sync.Base.{
  ℕ, ◌+◌, String, Bool, true, false, Option, none, some, List, [], ◌∷◌, ◌++◌, ◌≡◌, refl, sym, ap,
  subst, arith, ◌∙◌, text_eq, text_eq_refl, text_eq→eq, find_row, has_row, find_row-insert,
  Bool-cases, Option-cases, inl, inr,
}
use order_sync.Postgres.Migration.{is_sku, seed_sku, seed}
use order_sync.Postgres.Queries.Skus.{among}
use order_sync.Postgres.Schema.{Category, SkuRow}
use order_sync.Admin.{count_rows, seeded_skus}

-- The primary key of sku_classifications.
unfoldable pub AreDistinct : List SkuRow → Type 0
AreDistinct [] = Unit {0}
AreDistinct (r ∷ rs) = (find_row (is_sku r.sku) rs ≡ none) × AreDistinct rs

abbrev found_count : Option SkuRow → ℕ
found_count none = 0
found_count (some r) = 1

count_rows-none :
    (p : SkuRow → Bool) (rows : List SkuRow) → find_row p rows ≡ none → count_rows p rows ≡ 0
unfolding count_rows find_row
count_rows-none p [] h = refl
count_rows-none p (r ∷ rs) h = ground (arith, count_rows-none p rs)

count_rows-AreDistinct :
    (sku : String) (rows : List SkuRow)
    → AreDistinct rows
    → count_rows (is_sku sku) rows ≡ found_count (find_row (is_sku sku) rows)
unfolding count_rows find_row AreDistinct
count_rows-AreDistinct sku [] distinct = refl
count_rows-AreDistinct sku (r ∷ rs) (fresh, distinct) = elim (Bool-cases (text_eq r.sku sku)) [
  | inl same ↦
      let absent : find_row (is_sku sku) rs ≡ none =
        ap (λ k. find_row (is_sku k) rs) (sym (text_eq→eq r.sku sku same)) ∙ fresh in
      rw (same, count_rows-none (is_sku sku) rs absent) refl
  | inr other ↦ ground (arith, other, count_rows-AreDistinct sku rs distinct)
]

-- The seeded SKUs are three different texts.
abbrev lock : String
lock = "NUKI-SL3"

abbrev bridge : String
bridge = "NUKI-BRIDGE"

abbrev hosting : String
hosting = "NUKI-SMART-HOSTING"

exclusive : (a b x : String) → text_eq a b ≡ false → text_eq x a ≡ true → text_eq x b ≡ false
exclusive a b x differ same = subst (λ y. text_eq y b ≡ false) (sym (text_eq→eq x a same)) differ

seeded-differ :
    (text_eq lock bridge ≡ false)
    × (text_eq lock hosting ≡ false)
    × (text_eq bridge hosting ≡ false)
unfolding text_eq
seeded-differ = (refl, refl, refl)

count_rows-among :
    (rows : List SkuRow)
    → count_rows (λ (r : SkuRow). among seeded_skus r.sku) rows
      ≡ count_rows (is_sku lock) rows
        + count_rows (is_sku bridge) rows
        + count_rows (is_sku hosting) rows
unfolding count_rows among
count_rows-among [] = refl
count_rows-among (r ∷ rs) =
    let (first, second, third) = seeded-differ in
    ground (
      arith,
      exclusive lock bridge r.sku first,
      exclusive lock hosting r.sku second,
      exclusive bridge hosting r.sku third,
      count_rows-among rs,
    )

flipped : (a b : String) → text_eq a b ≡ false → text_eq b a ≡ false
flipped a b differ = elim (Bool-cases (text_eq b a)) [
  | inl same ↦
      let equal : text_eq a b ≡ true = rw (text_eq→eq b a same) (text_eq_refl a) in
      ground (arith, equal, differ)
  | inr other ↦ other
]

insert-AreDistinct :
    (r : SkuRow) (rows : List SkuRow)
    → AreDistinct rows
    → find_row (is_sku r.sku) rows ≡ none
    → AreDistinct (rows ++ r ∷ [])
unfolding AreDistinct find_row
insert-AreDistinct r [] distinct absent = (refl, tt)
insert-AreDistinct r (x ∷ xs) (fresh, distinct) absent = elim (Bool-cases (text_eq x.sku r.sku)) [
  | inl same ↦ ground (arith, same, absent)
  | inr other ↦ (
    find_row-insert (is_sku x.sku) xs r ∙ rw (fresh, flipped x.sku r.sku other) refl,
    insert-AreDistinct r xs distinct (ground (arith, other, absent)),
  )
]

seed_sku-AreDistinct :
    (sku : String) (category : Category) (rows : List SkuRow)
    → AreDistinct rows
    → AreDistinct (seed_sku sku category rows)
unfolding seed_sku has_row
seed_sku-AreDistinct sku category rows distinct = elim (Option-cases (find_row (is_sku sku) rows)) [
  | inl absent ↦ rw absent (insert-AreDistinct _ rows distinct absent)
  | inr (r, found) ↦ rw found distinct
]

-- What is found stays found.
seed_sku-keeps :
    (sku : String) (category : Category) (rows : List SkuRow) (other : String) (r : SkuRow)
    → find_row (is_sku other) rows ≡ some r
    → find_row (is_sku other) (seed_sku sku category rows) ≡ some r
unfolding seed_sku has_row
seed_sku-keeps sku category rows other r found = elim (Option-cases (find_row (is_sku sku) rows)) [
  | inl absent ↦ rw absent (find_row-insert (is_sku other) rows _ ∙ rw found refl)
  | inr (x, there) ↦ rw there found
]

seed_sku-finds :
    (sku : String) (category : Category) (rows : List SkuRow)
    → (r : SkuRow) × (find_row (is_sku sku) (seed_sku sku category rows) ≡ some r)
unfolding seed_sku has_row
seed_sku-finds sku category rows = elim (Option-cases (find_row (is_sku sku) rows)) [
  | inl absent ↦
      let row : SkuRow = record { sku = sku; category = category } in
      (row, rw absent (find_row-insert (is_sku sku) rows row ∙ rw (absent, text_eq_refl sku) refl))
  | inr (r, found) ↦ (r, rw found found)
]

seed-AreDistinct : (rows : List SkuRow) → AreDistinct rows → AreDistinct (seed rows)
unfolding seed
seed-AreDistinct rows distinct =
    seed_sku-AreDistinct hosting _ _
      (seed_sku-AreDistinct bridge _ _ (seed_sku-AreDistinct lock _ rows distinct))

pub seed-keeps :
    (rows : List SkuRow) (sku : String) (r : SkuRow)
    → find_row (is_sku sku) rows ≡ some r
    → find_row (is_sku sku) (seed rows) ≡ some r
unfolding seed
seed-keeps rows sku r found =
    seed_sku-keeps hosting _ _ sku r
      (seed_sku-keeps bridge _ _ sku r (seed_sku-keeps lock _ rows sku r found))

-- Each of the three is in the catalog then.
seed-finds :
    (rows : List SkuRow)
    → ((l : SkuRow) × (find_row (is_sku lock) (seed rows) ≡ some l))
      × ((b : SkuRow) × (find_row (is_sku bridge) (seed rows) ≡ some b))
      × ((h : SkuRow) × (find_row (is_sku hosting) (seed rows) ≡ some h))
unfolding seed
seed-finds rows =
    let one = seed_sku lock Category.hardware rows in
    let two = seed_sku bridge Category.hardware one in
    let (l, found_lock) = seed_sku-finds lock Category.hardware rows in
    let (b, found_bridge) = seed_sku-finds bridge Category.hardware one in
    (
      (
        l,
        seed_sku-keeps hosting Category.digital two lock l
            (seed_sku-keeps bridge Category.hardware one lock l found_lock),
      ),
      (b, seed_sku-keeps hosting Category.digital two bridge b found_bridge),
      seed_sku-finds hosting Category.digital two,
    )

pub seed-counts :
    (rows : List SkuRow)
    → AreDistinct rows
    → count_rows (λ (r : SkuRow). among seeded_skus r.sku) (seed rows) ≡ 3
seed-counts rows distinct =
    let all = seed-AreDistinct rows distinct in
    let ((l, found_lock), (b, found_bridge), (h, found_hosting)) = seed-finds rows in
    count_rows-among (seed rows)
    ∙ rw
        (
          count_rows-AreDistinct lock _ all,
          count_rows-AreDistinct bridge _ all,
          count_rows-AreDistinct hosting _ all,
          found_lock,
          found_bridge,
          found_hosting,
        )
        refl

seed_sku-found :
    (sku : String) (category : Category) (rows : List SkuRow) (r : SkuRow)
    → find_row (is_sku sku) rows ≡ some r
    → seed_sku sku category rows ≡ rows
unfolding seed_sku has_row
seed_sku-found sku category rows r found = rw found refl

-- Seeding again changes nothing.
seed-found :
    (rows : List SkuRow) (l b h : SkuRow)
    → find_row (is_sku lock) rows ≡ some l
    → find_row (is_sku bridge) rows ≡ some b
    → find_row (is_sku hosting) rows ≡ some h
    → seed rows ≡ rows
unfolding seed
seed-found rows l b h found_lock found_bridge found_hosting =
    rw
      (
        seed_sku-found lock Category.hardware rows l found_lock,
        seed_sku-found bridge Category.hardware rows b found_bridge,
      )
      (seed_sku-found hosting Category.digital rows h found_hosting)

pub seed_idem : (rows : List SkuRow) → seed (seed rows) ≡ seed rows
seed_idem rows =
    let ((l, found_lock), (b, found_bridge), (h, found_hosting)) = seed-finds rows in
    seed-found (seed rows) l b h found_lock found_bridge found_hosting
