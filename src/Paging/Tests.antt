-- ===== src/Paging/Tests.antt =====
-- A listing in pages.
use pg_agmemory.Prelude.{ℕ, ◌≤◌, ◌≡◌, refl, some, List, [], ◌∷◌, ◌++◌, length}
use pg_agmemory.Paging.{Cursor, page_of}
use pg_agmemory.Paging.Pages.{IsNewestFirst, rows_after, page_of-select}

abbrev row : ℕ → ℕ → Cursor
row at id = record { at = at; id = id }

abbrev listing : List Cursor
listing = row 9 1 ∷ row 5 8 ∷ row 5 2 ∷ []

listing-IsNewestFirst : IsNewestFirst listing
listing-IsNewestFirst = (refl, (refl, tt))

first_page : (page_of 2 listing).next_cursor ≡ some (row 5 8)
unfolding page_of
first_page = refl

page_of-select_example :
    (length (page_of 2 listing).rows ≤ 2)
    × ((page_of 2 listing).rows ++ rows_after (page_of 2 listing).next_cursor listing ≡ listing)
page_of-select_example = page_of-select 1 listing listing-IsNewestFirst
