-- ===== src/Engine/SlottedPage/Tests.antt =====
-- Runs of src/storage_engine.c on a page with one record.
use inventixdb.Base.{ℕ, ◌+◌, ◌*◌, ◌≡◌, [], ◌∷◌, List, Bytes, length, replicate, length-replicate}
use inventixdb.Engine.SlottedPage.{
  SlottedPage, page_size, slotted_page_init, slotted_page_free_space, slotted_page_update,
  slotted_page_compact,
}
use inventixdb.Engine.SlottedPage.Slots.{total}
use inventixdb.Engine.SlottedPage.Inv.{IsPage}
use inventixdb.Engine.SlottedPage.Compact.{Compacts, compact-Compacts}
use inventixdb.Engine.SlottedPage.Update.{Updated, update-Updated}
use inventixdb.Engine.SlottedPage.Calls.{
  PageCall, insert, delete, update, compact, page_calls, calls-IsPage, page_calls-IsPage,
  init-IsPage,
}

abbrev zeros : Bytes
zeros = replicate page_size 0

zeros_fill : length zeros ≡ page_size
zeros_fill = length-replicate {A = ℕ} page_size 0

abbrev two_bytes : Bytes
two_bytes = 7 ∷ 8 ∷ []

abbrev one_record : List PageCall
one_record = insert 5 [] ∷ []

-- A page with the record `5` in slot 0
abbrev some_page : SlottedPage
some_page = page_calls zeros (slotted_page_init 3) one_record

some_page-IsPage : IsPage some_page
some_page-IsPage =
    page_calls-IsPage zeros (slotted_page_init 3) one_record zeros_fill (init-IsPage 3)

update-Updated_example :
    Updated some_page 0 two_bytes (slotted_page_update zeros some_page 0 two_bytes)
update-Updated_example = update-Updated zeros some_page 0 two_bytes zeros_fill some_page-IsPage

compact-Compacts_example :
    Compacts some_page (slotted_page_compact zeros some_page)
    × (slotted_page_free_space (slotted_page_compact zeros some_page)
          + total some_page.slots
          + (20 + 4 * length some_page.slots)
        ≡ page_size)
compact-Compacts_example = compact-Compacts zeros some_page zeros_fill some_page-IsPage

abbrev more_calls : List PageCall
more_calls = insert 5 [] ∷ update 0 two_bytes ∷ delete 0 ∷ compact ∷ []

calls-IsPage_example :
    IsPage (page_calls zeros (slotted_page_init 3) more_calls)
    × (slotted_page_free_space (page_calls zeros (slotted_page_init 3) more_calls)
          + (20 + 4 * length (page_calls zeros (slotted_page_init 3) more_calls).slots)
        ≡ (page_calls zeros (slotted_page_init 3) more_calls).free_space_end)
calls-IsPage_example = calls-IsPage zeros 3 more_calls zeros_fill
