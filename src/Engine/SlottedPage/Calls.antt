-- ===== src/Engine/SlottedPage/Calls.antt =====
-- Runs of calls on a slotted page (src/storage_engine.c).
use inventixdb.Base.{
  ℕ, ◌+◌, ◌*◌, ◌≡◌, inl, inr, refl, sym, subst, Bool, true, false, List, [], ◌∷◌, Option, none,
  some, arith, Bytes, length, length-replicate,
}
use inventixdb.Engine.SlottedPage.{
  SlottedPage, page_size, slotted_page_init, slotted_page_free_space, slotted_page_insert,
  slotted_page_delete, slotted_page_update, slotted_page_compact,
}
use inventixdb.Engine.SlottedPage.Slots.{total}
use inventixdb.Engine.SlottedPage.Inv.{IsPage, free_space_lem}
use inventixdb.Engine.SlottedPage.Compact.{compact-Compacts}
use inventixdb.Engine.SlottedPage.Laws.{Inserted, insert-Inserted}
use inventixdb.Engine.SlottedPage.Update.{Deleted, Updated, delete-Deleted, update-Updated}

-- The calls that change a page; an insertion of an empty record changes nothing.
pub data PageCall : Type 0 where
  insert : ℕ → Bytes → PageCall
  delete : ℕ → PageCall
  update : ℕ → Bytes → PageCall
  compact : PageCall

-- Each call with the contents of its buffer
unfoldable pub page_call : Bytes → SlottedPage → PageCall → SlottedPage
page_call temp p (insert n bytes) = (slotted_page_insert temp p (n ∷ bytes)).0
page_call temp p (delete i) = (slotted_page_delete p i).0
page_call temp p (update i bytes) = (slotted_page_update temp p i bytes).0
page_call temp p compact = slotted_page_compact temp p

unfoldable pub page_calls : Bytes → SlottedPage → List PageCall → SlottedPage
page_calls temp p [] = p
page_calls temp p (c ∷ cs) = page_calls temp (page_call temp p c) cs

Inserted-IsPage :
    (p : SlottedPage) (bytes : Bytes) (r : SlottedPage × Option ℕ) → Inserted p bytes r → IsPage r.0
Inserted-IsPage p bytes (q, none) h = h.0.kept
Inserted-IsPage p bytes (q, some i) h = h.0.kept

Deleted-IsPage :
    (p : SlottedPage) (i : ℕ) (r : SlottedPage × Bool) → IsPage p → Deleted p i r → IsPage r.0
Deleted-IsPage p i (q, true) ok h = h.0.kept
Deleted-IsPage p i (q, false) ok h = subst IsPage (sym h.0) ok

Updated-IsPage :
    (p : SlottedPage) (i : ℕ) (bytes : Bytes) (r : SlottedPage × Bool)
    → IsPage p
    → Updated p i bytes r
    → IsPage r.0
Updated-IsPage p i bytes (q, true) ok h = h.0.kept
Updated-IsPage p i bytes (q, false) ok (inl h) = subst IsPage (sym h.0) ok
Updated-IsPage p i bytes (q, false) ok (inr h) = h.0.kept

page_call-IsPage :
    (temp : Bytes) (p : SlottedPage) (c : PageCall)
    → length temp ≡ page_size
    → IsPage p
    → IsPage (page_call temp p c)
unfolding page_call
page_call-IsPage temp p (insert n bytes) buffer ok =
    Inserted-IsPage p (n ∷ bytes) (slotted_page_insert temp p (n ∷ bytes))
      (insert-Inserted temp p (n ∷ bytes) buffer ok (omega arith))
page_call-IsPage temp p (delete i) buffer ok =
    Deleted-IsPage p i (slotted_page_delete p i) ok (delete-Deleted p i ok)
page_call-IsPage temp p (update i bytes) buffer ok =
    Updated-IsPage p i bytes (slotted_page_update temp p i bytes) ok
      (update-Updated temp p i bytes buffer ok)
page_call-IsPage temp p compact buffer ok = (compact-Compacts temp p buffer ok).0.kept

pub init-IsPage : (id : ℕ) → IsPage (slotted_page_init id)
unfolding slotted_page_init total
init-IsPage id = record {
  size = length-replicate {A = ℕ} page_size 0;
  start = refl;
  room = omega arith;
  inside = tt;
  apart = tt;
  fits = omega arith;
  fresh = inr refl;
  few = omega arith;
}

pub page_calls-IsPage :
    (temp : Bytes) (p : SlottedPage) (cs : List PageCall)
    → length temp ≡ page_size
    → IsPage p
    → IsPage (page_calls temp p cs)
unfolding page_calls
page_calls-IsPage temp p [] buffer ok = ok
page_calls-IsPage temp p (c ∷ cs) buffer ok =
    page_calls-IsPage temp (page_call temp p c) cs buffer (page_call-IsPage temp p c buffer ok)

-- After any calls on a new page the directory ends before the records, which lie in the page apart from
-- each other, and the subtraction of the free space does not wrap: it is what lies between the directory
-- with one more entry and the records. The temporary buffer has the size of a page.
pub calls-IsPage :
    (temp : Bytes) (id : ℕ) (cs : List PageCall)
    → length temp ≡ page_size
    → IsPage (page_calls temp (slotted_page_init id) cs)
      × (slotted_page_free_space (page_calls temp (slotted_page_init id) cs)
            + (20 + 4 * length (page_calls temp (slotted_page_init id) cs).slots)
          ≡ (page_calls temp (slotted_page_init id) cs).free_space_end)
calls-IsPage temp id cs buffer =
    let ok = page_calls-IsPage temp (slotted_page_init id) cs buffer (init-IsPage id) in
    (ok, free_space_lem (page_calls temp (slotted_page_init id) cs) ok)
