-- ===== src/StringPool/Pages.antt =====
-- The pages of src/string_pool.c: where a string is put, and how a page comes to be overfull.
use cript.Prelude.{ℕ, ◌+◌, ◌*◌, ◌/◌, ◌%◌, ◌≤◌, ◌≡◌, false, arith}
use cript.StringPool.{StringPage, string_room, take_from, page_is_full}
use cript.Word.Bits.{bit_and_minus_four}
use cript.Word.{word_mod, add}

-- A page that has not been written past its end.
pub record IsPage (page : StringPage) : Type 0 where
  pub header : 16 ≤ page.allocated
  pub inside : page.allocated ≤ 4096
  pub aligned : page.allocated % 4 ≡ 0

string_room_lem : (size : ℕ) → size ≤ 256 → string_room size ≡ (size + 8) / 4 * 4
unfolding string_room
string_room_lem size h =
    let e = bit_and_minus_four (add (add size 4) 4) (omega arith) in omega (arith, e)

-- In a page that has not been written past its end, a string of up to 256 bytes, for which the page is not full, ends
-- inside the page; the mark of the page moves up by the bytes of the string with its header, rounded up to a multiple of 4
-- that is more, and is at most 4 behind the end of the page.
pub take_from_bounds :
    (page : StringPage) (size : ℕ)
    → IsPage page
    → size ≤ 256
    → page_is_full page size ≡ false
    → (page.allocated + 4 + size ≤ 4096)
      × ((take_from page size).1.allocated ≡ page.allocated + (size + 8) / 4 * 4)
      × ((take_from page size).1.allocated ≤ 4100)
unfolding page_is_full take_from
take_from_bounds page size v small room =
    let e = string_room_lem size small in
    let fits : page.allocated + 4 + size ≤ 4096 = ground (arith, room, v.inside) in
    (fits, omega (arith, e, v.inside), omega (arith, e, v.aligned, v.inside))

-- A string of up to 252 bytes, a multiple of 4, that fills a page exactly moves its mark behind the end of the page; and
-- then the page counts as not full for every string of up to 256 bytes, which is put behind the end of the page.
pub take_from-page_is_full :
    (page : StringPage) (size next : ℕ)
    → IsPage page
    → size ≤ 252
    → size % 4 ≡ 0
    → page.allocated + 4 + size ≡ 4096
    → next ≤ 256
    → (page_is_full page size ≡ false)
      × (page_is_full (take_from page size).1 next ≡ false)
      × ((take_from (take_from page size).1 next).0 ≡ (page.base + 4100) % word_mod)
unfolding page_is_full take_from
take_from-page_is_full page size next v small whole exact le =
    let e = string_room_lem size (omega arith) in
    let full : add page.allocated (string_room size) ≡ 4100 = omega (arith, e) in
    (ground (arith, exact), rw full (ground arith), rw full (omega arith))
