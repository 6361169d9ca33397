-- ===== src/StringPool.antt =====
-- The pool of strings of src/string_pool.c: an open-addressing table of the strings, which lie one after
-- another in pages. The hash table and the pages are the pool's own; what is written replaces them.
-- `base` is the address of the page that malloc gives, when a page is asked for.
pub mod Bytes
pub mod Table
pub mod Insert
pub mod Merge
pub mod Expand
pub mod Intern
pub mod Pages
use cript.Hash.{expand_size}
use cript.Prelude.Run.{Run, ok, wild, ◌>>=◌, ◌>>◌, assert}
use cript.Prelude.{
  ℕ, zero, suc, ◌+◌, ◌-◌, ◌%◌, ◌^◌, Bool, true, false, not, ◌&&◌, ◌==◌, ltb, if◌then◌else◌, bit_and,
  bit_xor, Option, none, some, List, [], ◌∷◌, length, get_or, set, replicate, is_none,
}
use cript.Scan.{scan}
use cript.Word.{word_mod, add, sub, shl, shr}

abbrev pub string_page_size : ℕ
string_page_size = 4096

abbrev pub default_capacity : ℕ
default_capacity = 16

abbrev pub max_short_string_length : ℕ
max_short_string_length = 256

-- `sizeof(StringPage)` and `sizeof(CString)`
abbrev pub page_header : ℕ
page_header = 16

abbrev pub string_header : ℕ
string_header = 4

-- A `CString`, with its address. Its `length` is that of its content.
pub record CString : Type 0 where
  pub address : ℕ
  pub content : List ℕ

-- `struct StringPage`
pub record StringPage : Type 0 where
  pub base : ℕ
  pub allocated : ℕ

pub record StringNode : Type 0 where
  pub key : ℕ
  pub string : Option CString

pub record StringPool : Type 0 where
  pub string_pages : List StringPage
  pub capacity : ℕ
  pub size : ℕ
  pub content : List StringNode

-- what `memset` leaves
abbrev pub empty_node : StringNode
empty_node = record { key = 0; string = none }

-- A `char` as a word: it is signed.
abbrev pub char_to_word : ℕ → ℕ
char_to_word c = if ltb c 128 then c else c + (word_mod - 256)

-- four bytes as a word
abbrev pub word_of : ℕ → ℕ → ℕ → ℕ → ℕ
word_of a b c d = a + shl b 8 + shl c 16 + shl d 24

-- the second loop of `string_hash_vec`, over the last bytes
unfoldable pub tail_loop : ℕ → List ℕ → ℕ
tail_loop ret [] = ret
tail_loop ret (c ∷ cs) = tail_loop (bit_xor (add (shl ret 3) ret) (char_to_word c)) cs

-- the first loop, while more than four bytes are left
unfoldable pub hash_loop : ℕ → List ℕ → ℕ
unfolding tail_loop
hash_loop ret (a ∷ b ∷ c ∷ d ∷ e ∷ cs) =
    hash_loop (bit_xor (add (shl ret 7) ret) (word_of a b c d)) (e ∷ cs)
hash_loop ret cs = tail_loop ret cs

unfoldable pub string_hash_vec : List ℕ → ℕ
unfolding hash_loop
string_hash_vec vec = hash_loop (length vec) vec

-- `memcmp`, and the lengths
unfoldable pub same_bytes : List ℕ → List ℕ → Bool
same_bytes [] [] = true
same_bytes [] (y ∷ ys) = false
same_bytes (x ∷ xs) [] = false
same_bytes (x ∷ xs) (y ∷ ys) = x == y && same_bytes xs ys

unfoldable pub string_hash_need_expand : ℕ → ℕ → Bool
string_hash_need_expand size capacity = ltb (sub capacity (shr capacity 1)) size

abbrev pub is_string : List ℕ → Option CString → Bool
is_string vec none = false
is_string vec (some s) = same_bytes vec s.content

abbrev pub is_occupied : StringNode → Bool
is_occupied node = not (is_none node.string)

-- the loop of `_string_pool_find_hash` goes on at this slot
abbrev pub is_other : ℕ → List ℕ → StringNode → Bool
is_other hash vec node = is_occupied node && not (node.key == hash && is_string vec node.string)

-- After `capacity` rounds every slot has been looked at.
unfoldable pub string_pool_find_hash : StringPool → List ℕ → ℕ → Run (Option CString)
string_pool_find_hash pool vec hash = do
  index ←
      scan empty_node pool.capacity pool.content pool.capacity (is_other hash vec)
        (hash % pool.capacity)
  ok (get_or pool.content index empty_node).string

unfoldable pub string_pool_find_vec : StringPool → List ℕ → Run (Option CString)
unfolding string_pool_find_hash
string_pool_find_vec pool vec = string_pool_find_hash pool vec (string_hash_vec vec)

unfoldable pub string_hash_insert : StringPool → ℕ → CString → Run StringPool
string_hash_insert pool key string = do
  index ← scan empty_node pool.capacity pool.content pool.capacity is_occupied (key % pool.capacity)
  ok (record pool { content = set pool.content index (record { key = key; string = some string }) })

unfoldable pub new_string_page : ℕ → StringPage
new_string_page base = record { base = base; allocated = page_header }

unfoldable pub string_pool_construct : ℕ → ℕ → StringPool
unfolding new_string_page
string_pool_construct base capacity = record {
  string_pages = new_string_page base ∷ [];
  capacity = capacity;
  size = 0;
  content = replicate capacity empty_node;
}

unfoldable pub string_pool_new : ℕ → StringPool
unfolding string_pool_construct
string_pool_new base = string_pool_construct base default_capacity

unfoldable pub insert_node : Option CString → ℕ → StringPool → Run StringPool
insert_node none key ret = ok ret
insert_node (some string) key ret = string_hash_insert ret key string

-- the loop of `_string_expand_pool`
unfoldable pub expand_loop : List StringNode → StringPool → Run StringPool
expand_loop [] ret = ok ret
expand_loop (node ∷ nodes) ret = do
  ret' ← insert_node node.string node.key ret
  expand_loop nodes ret'

-- `list_move` empties the list of the new pool first: its page is lost.
unfoldable pub string_expand_pool : ℕ → StringPool → Run StringPool
unfolding expand_loop
string_expand_pool base original =
    expand_loop original.content
      (record (string_pool_construct base (expand_size original.capacity)) {
        string_pages = original.string_pages;
      })

-- the size of a string in its page: rounded up for the alignment, and always by one byte or more
unfoldable pub string_room : ℕ → ℕ
string_room size = bit_and (add (add size string_header) 4) (word_mod - 4)

-- A string of `size` bytes at the end of a page; the page has that much less room.
unfoldable pub take_from : StringPage → ℕ → ℕ × StringPage
unfolding string_room
take_from page size = (
  add page.base page.allocated,
  record page { allocated = add page.allocated (string_room size) },
)

-- the test of `_string_allocate_in_pool`, on words
unfoldable pub page_is_full : StringPage → ℕ → Bool
page_is_full page size = ltb (sub string_page_size page.allocated) (add size string_header)

-- `_string_allocate_in_pool` on the pages; a pool without a page reads through a null pointer. What the caller then
-- writes there, a header and `size` bytes, may lie behind the end of the page.
unfoldable pub allocate_in_pages : ℕ → List StringPage → ℕ → Run (ℕ × List StringPage)
unfolding take_from page_is_full new_string_page
allocate_in_pages base [] size = wild
allocate_in_pages base (page ∷ pages) size =
    let (new_address, new_page) = take_from (new_string_page base) size in
    let (address, page') = take_from page size in
    if page_is_full page size
    then ok (new_address, new_page ∷ page ∷ pages)
    else (if ltb string_page_size (page.allocated + string_header + size)
        then wild
        else ok (address, page' ∷ pages))

-- `string_pool_insert_vec` for a string that is not in the pool
unfoldable pub add_string : ℕ → StringPool → List ℕ → ℕ → Run (StringPool × CString)
add_string base pool vec hash = do
  pool₁ ←
      (if string_hash_need_expand (pool.size + 1) pool.capacity
        then string_expand_pool base pool
        else ok pool)
  (address, pages) ← allocate_in_pages base pool₁.string_pages (length vec + 1)
  let string : CString = record { address = address; content = vec }
  pool₂ ← string_hash_insert (record pool₁ { string_pages = pages }) hash string
  ok (record pool₂ { size = pool₂.size + 1 }, string)

unfoldable pub find_or_add :
    ℕ → StringPool → List ℕ → ℕ → Option CString → Run (StringPool × CString)
find_or_add base pool vec hash (some found) = ok (pool, found)
find_or_add base pool vec hash none = add_string base pool vec hash

unfoldable pub string_pool_insert_vec : ℕ → StringPool → List ℕ → Run (StringPool × CString)
string_pool_insert_vec base pool vec = do
  assert (ltb (length vec) max_short_string_length)
  let hash = string_hash_vec vec
  found ← string_pool_find_hash pool vec hash
  find_or_add base pool vec hash found
