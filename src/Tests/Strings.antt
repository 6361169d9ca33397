-- ===== src/Tests/Strings.antt =====
-- Runs of the string pool of src/string_pool.c, and of the lexer of src/parse.c with it.
use cript.Hash.{expand_size}
use cript.Lex.Pooled.{intern_value, IsPoolUpTo, lex_peak-IsPool}
use cript.Lex.Peak.{lex_peak}
use cript.Lex.Progress.{IsStep}
use cript.Lex.{LexState, at_place}
use cript.Prelude.Run.{Run, ok, ◌>>=◌, Ends, Returns}
use cript.Prelude.{arith, ℕ, zero, suc, ◌+◌, ◌*◌, ◌/◌, ◌%◌, ◌≤◌, ◌≡◌, refl, false, List, [], ◌∷◌}
use cript.Scan.{scan}
use cript.StringPool.Expand.{Expanded, string_expand_pool-Expanded}
use cript.StringPool.Insert.{Inserted, string_hash_insert-Inserted}
use cript.StringPool.Intern.{IsOpen, string_pool_new-IsPool}
use cript.StringPool.Pages.{IsPage, take_from_bounds, take_from-page_is_full}
use cript.StringPool.Table.{holds, string_pool_find_vec-holds}
use cript.StringPool.{
  CString, StringPage, StringPool, tail_loop, hash_loop, string_hash_vec, same_bytes,
  string_hash_need_expand, string_pool_find_hash, string_pool_find_vec, string_hash_insert,
  new_string_page, string_pool_construct, string_pool_new, insert_node, expand_loop,
  string_expand_pool, string_room, take_from, page_is_full, allocate_in_pages, add_string,
  find_or_add, string_pool_insert_vec,
}
use cript.Word.{word_mod}

pooling : Unit {0}
unfolding tail_loop hash_loop string_hash_vec same_bytes string_hash_need_expand scan
    string_pool_find_hash string_pool_find_vec string_hash_insert new_string_page
    string_pool_construct string_pool_new insert_node expand_loop string_expand_pool string_room
    take_from page_is_full allocate_in_pages add_string find_or_add string_pool_insert_vec
    expand_size
pooling = tt

-- the addresses of the strings, interned one after another
abbrev addresses : StringPool → List (List ℕ) → Run (List ℕ)
addresses pool [] = ok []
addresses pool (v ∷ vs) = string_pool_insert_vec 16384 pool v >>= λ r.
    addresses r.0 vs >>= λ rest. ok (r.1.address ∷ rest)

-- The third string is the first one again.
interned_once :
    addresses (string_pool_new 8192) ((97 ∷ 98 ∷ []) ∷ (99 ∷ []) ∷ (97 ∷ 98 ∷ []) ∷ [])
    ≡ ok (8208 ∷ 8216 ∷ 8208 ∷ [])
unfolding pooling
interned_once = refl

abbrev letters : ℕ → List (List ℕ)
letters zero = []
letters (suc n) = (n ∷ []) ∷ letters n

-- The ninth string makes the pool expand; its page stays.
expanded_once :
    addresses (string_pool_new 8192) (letters 9)
    ≡ ok (8208 ∷ 8216 ∷ 8224 ∷ 8232 ∷ 8240 ∷ 8248 ∷ 8256 ∷ 8264 ∷ 8272 ∷ [])
unfolding pooling
expanded_once = refl

string_pool_find_vec-holds_example :
    string_pool_find_vec (string_pool_new 8192) (97 ∷ [])
    ≡ ok (holds (string_pool_new 8192).content (97 ∷ []))
string_pool_find_vec-holds_example =
    string_pool_find_vec-holds {k = 4} {p = string_pool_new 8192}
      (string_pool_new-IsPool 8192).0.table
      (omega (arith, (string_pool_new-IsPool 8192).0.counted, (string_pool_new-IsPool 8192).0.half))
      (97 ∷ [])

abbrev letter : CString
letter = record { address = 8208; content = 97 ∷ [] }

string_hash_insert-Inserted_example :
    Returns
      (string_hash_insert (string_pool_new 8192) (string_hash_vec (97 ∷ [])) letter)
      (Inserted 4 (string_pool_new 8192) letter)
string_hash_insert-Inserted_example =
    string_hash_insert-Inserted {k = 4} {p = string_pool_new 8192}
      (string_pool_new-IsPool 8192).0.table letter
      (omega (arith, (string_pool_new-IsPool 8192).0.counted, (string_pool_new-IsPool 8192).0.half))
      ((string_pool_new-IsPool 8192).1 (97 ∷ []))

string_expand_pool-Expanded_example :
    Returns (string_expand_pool 16384 (string_pool_new 8192)) (Expanded 5 (string_pool_new 8192))
string_expand_pool-Expanded_example =
    string_expand_pool-Expanded 4 16384 (string_pool_new 8192) (omega arith)
      (string_pool_new-IsPool 8192).0.table
      (omega (arith, (string_pool_new-IsPool 8192).0.counted, (string_pool_new-IsPool 8192).0.half))

new_pool-IsOpen : IsOpen (string_pool_new 8192).string_pages
unfolding pooling
new_pool-IsOpen = record {
  page = record { base = 8192; allocated = 16 };
  others = [];
  listed = refl;
  inside = record { header = omega arith; inside = omega arith; aligned = omega arith };
}

abbrev page : ℕ → StringPage
page mark = record { base = 8192; allocated = mark }

page-IsPage : IsPage (page 16) × IsPage (page 4088)
page-IsPage = (
  record { header = omega arith; inside = omega arith; aligned = omega arith },
  record { header = omega arith; inside = omega arith; aligned = omega arith },
)

has_room : page_is_full (page 16) 3 ≡ false
unfolding pooling
has_room = refl

take_from_bounds_example :
    (16 + 4 + 3 ≤ 4096)
    × ((take_from (page 16) 3).1.allocated ≡ 16 + (3 + 8) / 4 * 4)
    × ((take_from (page 16) 3).1.allocated ≤ 4100)
take_from_bounds_example = take_from_bounds (page 16) 3 page-IsPage.0 (omega arith) has_room

take_from-page_is_full_example :
    (page_is_full (page 4088) 4 ≡ false)
    × (page_is_full (take_from (page 4088) 4).1 200 ≡ false)
    × ((take_from (take_from (page 4088) 4).1 200).0 ≡ (8192 + 4100) % word_mod)
take_from-page_is_full_example =
    take_from-page_is_full (page 4088) 4 200 page-IsPage.1 (omega arith) refl refl (omega arith)

-- a+
abbrev start : LexState StringPool
start = record {
  place = at_place 1 0 (97 ∷ 43 ∷ []);
  string_pool = string_pool_new 8192;
  peaking_token = 0;
  peaking_value = 0;
}

lex_peak-IsPool_example :
    Ends
      (lex_peak (intern_value 16384) start)
      (λ r. (r.0 ≡ r.1.peaking_token) × IsStep start r.1 × IsPoolUpTo 4 r.1.string_pool)
lex_peak-IsPool_example =
    lex_peak-IsPool 16384 4 start (omega arith) (string_pool_new-IsPool 8192).0 new_pool-IsOpen refl
