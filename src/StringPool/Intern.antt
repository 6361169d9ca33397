-- ===== src/StringPool/Intern.antt =====
-- `string_pool_insert_vec` of src/string_pool.c: each content has one string in the pool.
use native.Mathlib.Nat.{pow-suc}
use cript.Hash.Mask.{pow-le}
use cript.Prelude.Run.{Run, ok, Returns}
use cript.StringPool.Pages.{IsPage, take_from_bounds}
use cript.Prelude.{
  ℕ, zero, suc, ◌+◌, ◌/◌, ◌%◌, ◌^◌, ◌≤◌, ◌<◌, ◌≡◌, refl, sym, ap, subst, ◌∙◌, true, false, ltb,
  if◌then◌else◌, inl, inr, none, some, List, ◌∷◌, length, arith, Bool-cases, Option-cases, by_test,
}
use cript.StringPool.Bytes.{same_bytes-eq}
use cript.StringPool.Expand.{string_expand_pool-Expanded, construct-IsTable}
use cript.StringPool.Insert.{string_hash_insert-Inserted, none≢some, some_injective}
use cript.StringPool.Table.{
  holds, holds-content, count_strings, IsTable, string_pool_find_vec-holds,
}
use cript.StringPool.{
  CString, StringPage, StringPool, string_hash_vec, same_bytes, string_hash_need_expand,
  string_pool_find_vec, string_pool_construct, string_pool_new, string_expand_pool,
  allocate_in_pages, add_string, find_or_add, string_pool_insert_vec, page_is_full, take_from,
}
use cript.Word.Bits.{pow_pos}

-- A pool of `2 ^ k` slots. Its counter starts again at 0 when the pool expands, and so bounds the number of
-- strings only together with half of the slots; eight slots are left empty.
pub record IsPool (k : ℕ) (p : StringPool) : Type 0 where
  pub table : IsTable k p
  pub least : 4 ≤ k
  pub half : p.size ≤ 2 ^ k / 2
  pub counted : count_strings p.content + 8 ≤ p.size + 2 ^ k / 2
  pub paged : 0 < length p.string_pages

-- The page at the head of the list has not been written past its end. A string that fills it exactly leaves it otherwise.
pub record IsOpen (pages : List StringPage) : Type 0 where
  pub page : StringPage
  pub others : List StringPage
  pub listed : pages ≡ page ∷ others
  pub inside : IsPage page

-- A new pool is well formed and holds nothing.
pub string_pool_new-IsPool :
    (base : ℕ)
    → IsPool 4 (string_pool_new base)
      × ((v : List ℕ) → holds (string_pool_new base).content v ≡ none)
unfolding string_pool_new string_pool_construct
string_pool_new-IsPool base =
    let (t, nothing, none_yet) = construct-IsTable 4 16 base (omega arith) refl in
    (
      record {
        table = t;
        least = omega arith;
        half = omega arith;
        counted = omega (arith, none_yet);
        paged = omega arith;
      },
      nothing,
    )

-- The pool `p'` has the string `s` for the content `v`, and is otherwise as `p`.
pub record Interned (k : ℕ) (p : StringPool) (v : List ℕ) (p' : StringPool) (s : CString)
    : Type 0 where
  pub valid : IsPool k p'
  pub content : s.content ≡ v
  pub reads :
      (w : List ℕ) → holds p'.content w ≡ (if same_bytes w v then some s else holds p.content w)
  pub stays : (q : CString) → holds p.content v ≡ some q → (p' ≡ p) × (s ≡ q)

-- room for one more, before the string is put in
record Roomy (k : ℕ) (p q : StringPool) : Type 0 where
  table : IsTable k q
  least : 4 ≤ k
  reads : (v : List ℕ) → holds q.content v ≡ holds p.content v
  half : q.size + 1 ≤ 2 ^ k / 2
  counted : count_strings q.content + 8 ≤ q.size + 2 ^ k / 2
  paged : 0 < length q.string_pages
  same_pages : q.string_pages ≡ p.string_pages

pow_even : (k : ℕ) → 4 ≤ k → 2 ^ k % 2 ≡ 0
pow_even zero h = absurd (omega arith)
pow_even (suc k) h = omega (arith, pow-suc 2 k)

need_less :
    (n size : ℕ) → n % 2 ≡ 0 → n ≤ 2 ^ 31 → string_hash_need_expand size n ≡ false → size ≤ n / 2
unfolding string_hash_need_expand
need_less n size even le h = ground (arith, even, h)

need_more :
    (n size : ℕ) → n % 2 ≡ 0 → n ≤ 2 ^ 31 → string_hash_need_expand size n ≡ true → n / 2 < size
unfolding string_hash_need_expand
need_more n size even le h = ground (arith, even, h)

-- The first line of `add_string`: the pool is expanded, if that is needed.
make_room :
    (k base : ℕ) (p : StringPool)
    → k ≤ 30
    → IsPool k p
    → (k' : ℕ) × (k' ≤ suc k)
      × Returns
          (if string_hash_need_expand (p.size + 1) p.capacity
            then string_expand_pool base p
            else ok p)
          (Roomy k' p)
make_room k base p hi v =
    let even = pow_even k v.least in
    let big = pow-le k 31 (omega arith) in
    let at_width = ap (string_hash_need_expand (p.size + 1)) (sym v.table.width) in
    elim (Bool-cases (string_hash_need_expand (p.size + 1) p.capacity)) [
      | inr stay ↦
          let less = need_less (2 ^ k) (p.size + 1) even big (at_width ∙ stay) in
          (
            k,
            omega arith,
            (
              p,
              rw stay refl,
              record {
                table = v.table;
                least = v.least;
                reads = λ w. refl;
                half = omega (arith, less);
                counted = v.counted;
                paged = v.paged;
                same_pages = refl;
              },
            ),
          )
      | inl grow ↦
          let more = need_more (2 ^ k) (p.size + 1) even big (at_width ∙ grow) in
          let lo = pow-le 4 k v.least in
          let (r, run, e) =
            string_expand_pool-Expanded k base p hi v.table
              (omega (arith, v.counted, v.half, even)) in
          (
            suc k,
            omega arith,
            (
              r,
              rw grow run,
              record {
                table = e.valid;
                least = omega (arith, v.least);
                reads = e.reads;
                half = omega (arith, e.no_size, pow-suc 2 k, lo);
                counted =
                    omega (arith, e.counted, e.no_size, v.counted, v.half, pow-suc 2 k, even, more);
                paged = rw e.same_pages v.paged;
                same_pages = e.same_pages;
              },
            ),
          )
    ]

allocate_total :
    (base : ℕ) (pages : List StringPage) (size : ℕ)
    → IsOpen pages
    → size ≤ 256
    → Returns (allocate_in_pages base pages size) λ r. 0 < length r.1
unfolding allocate_in_pages take_from
allocate_total base pages size o small = rw o.listed (
    by_test (λ (m : Run (ℕ × List StringPage)). Returns m λ r. 0 < length r.1)
      (page_is_full o.page size) (λ _. (_, refl, omega arith))
      (λ room.
        let (fits, _, _) = take_from_bounds o.page size o.inside small room in
        let inside : ltb 4096 (o.page.allocated + 4 + size) ≡ false = ground (arith, fits) in
        (
          ((take_from o.page size).0, (take_from o.page size).1 ∷ o.others),
          rw inside refl,
          omega arith,
        )))

-- The pages and the counter are no part of the table.
IsTable-same :
    {k : ℕ} {p : StringPool} (t : IsTable k p) (pages : List StringPage) (size : ℕ)
    → IsTable k (record p { string_pages = pages; size = size })
IsTable-same t pages size = record {
  small = t.small;
  width = t.width;
  slots = t.slots;
  keyed = t.keyed;
  placed = t.placed;
}

-- A string that the pool does not hold is added.
add_string-Interned :
    (k base : ℕ) (p : StringPool) (v : List ℕ)
    → k ≤ 30
    → IsPool k p
    → IsOpen p.string_pages
    → length v < 256
    → holds p.content v ≡ none
    → (k' : ℕ) × (k' ≤ suc k)
      × Returns (add_string base p v (string_hash_vec v)) λ r. Interned k' p v r.0 r.1
unfolding add_string
add_string-Interned k base p v hi valid o short absent =
    let (k', le, (q, grown, room)) = make_room k base p hi valid in
    let ((address, pages), taken, some_page) =
      allocate_total base q.string_pages (length v + 1) (subst IsOpen (sym room.same_pages) o)
        (omega arith) in
    let s : CString = record { address = address; content = v } in
    let (r, put, i) =
      string_hash_insert-Inserted (IsTable-same room.table pages q.size) s
        (omega (arith, room.counted, room.half, pow_pos k')) (room.reads v ∙ absent) in
    (
      k',
      le,
      (
        (record r { size = r.size + 1 }, s),
        rw (grown, taken, put) refl,
        record {
          valid = record {
            table = IsTable-same i.valid r.string_pages (r.size + 1);
            least = room.least;
            half = omega (arith, room.half, i.same_size);
            counted = omega (arith, room.counted, i.counted, i.same_size);
            paged = rw i.same_pages some_page;
          };
          content = refl;
          reads = λ w. i.reads w ∙ ap (λ o. if same_bytes w v then some s else o) (room.reads w);
          stays = λ x e. absurd (none≢some (sym absent ∙ e));
        },
      ),
    )

found_lem :
    (k : ℕ) (p : StringPool) (v : List ℕ) (s : CString)
    → IsPool k p
    → holds p.content v ≡ some s
    → Interned k p v p s
found_lem k p v s valid e = record {
  valid = valid;
  content = holds-content p.content v s e;
  reads = λ w. elim (Bool-cases (same_bytes w v)) [
    | inl same ↦ ap (holds p.content) (same_bytes-eq w v same) ∙ e ∙ sym (rw same refl)
    | inr apart ↦ rw apart refl
  ];
  stays = λ q h. (refl, some_injective (sym e ∙ h));
}

pub string_pool_insert_vec-Interned :
    (k base : ℕ) (p : StringPool) (v : List ℕ)
    → k ≤ 30
    → IsPool k p
    → IsOpen p.string_pages
    → length v < 256
    → (k' : ℕ) × (k' ≤ suc k)
      × Returns (string_pool_insert_vec base p v) λ r. Interned k' p v r.0 r.1
unfolding string_pool_insert_vec find_or_add string_pool_find_vec
string_pool_insert_vec-Interned k base p v hi valid o short =
    let fits : ltb (length v) 256 ≡ true = ground arith in
    let found =
      string_pool_find_vec-holds valid.table (omega (arith, valid.counted, valid.half, pow_pos k))
        v in
    elim (Option-cases (holds p.content v)) [
      | inl absent ↦
          let (k', le, (r, run, i)) = add_string-Interned k base p v hi valid o short absent in
          (k', le, (r, rw (fits, found, absent) run, i))
      | inr (s, e) ↦ (k, omega arith, ((p, s), rw (fits, found, e) refl, found_lem k p v s valid e))
    ]
