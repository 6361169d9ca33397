-- ===== src/Hash/Resize.antt =====
-- `hash_expand`, `hash_shrink` and the macro `hash_set_and_update`.
use native.Mathlib.Decide.{ℕ_discrete}
use native.Mathlib.Nat.{pow-suc}
use cript.Hash.Mask.{pow-le}
use cript.Hash.Rehash.{IsFresh, hash_init-IsFresh, IsTable-IsDistinct, rehash_loop-Merged}
use cript.Hash.Set.Write.{hash_set_live-Wrote}
use cript.Hash.Slots.{lookup, count_live, count_null, IsSolid, counts-le, lookup_defined}
use cript.Hash.Table.{IsTable}
use cript.Hash.{
  Hash, ht_object, is_live, expand_size, hash_shrink_size, hash_need_expand, hash_need_shrink,
  hash_new, hash_rehash, hash_expand, hash_shrink, hash_set_and_update,
}
use cript.Prelude.Run.{ok, Returns}
use cript.Prelude.{
  ℕ, suc, ◌+◌, ◌-◌, ◌*◌, ◌/◌, ◌^◌, ◌≤◌, ◌<◌, ◌≡◌, refl, ap, ◌∙◌, true, false, ◌==◌, if◌then◌else◌,
  arith, inl, inr, Bool-cases, ltb,
}
use cript.Word.Bits.{pow_pos}
use cript.Value.{Value}

-- A table of `2 ^ k` slots with no deleted slot and an empty one.
pub record IsRoomy (k : ℕ) (h : Hash) : Type 0 where
  pub valid : IsTable k h
  pub solid : IsSolid h.content
  pub gap : 0 < count_null h.content

-- `h'` reads as `h`, in `2 ^ k` slots.
pub record IsCopy (k : ℕ) (h h' : Hash) : Type 0 where
  pub roomy : IsRoomy k h'
  pub reads : (q : ℕ) → lookup q h'.content ≡ lookup q h.content
  pub same_info : h'.info ≡ h.info
  pub no_more : count_live h'.content ≤ count_live h.content

module _ {j : ℕ} {h : Hash} (t : IsTable j h) where
  pub rehash_keeping_type :
      (k : ℕ) (dst : Hash)
      → IsFresh k dst
      → count_live h.content < 2 ^ k
      → Returns (hash_rehash dst h) λ r. IsCopy k h r × (r.type ≡ dst.type)
  unfolding hash_rehash
  rehash_keeping_type k dst fresh room =
      let v = fresh.valid in
      let dst' = record dst { info = h.info } in
      let v' : IsTable k dst' = record {
        small = v.small;
        width = v.width;
        slots = v.slots;
        counted = v.counted;
        placed = v.placed;
        canonical = v.canonical;
      } in
      let (r, run, m) =
        rehash_loop-Merged k h.content dst' (IsTable-IsDistinct t) t.canonical v'
          (omega (arith, fresh.gaps)) in
      (
        r,
        run,
        (
          record {
            roomy = record {
              valid = m.valid;
              solid = m.solid (omega (arith, fresh.gaps, counts-le dst.content, v.slots));
              gap = omega (arith, m.gaps, fresh.gaps);
            };
            reads = λ q. ground (arith, m.reads q, fresh.reads q, lookup_defined q h.content);
            same_info = m.same_info;
            no_more = omega (arith, m.gaps, fresh.gaps, counts-le r.content, m.valid.slots);
          },
          m.same_type,
        ),
      )

  -- Copying a well-formed table, by `hash_rehash`, into a fresh one with more slots than there are live keys
  -- returns a well-formed table that has no deleted slot and an empty one and reads as the source.
  pub hash_rehash-IsCopy :
      (k : ℕ) (dst : Hash)
      → IsFresh k dst
      → count_live h.content < 2 ^ k
      → Returns (hash_rehash dst h) (IsCopy k h)
  hash_rehash-IsCopy k dst fresh room =
      let (r, run, (copy, _)) = rehash_keeping_type k dst fresh room in (r, run, copy)

need_shrink_lem :
    (h : Hash) → hash_need_shrink h ≡ true → (16 < h.capacity) × (h.size < h.capacity / 2)
unfolding hash_need_shrink
need_shrink_lem h e = ground arith

-- The table is not loaded above three quarters.
pub need_expand_lem :
    (h : Hash)
    → 4 ≤ h.capacity
    → h.capacity < 2 ^ 32
    → hash_need_expand h ≡ false
    → h.size + h.capacity / 4 ≤ h.capacity
unfolding hash_need_expand
need_expand_lem h lo hi e = ground arith

hash_new-IsFresh : (k n : ℕ) → 4 ≤ k → k ≤ 31 → n ≡ 2 ^ k → Returns (hash_new n) (IsFresh k)
unfolding hash_new
hash_new-IsFresh k n lo hi e =
    let (h, run, (fresh, _)) = hash_init-IsFresh k ht_object hi in
    let big : 2 ^ 4 ≤ 2 ^ k = pow-le 4 k lo in
    let same : (if ltb n 16 then 16 else n) ≡ 2 ^ k = ground arith in (h, rw same run, fresh)

module _ {j : ℕ} {h : Hash} (t : IsTable j h) where
  -- Expanding a well-formed table of `2 ^ j` slots, for a `j` from 4 to 30, returns a table of twice the
  -- slots that has no deleted slot and an empty one and reads as the old one.
  pub hash_expand-IsCopy : 4 ≤ j → j ≤ 30 → Returns (hash_expand h) (IsCopy (suc j) h)
  unfolding hash_expand
  hash_expand-IsCopy lo hi =
      let (dst, new, fresh) =
        hash_new-IsFresh (suc j) (expand_size h.capacity) (omega arith) (omega arith) twice in
      let (r, run, copy) = hash_rehash-IsCopy t (suc j) dst fresh room in (r, rw new run, copy)
    where
      twice : expand_size h.capacity ≡ 2 ^ suc j
      twice = unfold expand_size in omega (arith, t.width, pow-suc 2 j, pow-le j 30 hi)

      room : count_live h.content < 2 ^ suc j
      room = omega (arith, counts-le h.content, t.slots, pow-suc 2 j, pow_pos j)

  -- Shrinking a well-formed table of `2 ^ (k + 1)` slots, for a `k` of at least 4, that needs to shrink
  -- returns a table of half the slots that has no deleted slot and an empty one and reads as the old one.
  pub hash_shrink-IsCopy :
      (k : ℕ) → j ≡ suc k → 4 ≤ k → hash_need_shrink h ≡ true → Returns (hash_shrink h) (IsCopy k h)
  unfolding hash_shrink
  hash_shrink-IsCopy k e lo need =
      let (dst, new, fresh) =
        hash_new-IsFresh k (hash_shrink_size h) lo (omega (arith, t.small)) half in
      let (r, run, copy) = hash_rehash-IsCopy t k dst fresh room in (r, rw new run, copy)
    where
      width : h.capacity ≡ 2 ^ k * 2
      width = t.width ∙ ap (λ x. 2 ^ x) e ∙ pow-suc 2 k

      half : hash_shrink_size h ≡ 2 ^ k
      half = unfold hash_shrink_size in omega (arith, width)

      room : count_live h.content < 2 ^ k
      room = omega (arith, need_shrink_lem h need, width, t.counted)

-- The outcome of the macro: a table of `2 ^ k` slots that reads as `h` with `v` written under `q`.
pub record IsUpdate (k : ℕ) (h : Hash) (q : ℕ) (v : Value) (h' : Hash) : Type 0 where
  pub roomy : IsRoomy k h'
  pub reads : (p : ℕ) → lookup p h'.content ≡ (if p == q then v else lookup p h.content)

exponent_gt : (k : ℕ) → 4 ≤ k → 16 < 2 ^ k → 5 ≤ k
exponent_gt k lo h = elim (ℕ_discrete k 4) [
  | yes e ↦ absurd (omega (arith, ap (λ x. 2 ^ x) e))
  | no ne ↦ omega arith
]

-- A table that need not be expanded has an empty slot.
gap_of_light :
    (k : ℕ) (h : Hash)
    → 4 ≤ k
    → IsTable k h
    → IsSolid h.content
    → hash_need_expand h ≡ false
    → 0 < count_null h.content
gap_of_light k h lo t solid e =
    let big = pow-le 4 k lo in
    let small = pow-le k 31 t.small in
    let light = need_expand_lem h (omega (arith, t.width)) (omega (arith, t.width)) e in
    omega (arith, light, t.width, t.slots, t.counted)

-- The last line of the macro, on a table `h` that reads as wanted.
shrink_step :
    (k : ℕ) (h : Hash)
    → 4 ≤ k
    → IsRoomy k h
    → (k' : ℕ) × (4 ≤ k')
      × (k' ≤ k)
      × Returns
          (if hash_need_shrink h then hash_shrink h else ok h)
          (λ h'. IsRoomy k' h' × ((q : ℕ) → lookup q h'.content ≡ lookup q h.content))
shrink_step k h lo r = elim (Bool-cases (hash_need_shrink h)) [
  | inr stay ↦ (k, lo, omega arith, (h, rw stay, (r, λ q. refl)))
  | inl need ↦
      let more = exponent_gt k lo (omega (arith, need_shrink_lem h need, r.valid.width)) in
      let (h', run, c) = hash_shrink-IsCopy r.valid (k - 1) (omega arith) (omega arith) need in
      (k - 1, omega arith, omega arith, (h', rw need run, (c.roomy, c.reads)))
]

-- On a table with no deleted slot and an empty one, of 2 ^ k slots for a k from 4 to 30, writing a live
-- value by the macro `hash_set_and_update` returns; the result has at least 16 and at most twice the slots,
-- again has no deleted slot and an empty one, and reads as the old table with the value under the key.
pub hash_set_and_update-IsUpdate :
    (k : ℕ) (h : Hash) (q : ℕ) (v : Value)
    → 4 ≤ k
    → k ≤ 30
    → IsRoomy k h
    → is_live v ≡ true
    → (k' : ℕ) × (4 ≤ k') × (k' ≤ suc k) × Returns (hash_set_and_update h q v) (IsUpdate k' h q v)
unfolding hash_set_and_update
hash_set_and_update-IsUpdate k h q v lo hi r live =
    let (w, write, wrote) = hash_set_live-Wrote r.valid q v r.gap live in
    let solid = wrote.solid live r.solid in
    elim (Bool-cases (hash_need_expand w)) [
      | inr stay ↦
          let gap = gap_of_light k w lo wrote.valid solid stay in
          let (k', lo', le, (h', run, (roomy, same))) =
            shrink_step k w lo (record { valid = wrote.valid; solid = solid; gap = gap }) in
          (
            k',
            lo',
            omega arith,
            (
              h',
              rw (write, stay) run,
              record { roomy = roomy; reads = λ p. same p ∙ wrote.reads p },
            ),
          )
      | inl need ↦
          let (e, grow, copy) = hash_expand-IsCopy wrote.valid lo hi in
          let (k', lo', le, (h', run, (roomy, same))) =
            shrink_step (suc k) e (omega arith) copy.roomy in
          (
            k',
            lo',
            le,
            (
              h',
              rw (write, need, grow) run,
              record { roomy = roomy; reads = λ p. same p ∙ copy.reads p ∙ wrote.reads p },
            ),
          )
    ]
