-- ===== src/Hash/Slots.antt =====
-- The slots of a table as a list: what they mean as a map, and how a write changes that.
use cript.Hash.{HashNode, empty_node, node_at, is_live}
use cript.Prelude.{
  ℕ, zero, suc, ◌+◌, ◌≤◌, ◌<◌, ◌≡◌, ◌≢◌, refl, Bool, true, false, ◌&&◌, ◌==◌, if◌then◌else◌, arith,
  List, [], ◌∷◌, length, set, replicate, inl, inr, Bool-cases,
}
use cript.Value.{Value, value_is_null, value_is_undefined, value_undefined}

-- The value of the first live slot with the key, or undefined.
unfoldable pub lookup : ℕ → List HashNode → Value
lookup q [] = value_undefined
lookup q (n ∷ ns) = if n.key == q && is_live n.value then n.value else lookup q ns

unfoldable pub count_live : List HashNode → ℕ
count_live [] = 0
count_live (n ∷ ns) = (if is_live n.value then 1 else 0) + count_live ns

unfoldable pub count_null : List HashNode → ℕ
count_null [] = 0
count_null (n ∷ ns) = (if value_is_null n.value then 1 else 0) + count_null ns

-- a live slot with the key `q`
abbrev pub serves : ℕ → HashNode → Bool
serves q n = n.key == q && is_live n.value

pub node_at-set :
    (c : List HashNode) (s i : ℕ) (n : HashNode)
    → s < length c
    → node_at (set c s n) i ≡ (if s == i then n else node_at c i)
node_at-set [] s i n h = absurd (omega arith)
node_at-set (x ∷ c) zero zero n h = refl
node_at-set (x ∷ c) zero (suc i) n h = ground arith
node_at-set (x ∷ c) (suc s) zero n h = ground arith
node_at-set (x ∷ c) (suc s) (suc i) n h = ground (arith, node_at-set c s i n)

pub lookup_nowhere :
    (q : ℕ) (c : List HashNode)
    → ((i : ℕ) → i < length c → serves q (node_at c i) ≡ false)
    → lookup q c ≡ value_undefined
unfolding lookup
lookup_nowhere q [] h = refl
lookup_nowhere q (n ∷ c) h =
    ground (arith, h 0 (omega arith), lookup_nowhere q c (λ i lt. h (suc i) (omega arith)))

pub lookup_only :
    (q : ℕ) (c : List HashNode) (s : ℕ)
    → s < length c
    → ((i : ℕ) → i < length c → i ≢ s → serves q (node_at c i) ≡ false)
    → lookup q c ≡ (if serves q (node_at c s) then (node_at c s).value else value_undefined)
unfolding lookup
lookup_only q [] s lt h = absurd (omega arith)
lookup_only q (n ∷ c) zero lt h =
    ground (arith, lookup_nowhere q c (λ i l. h (suc i) (omega arith) (omega arith)))
lookup_only q (n ∷ c) (suc s) lt h = ground (
  arith,
  h 0 (omega arith) (omega arith),
  lookup_only q c s (omega arith) (λ i l ne. h (suc i) (omega arith) (omega arith)),
)

-- A write to a slot that does not serve `q`, of a node with another key.
pub lookup-set_ne :
    (q : ℕ) (c : List HashNode) (s : ℕ) (n : HashNode)
    → serves q (node_at c s) ≡ false
    → n.key ≢ q
    → lookup q (set c s n) ≡ lookup q c
unfolding lookup
lookup-set_ne q [] s n old ne = refl
lookup-set_ne q (x ∷ c) zero n old ne = ground arith
lookup-set_ne q (x ∷ c) (suc s) n old ne = ground (arith, lookup-set_ne q c s n)

pub count_live-set :
    (c : List HashNode) (s : ℕ) (n : HashNode)
    → s < length c
    → count_live (set c s n) + (if is_live (node_at c s).value then 1 else 0)
      ≡ count_live c + (if is_live n.value then 1 else 0)
unfolding count_live
count_live-set [] s n h = absurd (omega arith)
count_live-set (x ∷ c) zero n h = omega arith
count_live-set (x ∷ c) (suc s) n h = omega (arith, count_live-set c s n)

pub count_null-set :
    (c : List HashNode) (s : ℕ) (n : HashNode)
    → s < length c
    → count_null (set c s n) + (if value_is_null (node_at c s).value then 1 else 0)
      ≡ count_null c + (if value_is_null n.value then 1 else 0)
unfolding count_null
count_null-set [] s n h = absurd (omega arith)
count_null-set (x ∷ c) zero n h = omega arith
count_null-set (x ∷ c) (suc s) n h = omega (arith, count_null-set c s n)

pub count_live-le : (c : List HashNode) → count_live c ≤ length c
unfolding count_live
count_live-le [] = omega arith
count_live-le (n ∷ c) = ground (arith, count_live-le c)

pub count_live-pos :
    (c : List HashNode) (s : ℕ)
    → s < length c
    → is_live (node_at c s).value ≡ true
    → 0 < count_live c
unfolding count_live
count_live-pos [] s h l = absurd (omega arith)
count_live-pos (n ∷ c) zero h l = ground arith
count_live-pos (n ∷ c) (suc s) h l = ground (arith, count_live-pos c s)

pub count_live-lt :
    (c : List HashNode) (s : ℕ)
    → s < length c
    → is_live (node_at c s).value ≡ false
    → count_live c < length c
unfolding count_live
count_live-lt [] s h l = absurd (omega arith)
count_live-lt (n ∷ c) zero h l = ground (arith, count_live-le c)
count_live-lt (n ∷ c) (suc s) h l = ground (arith, count_live-lt c s)

-- Where there are empty slots, one can be named.
pub null_slot :
    (c : List HashNode)
    → 0 < count_null c
    → (i : ℕ) × (i < length c) × (value_is_null (node_at c i).value ≡ true)
unfolding count_null
null_slot [] h = absurd (omega arith)
null_slot (n ∷ c) h = elim (Bool-cases (value_is_null n.value)) [
  | inl e ↦ (0, omega arith, e)
  | inr e ↦ let (i, lt, z) = null_slot c (ground arith) in (suc i, omega arith, z)
]

-- No slot is deleted: each is live or empty.
abbrev pub IsSolid : List HashNode → Type 0
IsSolid c = count_null c + count_live c ≡ length c

pub counts-le : (c : List HashNode) → count_null c + count_live c ≤ length c
unfolding count_null count_live
counts-le [] = omega arith
counts-le (n ∷ c) = ground (arith, counts-le c)

-- In a table with no deleted slot, what is not live is empty.
pub null_of_dead :
    (c : List HashNode) (s : ℕ)
    → s < length c
    → IsSolid c
    → is_live (node_at c s).value ≡ false
    → value_is_null (node_at c s).value ≡ true
unfolding count_null count_live
null_of_dead [] s lt solid dead = absurd (omega arith)
null_of_dead (n ∷ c) zero lt solid dead = ground (arith, counts-le c)
null_of_dead (n ∷ c) (suc s) lt solid dead = ground (arith, counts-le c, null_of_dead c s)

pub count_null-replicate : (n : ℕ) → count_null (replicate n empty_node) ≡ n
unfolding count_null value_is_null
count_null-replicate zero = refl
count_null-replicate (suc n) = omega (arith, count_null-replicate n)

pub count_live-replicate : (n : ℕ) → count_live (replicate n empty_node) ≡ 0
unfolding count_live value_is_null value_is_undefined
count_live-replicate zero = refl
count_live-replicate (suc n) = omega (arith, count_live-replicate n)

pub lookup-replicate : (n q : ℕ) → lookup q (replicate n empty_node) ≡ value_undefined
unfolding lookup value_is_null value_is_undefined
lookup-replicate zero q = refl
lookup-replicate (suc n) q = ground (arith, lookup-replicate n q)

-- A value that is read is live, or the word `value_undefined`.
pub lookup_defined :
    (q : ℕ) (c : List HashNode)
    → value_is_undefined (lookup q c) ≡ true
    → lookup q c ≡ value_undefined
unfolding lookup
lookup_defined q [] e = refl
lookup_defined q (n ∷ c) e = ground (arith, lookup_defined q c)
