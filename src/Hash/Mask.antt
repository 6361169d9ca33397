-- ===== src/Hash/Mask.antt =====
-- Powers of two, and the masks that reduce an index modulo the capacity.
use Prim.Native.Nat.{◌∣◌}
use native.Mathlib.Nat.{
  mod-add-mod, pow-suc, dvd-mul_left, mod-mod_of_dvd, div-add-mod, mul-add-mod_self_left, mod-lt,
  pow-le-pow_right,
}
use cript.Hash.{next_index}
use cript.Prelude.{
  ℕ, zero, suc, ◌+◌, ◌-◌, ◌*◌, ◌/◌, ◌%◌, ◌^◌, ◌≤◌, ◌<◌, ◌≡◌, sym, ap, subst, ◌∙◌, arith, bit_and,
}
use cript.Word.Bits.{pow_pos, bit_and_mask}
use cript.Word.{sub}

pub pow-add : (d k : ℕ) → 2 ^ (d + k) ≡ 2 ^ d * 2 ^ k
pow-add zero k = let e : 0 + k ≡ k = omega arith in rw e (omega arith)
pow-add (suc d) k =
    let e : suc d + k ≡ suc (d + k) = omega arith in
    rw (e, pow-suc 2 (d + k), pow-suc 2 d, pow-add d k) (omega arith)

pub mod-mod_pow : (k n x : ℕ) → k ≤ n → x % 2 ^ n % 2 ^ k ≡ x % 2 ^ k
mod-mod_pow k n x h =
    mod-mod_of_dvd (2 ^ k) x
      (subst (λ p. 2 ^ k ∣ p) (sym split) (dvd-mul_left (2 ^ k) (2 ^ (n - k))))
  where
    split : 2 ^ n ≡ 2 ^ (n - k) * 2 ^ k
    split = let e : n ≡ n - k + k = omega arith in ap (λ t. 2 ^ t) e ∙ pow-add (n - k) k

pub pow-le : (k n : ℕ) → k ≤ n → 2 ^ k ≤ 2 ^ n
pow-le k n h = pow-le-pow_right (omega arith) h

pub sub_one : (k : ℕ) → k ≤ 31 → sub (2 ^ k) 1 ≡ 2 ^ k - 1
sub_one k h = omega (arith, pow-le k 31 h, pow_pos k)

-- `hash_find` starts at `key & (capacity - 1)` and `hash_set` at `key % capacity`: with a capacity
-- `2 ^ k`, for a `k` up to 31, these are one slot.
pub home_mask : (k key : ℕ) → k ≤ 31 → bit_and key (sub (2 ^ k) 1) ≡ key % 2 ^ k
home_mask k key h = rw (sub_one k h, bit_and_mask k key)

-- The recurrence of the probe sequence, over numbers of any size.
unfoldable pub step : ℕ → ℕ
step i = i * 2166136261 + 16777619

wrap_add : (k y c : ℕ) → k ≤ 32 → (y % 2 ^ 32 + c) % 2 ^ 32 % 2 ^ k ≡ (y + c) % 2 ^ k
wrap_add k y c h =
    mod-mod_pow k 32 (y % 2 ^ 32 + c) h
    ∙ sym (mod-add-mod (y % 2 ^ 32) (2 ^ k) c)
    ∙ ap (λ t. (t + c) % 2 ^ k) (mod-mod_pow k 32 y h)
    ∙ mod-add-mod y (2 ^ k) c

step-mod : (i m : ℕ) → step (i % m) % m ≡ step i % m
unfolding step
step-mod i m = sym (ap (λ t. t % m) split ∙ mul-add-mod_self_left m (i / m * 2166136261) _)
  where
    split : i * 2166136261 + 16777619 ≡ m * (i / m * 2166136261) + (i % m * 2166136261 + 16777619)
    split = omega (arith, div-add-mod i m)

-- The probe follows the recurrence modulo the capacity.
pub next_index-step : (k i : ℕ) → k ≤ 31 → next_index (i % 2 ^ k) (2 ^ k) ≡ step i % 2 ^ k
next_index-step k i h = wrapped ∙ step-mod i (2 ^ k)
  where
    wrapped : next_index (i % 2 ^ k) (2 ^ k) ≡ step (i % 2 ^ k) % 2 ^ k
    wrapped =
        unfold next_index step in
        rw (sub_one k h, bit_and_mask k)
          (wrap_add k (i % 2 ^ k * 2166136261) 16777619 (omega arith))

pub next_index-lt : (k i : ℕ) → k ≤ 31 → next_index i (2 ^ k) < 2 ^ k
unfolding next_index
next_index-lt k i h = rw (sub_one k h, bit_and_mask k) (mod-lt _ (pow_pos k))
