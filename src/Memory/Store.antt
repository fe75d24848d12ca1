-- ===== src/Memory/Store.antt =====
-- Reading back what was stored in a host object, and what a store leaves alone.
use native.Mathlib.Nat.{
  pow-suc, one-le-pow, mod-lt, div-add-mod, add-mul-mod_self_left, mod-eq_of_lt,
}
use bailuwan.Base.{ℕ, zero, suc, ◌+◌, ◌*◌, ◌/◌, ◌%◌, ◌^◌, ◌≤◌, ◌<◌, ◌≡◌, refl, ◌⊎◌, ap, ◌∙◌, arith}
use bailuwan.Memory.Host.{Memory, load, store}

load_congr :
    (n p : ℕ) (m m' : Memory)
    → ((i : ℕ) → p ≤ i → i < p + n → m i ≡ m' i)
    → load m p n ≡ load m' p n
unfolding load
load_congr zero p m m' same = refl
load_congr (suc n) p m m' same =
    let first = same p (omega arith) (omega arith) in
    let rest = load_congr n (p + 1) m m' (λ i lo hi. same i (omega arith) (omega arith)) in
    omega arith

-- Bytes outside the range of a store are kept.
pub store-outside : (n p v i : ℕ) (m : Memory) → (i < p) ⊎ (p + n ≤ i) → store m p n v i ≡ m i
unfolding store
store-outside zero p v i m out = refl
store-outside (suc n) p v i m out = ground (arith, store-outside n (p + 1) (v / 256) i m)

mod_split : (v k : ℕ) → v % (256 ^ suc k) ≡ v % 256 + 256 * (v / 256 % (256 ^ k))
mod_split v k =
    let whole : v ≡ v % 256 + 256 * (v / 256 % 256 ^ k) + 256 ^ suc k * (v / 256 / 256 ^ k) =
      omega (
        arith,
        div-add-mod (v / 256) (256 ^ k),
        ap (λ (t : ℕ). t * (v / 256 / 256 ^ k)) (pow-suc 256 k),
      ) in
    let small : v % 256 + 256 * (v / 256 % 256 ^ k) < 256 ^ suc k =
      omega
        (arith, mod-lt (v / 256) {m = 256 ^ k} (one-le-pow k 256 (omega arith)), pow-suc 256 k) in
    ap (λ (t : ℕ). t % 256 ^ suc k) whole
    ∙ add-mul-mod_self_left (v % 256 + 256 * (v / 256 % 256 ^ k)) (256 ^ suc k) (v / 256 / 256 ^ k)
    ∙ mod-eq_of_lt small

pub load-store : (n p v : ℕ) (m : Memory) → load (store m p n v) p n ≡ v % 256 ^ n
unfolding load store
load-store zero p v m = omega arith
load-store (suc n) p v m =
    let rest =
      load_congr n (p + 1) (store m p (suc n) v) (store m (p + 1) n (v / 256))
        (λ i lo hi. unfold store in ground arith) in
    ground (arith, rest, load-store n (p + 1) (v / 256) m, mod_split v n)

-- A load sees no store to a disjoint range.
pub load-store_apart :
    (n p k q v : ℕ) (m : Memory) → (p + n ≤ q) ⊎ (q + k ≤ p) → load (store m q k v) p n ≡ load m p n
load-store_apart n p k q v m apart =
    load_congr n p (store m q k v) m (λ i lo hi. store-outside k q v i m (ground arith))

abbrev pub IsBytes : Memory → Type 0
IsBytes m = (i : ℕ) → m i < 256

pub store-IsBytes : (n p v : ℕ) (m : Memory) → IsBytes m → IsBytes (store m p n v)
unfolding store
store-IsBytes zero p v m ok i = ok i
store-IsBytes (suc n) p v m ok i = ground (arith, store-IsBytes n (p + 1) (v / 256) m ok i)

pub load-lt : (n p : ℕ) (m : Memory) → IsBytes m → load m p n < 256 ^ n
unfolding load
load-lt zero p m ok = omega arith
load-lt (suc n) p m ok = omega (arith, ok p, load-lt n (p + 1) m ok, pow-suc 256 n)
