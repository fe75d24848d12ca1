-- ===== src/Memory/Bytes.antt =====
-- Memory that holds bytes.
use mathlib.Core.Path.{subst}
use native.Mathlib.Nat.{pow-suc}
use bailuwan.Base.{
  ◌/◌, ℕ, zero, suc, ◌+◌, ◌^◌, ◌<◌, ◌≡◌, Bool, Bool-cases, inl, inr, arith, leb, ◌==◌,
}
use bailuwan.Base.Run.{ok, stop≢ok, ok_cancel}
use bailuwan.Memory.Host.{Memory, load, store, deref, assign, host_read, host_write}

abbrev pub IsBytes : Memory → Type 0
IsBytes m = (i : ℕ) → m i < 256

load-lt : (m : Memory) → IsBytes m → (p n : ℕ) → load m p n < 256 ^ n
unfolding load
load-lt m bytes p zero = omega arith
load-lt m bytes p (suc n) = omega (arith, bytes p, load-lt m bytes (p + 1) n, pow-suc 256 n)

pub store-IsBytes : (m : Memory) (p n v : ℕ) → IsBytes m → IsBytes (store m p n v)
unfolding store
store-IsBytes m p zero v bytes i = bytes i
store-IsBytes m p (suc n) v bytes i = ground (arith, store-IsBytes m (p + 1) n (v / 256) bytes i)

deref-lt : (size : ℕ) (m : Memory) (p n v : ℕ) → IsBytes m → deref size m p n ≡ ok v → v < 256 ^ n
unfolding deref
deref-lt size m p n v bytes h = elim (Bool-cases (leb (p + n) size)) [
  | inl inside ↦ subst (λ (t : ℕ). t < 256 ^ n) (ok_cancel (rw inside at h)) (load-lt m bytes p n)
  | inr outside ↦ absurd (stop≢ok (rw outside at h))
]

assign-IsBytes :
    (size : ℕ) (m : Memory) (p n v : ℕ) (m' : Memory)
    → IsBytes m
    → assign size m p n v ≡ ok m'
    → IsBytes m'
unfolding assign
assign-IsBytes size m p n v m' bytes h = elim (Bool-cases (leb (p + n) size)) [
  | inl inside ↦
      subst (λ (t : Memory). IsBytes t) (ok_cancel (rw inside at h)) (store-IsBytes m p n v bytes)
  | inr outside ↦ absurd (stop≢ok (rw outside at h))
]

pub host_read-lt :
    (rt_check : Bool) (size : ℕ) (m : Memory) (p len v : ℕ)
    → IsBytes m
    → host_read rt_check size m p len ≡ ok v
    → v < 2 ^ 32
unfolding host_read
host_read-lt rt_check size m p len v bytes h = elim (Bool-cases (len == 1)) [
  | inl one ↦ omega (arith, deref-lt size m p 1 v bytes (rw one at h))
  | inr not_one ↦ elim (Bool-cases (len == 2)) [
    | inl two ↦ omega (arith, deref-lt size m p 2 v bytes (rw (not_one, two) at h))
    | inr not_two ↦ elim (Bool-cases (len == 4)) [
      | inl four ↦ omega (arith, deref-lt size m p 4 v bytes (rw (not_one, not_two, four) at h))
      | inr not_four ↦ elim (Bool-cases rt_check) [
        | inl checks ↦ absurd (stop≢ok (rw (not_one, not_two, not_four, checks) at h))
        | inr free ↦ omega (arith, ok_cancel (rw (not_one, not_two, not_four, free) at h))
      ]
    ]
  ]
]

pub host_write-IsBytes :
    (rt_check : Bool) (size : ℕ) (m : Memory) (p len v : ℕ) (m' : Memory)
    → IsBytes m
    → host_write rt_check size m p len v ≡ ok m'
    → IsBytes m'
unfolding host_write
host_write-IsBytes rt_check size m p len v m' bytes h = elim (Bool-cases (len == 1)) [
  | inl one ↦ assign-IsBytes size m p 1 v m' bytes (rw one at h)
  | inr not_one ↦ elim (Bool-cases (len == 2)) [
    | inl two ↦ assign-IsBytes size m p 2 v m' bytes (rw (not_one, two) at h)
    | inr not_two ↦ elim (Bool-cases (len == 4)) [
      | inl four ↦ assign-IsBytes size m p 4 v m' bytes (rw (not_one, not_two, four) at h)
      | inr not_four ↦ elim (Bool-cases rt_check) [
        | inl checks ↦ absurd (stop≢ok (rw (not_one, not_two, not_four, checks) at h))
        | inr free ↦
            subst (λ (t : Memory). IsBytes t)
              (ok_cancel (rw (not_one, not_two, not_four, free) at h)) bytes
      ]
    ]
  ]
]
