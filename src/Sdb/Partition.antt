-- ===== src/Sdb/Partition.antt =====
-- The two lists of a pool divide the array between them, and taking and returning an element are
-- the operations on lists that they should be.
use bailuwan.Base.Run.{ok, assert_fail, stop}
use bailuwan.Base.{
  false, ◌==◌, inr, inl, ◌<◌, refl, ◌⊎◌, zero, arith, ◌&&◌, ◌∷◌, some, leb, ap, [], ltb, suc, ◌+◌,
  ◌≡◌, length, List, ℕ,
}
use bailuwan.Sdb.Pool.{set_next, Pool, init_pool, new_node}
use bailuwan.Sdb.Chain.{Chain-set_next, set_next_self, Chain}
use bailuwan.Sdb.Count.{one_if-le, one_if_self, count, one_if}

-- The elements `used` are in the list from `head`, and the elements `free` in the list from
-- `free_`; every element of the array is in one of them, once.
pub record IsPool (nr : ℕ) (s : Pool) (used free : List ℕ) : Type 0 where
  pub used_chain : Chain s.next s.head used
  pub free_chain : Chain s.next s.free_ free
  pub once : (i : ℕ) → count i used + count i free ≡ one_if (ltb i nr)
  pub all : length used + length free ≡ nr

abbrev pub range : ℕ → ℕ → List ℕ
range i zero = []
range i (suc n) = i ∷ range (i + 1) n

length-range : (i n : ℕ) → length (range i n) ≡ n
length-range i zero = refl
length-range i (suc n) = ap suc (length-range (i + 1) n)

count-range : (j i n : ℕ) → count j (range i n) ≡ one_if (leb i j && ltb j (i + n))
count-range j i zero = ground arith
count-range j i (suc n) = ground (arith, count-range j (i + 1) n)

Chain-range : (nr i n : ℕ) → i + suc n ≡ nr → Chain (init_pool nr).next (some i) (range i (suc n))
unfolding init_pool
Chain-range nr i zero h = (refl, ground arith)
Chain-range nr i (suc n) h =
    let more : (i + 1 == nr) ≡ false = ground arith in
    (refl, rw more (Chain-range nr (i + 1) n (omega arith)))

-- After `init_wp_pool` or `init_bp_pool` all elements are free.
pub init_pool-IsPool : (n : ℕ) → IsPool (suc n) (init_pool (suc n)) [] (range 0 (suc n))
unfolding init_pool
init_pool-IsPool n = record {
  used_chain = refl;
  free_chain = Chain-range (suc n) 0 n (omega arith);
  once = λ i. ground (arith, count-range i 0 (suc n));
  all = omega (arith, length-range 0 (suc n));
}

-- An element at the front of one list is nowhere else.
front-once :
    (nr p : ℕ) (used rest : List ℕ)
    → ((i : ℕ) → count i used + count i (p ∷ rest) ≡ one_if (ltb i nr))
    → (count p used ≡ 0) × (count p rest ≡ 0)
front-once nr p used rest once = (
  omega (arith, once p, one_if_self p, one_if-le (ltb p nr)),
  omega (arith, once p, one_if_self p, one_if-le (ltb p nr)),
)

abbrev pub taken : Pool → ℕ → Pool
taken s p = record { next = set_next s.next p s.head; head = some p; free_ = s.next p }

pub taken-IsPool :
    (nr : ℕ) (s : Pool) (used rest : List ℕ) (p : ℕ)
    → IsPool nr s used (p ∷ rest)
    → IsPool nr (taken s p) (p ∷ used) rest
taken-IsPool nr s used rest p h =
    let (out, apart) = front-once nr p used rest h.once in
    record {
      used_chain = (
        refl,
        rw (set_next_self s.next p s.head)
            (Chain-set_next s.next p s.head s.head used out h.used_chain),
      );
      free_chain = Chain-set_next s.next p s.head (s.next p) rest apart (h.free_chain).1;
      once = λ i. omega (arith, h.once i);
      all = omega (arith, h.all);
    }

-- In a well-formed pool, `new_wp` and `new_bp` fail the assertion exactly if all elements are in
-- use, and otherwise move the first free element to the front of the list in use, which keeps the
-- pool well formed.
pub new_node-IsPool :
    (nr : ℕ) (s : Pool) (used free : List ℕ)
    → IsPool nr s used free
    → ((length used ≡ nr) × (new_node s ≡ stop assert_fail))
      ⊎ ((length used < nr)
          × ((p : ℕ) × (rest : List ℕ) × (s' : Pool) × (new_node s ≡ ok (p, s'))
              × (free ≡ p ∷ rest)
              × IsPool nr s' (p ∷ used) rest))
unfolding new_node
new_node-IsPool nr s used [] h = inl (omega (arith, h.all), rw h.free_chain)
new_node-IsPool nr s used (p ∷ rest) h = inr (
  omega (arith, h.all),
  (p, rest, taken s p, rw (h.free_chain).0, refl, taken-IsPool nr s used rest p h),
)
