-- ===== src/Sdb/Release.antt =====
-- Returning an element of a pool.
use bailuwan.Base.{
  [], inr, ap, refl, inl, true, none, Bool-cases, ◌==◌, ltb, ◌⊎◌, false, ◌∷◌, arith, ◌≤◌, some, ◌≡◌,
  List, Option, ℕ,
}
use bailuwan.Sdb.Partition.{IsPool}
use bailuwan.Sdb.Pool.{Pool, free_node, set_next, points_to, find_prev}
use bailuwan.Sdb.Chain.{
  Chain, Distinct, Chain-set_next, set_next_self, points_to-apart, find_prev-none, find_prev-remove,
}
use bailuwan.Sdb.Count.{count, remove, one_if, count-remove, length-remove, one_if_self, one_if-le}
use bailuwan.Base.Run.{ok, stop, panic}

-- What `free_wp` and `free_bp` leave: `q` is the element before `wp`, if there is one.
abbrev freed : Pool → ℕ → Option ℕ → Pool
freed s wp none = record { next = set_next s.next wp s.free_; head = s.next wp; free_ = some wp }
freed s wp (some q) = record s {
  next = set_next (set_next s.next q (s.next wp)) wp s.free_;
  free_ = some wp;
}

freed-IsPool :
    (nr wp : ℕ) (s s' : Pool) (used free : List ℕ)
    → IsPool nr s used free
    → 1 ≤ count wp used
    → Chain s'.next s'.head (remove wp used)
    → Chain s'.next s'.free_ (wp ∷ free)
    → IsPool nr s' (remove wp used) (wp ∷ free)
freed-IsPool nr wp s s' used free h present chain chain' = record {
  used_chain = chain;
  free_chain = chain';
  once = λ i. omega (arith, count-remove wp i used present, h.once i);
  all = omega (arith, length-remove wp used present, h.all);
}

used-once : (nr : ℕ) (s : Pool) (used free : List ℕ) → IsPool nr s used free → Distinct used
used-once nr s used free h = λ i. omega (arith, h.once i, one_if-le (ltb i nr))

-- An element in use is not free.
used-apart :
    (nr i : ℕ) (s : Pool) (used free : List ℕ)
    → IsPool nr s used free
    → 1 ≤ count i used
    → count i free ≡ 0
used-apart nr i s used free h present = omega (arith, h.once i, one_if-le (ltb i nr))

-- After its removal an element is not in the list any more.
removed-apart :
    (wp : ℕ) (used : List ℕ) → Distinct used → 1 ≤ count wp used → count wp (remove wp used) ≡ 0
removed-apart wp used once present =
    omega (arith, count-remove wp wp used present, one_if_self wp, once wp)

-- The first element is returned.
first-IsPool :
    (nr wp x : ℕ) (s : Pool) (xs free : List ℕ)
    → IsPool nr s (x ∷ xs) free
    → (x == wp) ≡ true
    → 1 ≤ count wp (x ∷ xs)
    → IsPool nr (freed s wp none) (remove wp (x ∷ xs)) (wp ∷ free)
first-IsPool nr wp x s xs free h same present =
    let once = used-once nr s (x ∷ xs) free h in
    let at : s.next x ≡ s.next wp = ap s.next (ground arith) in
    let chain : Chain s.next (s.next wp) xs = rw (← at) (h.used_chain).1 in
    let first : one_if (x == wp) ≡ 1 = rw same in
    let out : count wp xs ≡ 0 = omega (arith, once wp, first) in
    freed-IsPool nr wp s (freed s wp none) (x ∷ xs) free h present
      (rw same (Chain-set_next s.next wp s.free_ (s.next wp) xs out chain))
      (
        refl,
        rw (set_next_self s.next wp s.free_) (
            Chain-set_next s.next wp s.free_ s.free_ free
              (used-apart nr wp s (x ∷ xs) free h present) h.free_chain),
      )

-- Another element is returned, which `q` comes before.
later-IsPool :
    (nr wp q : ℕ) (s : Pool) (used free : List ℕ)
    → IsPool nr s used free
    → 1 ≤ count wp used
    → 1 ≤ count q used
    → Chain (set_next s.next q (s.next wp)) s.head (remove wp used)
    → IsPool nr (freed s wp (some q)) (remove wp used) (wp ∷ free)
later-IsPool nr wp q s used free h present there unlinked =
    let next' = set_next s.next q (s.next wp) in
    let out = removed-apart wp used (used-once nr s used free h) present in
    let free_chain =
      Chain-set_next s.next q (s.next wp) s.free_ free (used-apart nr q s used free h there)
        h.free_chain in
    freed-IsPool nr wp s (freed s wp (some q)) used free h present
      (Chain-set_next next' wp s.free_ s.head (remove wp used) out unlinked)
      (
        refl,
        rw (set_next_self next' wp s.free_) (
            Chain-set_next next' wp s.free_ s.free_ free (used-apart nr wp s used free h present)
              free_chain),
      )

free_node-found :
    (nr wp q : ℕ) (s : Pool)
    → points_to s.head wp ≡ false
    → find_prev nr s.next s.head wp ≡ some q
    → free_node nr wp s ≡ ok (tt, freed s wp (some q))
unfolding free_node
free_node-found nr wp q s other found = rw (other, found)

pub free_node-absent :
    (nr wp : ℕ) (s : Pool) (used free : List ℕ)
    → IsPool nr s used free
    → count wp used ≡ 0
    → free_node nr wp s ≡ stop panic
unfolding free_node
free_node-absent nr wp s used free h out = rw (
  points_to-apart s.next wp s.head used h.used_chain out,
  find_prev-none s.next wp nr s.head used h.used_chain out,
)

abbrev Released : ℕ → ℕ → Pool → List ℕ → List ℕ → Type 0
Released nr wp s used free =
    (s' : Pool) × (free_node nr wp s ≡ ok (tt, s')) × IsPool nr s' (remove wp used) (wp ∷ free)

free_node-Released :
    (nr wp : ℕ) (s : Pool) (used free : List ℕ)
    → IsPool nr s used free
    → 1 ≤ count wp used
    → Released nr wp s used free
unfolding free_node points_to
free_node-Released nr wp s [] free h present = absurd (omega arith)
free_node-Released nr wp s (x ∷ xs) free h present = elim (Bool-cases (x == wp)) [
  | inl same ↦
      (freed s wp none, rw ((h.used_chain).0, same), first-IsPool nr wp x s xs free h same present)
  | inr other ↦
      let not_first : points_to s.head wp ≡ false = rw (h.used_chain).0 other in
      let (q, found, there, unlinked) =
        find_prev-remove s.next wp nr x xs (h.used_chain).1 (omega (arith, h.all)) (ground arith)
          (used-once nr s (x ∷ xs) free h) in
      (
        freed s wp (some q),
        free_node-found nr wp q s not_first (rw (h.used_chain).0 found),
        later-IsPool nr wp q s (x ∷ xs) free h present there
            (rw ((h.used_chain).0, other) unlinked),
      )
]

-- In a well-formed pool, `free_wp` and `free_bp` move an element in use to the front of the free
-- list and keep the order of the others, which keeps the pool well formed; for any other element
-- they panic.
pub free_node-IsPool :
    (nr wp : ℕ) (s : Pool) (used free : List ℕ)
    → IsPool nr s used free
    → ((count wp used ≡ 0) × (free_node nr wp s ≡ stop panic))
      ⊎ ((count wp used ≡ 1)
          × ((s' : Pool) × (free_node nr wp s ≡ ok (tt, s'))
              × IsPool nr s' (remove wp used) (wp ∷ free)))
free_node-IsPool nr wp s used free h = elim (Bool-cases (count wp used == 0)) [
  | inl none_there ↦
      let out : count wp used ≡ 0 = ground arith in
      inl (out, free_node-absent nr wp s used free h out)
  | inr some_there ↦
      let present : 1 ≤ count wp used = ground arith in
      inr (
        omega (arith, used-once nr s used free h wp),
        free_node-Released nr wp s used free h present,
      )
]
